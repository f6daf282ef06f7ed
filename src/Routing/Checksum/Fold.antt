-- ===== src/Routing/Checksum/Fold.antt =====
-- The deferred carries of `ip_checksum`, and the whole routine against the Internet checksum.
use communication_protocols.Base.{
  ℕ, zero, suc, ◌+◌, ◌-◌, ◌*◌, ◌/◌, ◌%◌, ◌^◌, ◌≤◌, ◌<◌, ◌≡◌, refl, false, arith, ◌==◌,
  if◌then◌else◌, Bool-cases, ==_iff, ap, sym, ◌⊎◌, inl, inr, bit_or_bytes,
}
use mathlib.Core.Path.{subst}
use communication_protocols.Routing.Checksum.{
  add64, ntohl, partial_word, sum_rest, sum_words, head_count, fold_loop, fold, swap_bytes, htons,
  ip_checksum,
}
use communication_protocols.Routing.Checksum.Sum.{
  IsBytes, sum16, sum16_start, sum16_even, sum16_odd, partial-mod, partial-le, Tracks, Tracks-add,
  sum_rest-Tracks,
}

-- A 16-bit value that is never 0, with the remainder of s modulo 65535.
pub record Residue (s r : ℕ) : Type 0 where
  pub same : r % 65535 ≡ s % 65535
  pub positive : 0 < r
  pub small : r ≤ 65535

fold_loop-Residue : (acc : ℕ) → 0 < acc → acc < 2 ^ 34 → Residue acc (fold_loop 4 acc)
unfolding fold_loop
fold_loop-Residue acc pos small = ground arith

fold-Residue : (acc : ℕ) → 0 < acc → acc < 2 ^ 64 → Residue acc (fold acc)
unfolding fold
fold-Residue acc pos small =
    let r = fold_loop-Residue (acc % 2 ^ 32 + acc / 2 ^ 32) (omega arith) (omega arith) in
    record { same = omega (arith, r.same); positive = r.positive; small = r.small }

start-Tracks : (o : ℕ) (bytes : ℕ → ℕ) → Tracks o 0 bytes 0xffff
unfolding sum16
start-Tracks o bytes = record { same = refl; positive = omega arith; small = omega arith }

sum_rest_none : (i : ℕ) (bytes : ℕ → ℕ) (acc : ℕ) → sum_rest i 0 bytes acc ≡ acc
unfolding sum_rest
sum_rest_none i bytes acc = refl

-- The rest after a head that ends at a word, or that is all there is.
rest-Tracks :
    (o i length : ℕ) (bytes : ℕ → ℕ) (acc : ℕ)
    → IsBytes bytes
    → ((o + i) % 2 ≡ 0) ⊎ (length ≡ i)
    → i ≤ length
    → length < 2 ^ 31
    → Tracks o i bytes acc
    → Tracks o length bytes (sum_rest i (length - i) bytes acc)
rest-Tracks o i length bytes acc small (inl even) hi hl t =
    let e : i + (length - i) ≡ length = omega arith in
    subst (λ m. Tracks o m bytes (sum_rest i (length - i) bytes acc)) e
      (sum_rest-Tracks o i (length - i) bytes acc small even (omega arith) t)
rest-Tracks o i length bytes acc small (inr done) hi hl t =
    let e : length - i ≡ 0 = omega arith in
    rw (e, sum_rest_none i bytes acc) (subst (λ m. Tracks o m bytes acc) (sym done) t)

record Head (o length count : ℕ) : Type 0 where
  fits : o + count ≤ 4
  within : count ≤ length
  ends : ((o + count) % 2 ≡ 0) ⊎ (length ≡ count)

head_count-Head : (o length : ℕ) → o < 4 → Head o length (head_count o length)
unfolding head_count
head_count-Head o length ho = record {
  fits = ground arith;
  within = ground arith;
  ends = ground arith;
}

sum_words-Tracks :
    (o length : ℕ) (bytes : ℕ → ℕ)
    → IsBytes bytes
    → o < 4
    → length < 2 ^ 31
    → Tracks o length bytes (sum_words o bytes length)
unfolding sum_words
sum_words-Tracks zero length bytes small ho hl =
    let e : 0 + length ≡ length = omega arith in
    subst (λ m. Tracks 0 m bytes (sum_rest 0 length bytes 0xffff)) e
      (sum_rest-Tracks 0 0 length bytes 0xffff small (omega arith) (omega arith)
        (start-Tracks 0 bytes))
sum_words-Tracks (suc o) length bytes small ho hl =
    let count = head_count (suc o) length in
    let head = head_count-Head (suc o) length ho in
    let word = ntohl (partial_word (suc o) count bytes) in
    let e : 0 + count ≡ count = omega arith in
    let test : (suc o == 0) ≡ false = ground arith in
    rw (test, sum_words)
      (rest-Tracks (suc o) count length bytes (add64 0xffff word) small head.ends head.within hl (
        subst (λ m. Tracks (suc o) m bytes (add64 0xffff word)) e
          (Tracks-add (suc o) 0 count word 0xffff bytes (omega (arith, head.within))
            (partial-le (suc o) count bytes small)
            (rw (sum16_start (suc o) count bytes) (partial-mod (suc o) count bytes ho head.fits))
            (start-Tracks (suc o) bytes))))

swap_bytes-Residue : (s r : ℕ) → Residue s r → Residue (256 * s) (swap_bytes r)
unfolding swap_bytes
swap_bytes-Residue s r h =
    let e : r / 256 % 256 ≡ r / 256 = omega (arith, h.small) in
    rw (e, bit_or_bytes r (omega (arith, h.small)))
      (record {
        same = omega (arith, h.same);
        positive = omega (arith, h.positive);
        small = omega (arith, h.small);
      })

-- The sum of 16-bit words folded to 16 bits, by the remainder; the folded value is never 0.
unfoldable pub folded : ℕ → ℕ
folded s = if s % 65535 == 0 then 65535 else s % 65535

folded-Residue : (s r : ℕ) → Residue s r → r ≡ folded s
unfolding folded
folded-Residue s r h = ground (arith, h.same, h.positive, h.small)

Residue-sum : (s acc r : ℕ) → acc % 65535 ≡ s % 65535 → Residue acc r → Residue s r
Residue-sum s acc r e h = record {
  same = omega (arith, h.same);
  positive = h.positive;
  small = h.small;
}

abbrev aligned : ℕ → ℕ → ℕ
aligned offset acc = if offset % 2 == 1 then swap_bytes acc else acc

aligned-Residue :
    (o n : ℕ) (bytes : ℕ → ℕ) (r : ℕ)
    → Residue (sum16 o n bytes) r
    → Residue (sum16 0 n bytes) (aligned o r)
aligned-Residue o n bytes r h = elim (Bool-cases (o % 2 == 1)) [
  | inl b ↦ rw b (
      Residue-sum _ (256 * sum16 o n bytes) _ (sum16_odd o n bytes ((==_iff _ _).0 b))
        (swap_bytes-Residue _ r h))
  | inr b ↦ rw b (subst (λ s. Residue s r) (sum16_even o n bytes (ground arith)) h)
]

-- On any `length` bytes, fewer than 2 ^ 31, at any address, the routine that adds 32-bit words gives
-- the complement of the folded sum of the data's 16-bit words, in network order: the alignment of
-- the data does not matter, and no carry is lost.
pub ip_checksum_lem :
    (vdata length : ℕ) (bytes : ℕ → ℕ)
    → IsBytes bytes
    → length < 2 ^ 31
    → ip_checksum vdata bytes length ≡ htons (65535 - folded (sum16 0 length bytes))
unfolding ip_checksum
ip_checksum_lem vdata length bytes small h =
    let o = vdata % 4 in
    let t = sum_words-Tracks o length bytes small (omega arith) h in
    let r = fold-Residue (sum_words o bytes length) t.positive (omega (arith, t.small)) in
    let s = aligned-Residue o length bytes _ (Residue-sum _ _ _ t.same r) in
    ap (λ x. htons (65535 - x)) (omega (arith, folded-Residue _ _ s, s.small))
