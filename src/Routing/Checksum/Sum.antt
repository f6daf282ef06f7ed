-- ===== src/Routing/Checksum/Sum.antt =====
-- The accumulator of `ip_checksum` modulo 65535: the weighted sum of the bytes.
use communication_protocols.Base.{
  ℕ, zero, suc, ◌+◌, ◌-◌, ◌*◌, ◌/◌, ◌%◌, ◌^◌, ◌≤◌, ◌<◌, ◌≡◌, refl, arith, ◌==◌, if◌then◌else◌,
  Bool-cases, inl, inr,
}
use mathlib.Core.Path.{subst}
use native.Mathlib.Nat.{add-zero, add-suc, add_assoc}
use communication_protocols.Routing.Checksum.{add64, ntohl, partial_word, block_loop, sum_rest}

-- The weight of a byte in its 16-bit word, high byte first.
unfoldable pub weight : ℕ → ℕ
weight k = if k % 2 == 0 then 256 else 1

-- The sum of the first n bytes as 16-bit words, the first byte at place o.
unfoldable pub sum16 : ℕ → ℕ → (ℕ → ℕ) → ℕ
sum16 o zero bytes = 0
sum16 o (suc n) bytes = sum16 o n bytes + bytes n * weight (o + n)

abbrev pub IsBytes : (ℕ → ℕ) → Type 0
IsBytes bytes = (k : ℕ) → bytes k < 256

sum16-add :
    (o i c : ℕ) (bytes : ℕ → ℕ)
    → sum16 o (i + c) bytes ≡ sum16 o i bytes + sum16 (o + i) c (λ k. bytes (i + k))
unfolding sum16
sum16-add o i zero bytes = rw (add-zero i) (omega arith)
sum16-add o i (suc c) bytes = rw add-suc (ground (arith, sum16-add o i c bytes, add_assoc o i c))

pub sum16_start : (o n : ℕ) (bytes : ℕ → ℕ) → sum16 (o + 0) n (λ k. bytes (0 + k)) ≡ sum16 o n bytes
unfolding sum16
sum16_start o zero bytes = refl
sum16_start o (suc n) bytes = ground (arith, sum16_start o n bytes)

weight_even : (o k : ℕ) → o % 2 ≡ 0 → weight (o + k) ≡ weight k
unfolding weight
weight_even o k h = ground arith

pub sum16_even : (o c : ℕ) (bytes : ℕ → ℕ) → o % 2 ≡ 0 → sum16 o c bytes ≡ sum16 0 c bytes
unfolding sum16
sum16_even o zero bytes h = refl
sum16_even o (suc c) bytes h =
    ground (arith, sum16_even o c bytes h, weight_even o c h, weight_even 0 c)

pub partial-mod :
    (o c : ℕ) (bytes : ℕ → ℕ)
    → o < 4
    → o + c ≤ 4
    → ntohl (partial_word o c bytes) % 65535 ≡ sum16 o c bytes % 65535
unfolding sum16 weight
partial-mod zero zero bytes ho h = omega arith
partial-mod zero (suc zero) bytes ho h = omega arith
partial-mod zero (suc (suc zero)) bytes ho h = omega arith
partial-mod zero (suc (suc (suc zero))) bytes ho h = omega arith
partial-mod zero (suc (suc (suc (suc zero)))) bytes ho h = omega arith
partial-mod zero (suc (suc (suc (suc (suc c))))) bytes ho h = absurd (omega arith)
partial-mod (suc zero) zero bytes ho h = omega arith
partial-mod (suc zero) (suc zero) bytes ho h = omega arith
partial-mod (suc zero) (suc (suc zero)) bytes ho h = omega arith
partial-mod (suc zero) (suc (suc (suc zero))) bytes ho h = omega arith
partial-mod (suc zero) (suc (suc (suc (suc c)))) bytes ho h = absurd (omega arith)
partial-mod (suc (suc zero)) zero bytes ho h = omega arith
partial-mod (suc (suc zero)) (suc zero) bytes ho h = omega arith
partial-mod (suc (suc zero)) (suc (suc zero)) bytes ho h = omega arith
partial-mod (suc (suc zero)) (suc (suc (suc c))) bytes ho h = absurd (omega arith)
partial-mod (suc (suc (suc zero))) zero bytes ho h = omega arith
partial-mod (suc (suc (suc zero))) (suc zero) bytes ho h = omega arith
partial-mod (suc (suc (suc zero))) (suc (suc c)) bytes ho h = absurd (omega arith)
partial-mod (suc (suc (suc (suc o)))) c bytes ho h = absurd (omega arith)

partial-lt : (o c : ℕ) (bytes : ℕ → ℕ) → IsBytes bytes → ntohl (partial_word o c bytes) < 2 ^ 32
partial-lt o c bytes small =
    let at : (k : ℕ) → partial_word o c bytes k < 256 = λ k. ground (arith, small (k - o)) in
    omega (arith, at 0, at 1, at 2, at 3)

pub partial-le :
    (o c : ℕ) (bytes : ℕ → ℕ) → IsBytes bytes → ntohl (partial_word o c bytes) ≤ c * 2 ^ 32
partial-le o zero bytes small =
    let at : (k : ℕ) → partial_word o 0 bytes k ≡ 0 = λ k. ground arith in
    omega (arith, at 0, at 1, at 2, at 3)
partial-le o (suc c) bytes small = omega (arith, partial-lt o (suc c) bytes small)

-- The accumulator stands for the first i bytes.
pub record Tracks (o i : ℕ) (bytes : ℕ → ℕ) (acc : ℕ) : Type 0 where
  pub same : acc % 65535 ≡ sum16 o i bytes % 65535
  pub positive : 0 < acc
  pub small : acc ≤ 65535 + i * 2 ^ 32

pub Tracks-add :
    (o i c w acc : ℕ) (bytes : ℕ → ℕ)
    → i + c < 2 ^ 31
    → w ≤ c * 2 ^ 32
    → w % 65535 ≡ sum16 (o + i) c (λ k. bytes (i + k)) % 65535
    → Tracks o i bytes acc
    → Tracks o (i + c) bytes (add64 acc w)
Tracks-add o i c w acc bytes room hw e t =
    let no_wrap : add64 acc w ≡ acc + w = omega (arith, t.small) in
    record {
      same = rw (no_wrap, sum16-add o i c bytes) (omega (arith, t.same));
      positive = omega (arith, t.positive, no_wrap);
      small = omega (arith, t.small, no_wrap);
    }

Tracks-word :
    (o i : ℕ) (bytes : ℕ → ℕ) (acc : ℕ)
    → IsBytes bytes
    → (o + i) % 2 ≡ 0
    → i + 4 < 2 ^ 31
    → Tracks o i bytes acc
    → Tracks o (i + 4) bytes (add64 acc (ntohl (λ k. bytes (i + k))))
Tracks-word o i bytes acc small even room t =
    let f = λ (k : ℕ). bytes (i + k) in
    Tracks-add o i 4 (ntohl f) acc bytes room (partial-le 0 4 f (λ k. small (i + k)))
      (rw (sum16_even (o + i) 4 f even) (partial-mod 0 4 f (omega arith) (omega arith))) t

block_loop-Tracks :
    (n o i : ℕ) (bytes : ℕ → ℕ) (acc : ℕ)
    → IsBytes bytes
    → (o + i) % 2 ≡ 0
    → i + n * 4 < 2 ^ 31
    → Tracks o i bytes acc
    → Tracks o (i + n * 4) bytes (block_loop n i bytes acc)
unfolding block_loop
block_loop-Tracks zero o i bytes acc small even room t =
    let e : i ≡ i + 0 * 4 = omega arith in subst (λ m. Tracks o m bytes acc) e t
block_loop-Tracks (suc n) o i bytes acc small even room t =
    let e : i + 4 + n * 4 ≡ i + suc n * 4 = omega arith in
    subst (λ m. Tracks o m bytes (block_loop (suc n) i bytes acc)) e
      (block_loop-Tracks n o (i + 4) bytes _ small (omega arith) (omega arith)
        (Tracks-word o i bytes acc small even (omega arith) t))

pub sum_rest-Tracks :
    (o i length : ℕ) (bytes : ℕ → ℕ) (acc : ℕ)
    → IsBytes bytes
    → (o + i) % 2 ≡ 0
    → i + length < 2 ^ 31
    → Tracks o i bytes acc
    → Tracks o (i + length) bytes (sum_rest i length bytes acc)
unfolding sum_rest
sum_rest-Tracks o i length bytes acc small even room t = elim (Bool-cases (length % 4 == 0)) [
  | inl b ↦
      let e : j ≡ i + length = ground arith in
      rw (b, sum_rest) (subst (λ m. Tracks o m bytes whole) e tracked)
  | inr b ↦
      let e : j + length % 4 ≡ i + length = omega arith in
      rw (b, sum_rest)
        (subst (λ m. Tracks o m bytes (add64 whole (ntohl (partial_word 0 (length % 4) f)))) e
          (Tracks-add o j (length % 4) _ whole bytes (omega arith)
            (partial-le 0 (length % 4) f (λ k. small (j + k)))
            (rw (sum16_even (o + j) (length % 4) f (omega arith))
              (partial-mod 0 (length % 4) f (omega arith) (omega arith)))
            tracked))
]
  where
    j : ℕ
    j = i + length / 4 * 4

    f : ℕ → ℕ
    f k = bytes (j + k)

    whole : ℕ
    whole = block_loop (length / 4) i bytes acc

    tracked : Tracks o j bytes whole
    tracked = block_loop-Tracks (length / 4) o i bytes acc small even (omega arith) t

pub sum16_odd :
    (o n : ℕ) (bytes : ℕ → ℕ)
    → o % 2 ≡ 1
    → (256 * sum16 o n bytes) % 65535 ≡ sum16 0 n bytes % 65535
unfolding sum16 weight
sum16_odd o zero bytes h = refl
sum16_odd o (suc n) bytes h = ground (arith, sum16_odd o n bytes h)
