-- ===== src/Routing/Packet/Valid.antt =====
-- A checksum field that `set_checksum` has set makes its header verify.
use communication_protocols.Base.{
  ℕ, zero, suc, ◌+◌, ◌-◌, ◌*◌, ◌/◌, ◌%◌, ◌^◌, ◌≤◌, ◌<◌, ◌≡◌, ◌≢◌, refl, ◌⊎◌, inl, inr, ◌==◌, ◌∙◌,
  Bool-cases, arith, Bytes, [], ◌∷◌, All,
}
use communication_protocols.Routing.Checksum.{htons, ip_checksum}
use communication_protocols.Routing.Checksum.Sum.{IsBytes, sum16, weight}
use communication_protocols.Routing.Checksum.Fold.{folded, ip_checksum_lem}
use communication_protocols.Routing.Packet.{
  Memory, put, put16, put_bytes, bytes_at, checksum_of, set_checksum,
}

-- The sum of the 16-bit words of the n bytes at `start`.
unfoldable pub words : Memory → ℕ → ℕ → ℕ
words mem start n = sum16 0 n (λ k. mem (start + k))

-- The header sums to the 16-bit value of all ones, as a receiver checks.
abbrev pub Verifies : Memory → ℕ → ℕ → Type 0
Verifies mem start n = folded (words mem start n) ≡ 65535

pub IsBytes-put : (p b : ℕ) (mem : Memory) → b < 256 → IsBytes mem → IsBytes (put p b mem)
unfolding put
IsBytes-put p b mem h small k = ground (arith, small k)

pub IsBytes-put_bytes :
    (p : ℕ) (bs : Bytes) (mem : Memory)
    → All (λ b. b < 256) bs
    → IsBytes mem
    → IsBytes (put_bytes p bs mem)
unfolding put_bytes
IsBytes-put_bytes p [] mem h small = small
IsBytes-put_bytes p (b ∷ bs) mem (hb, h) small =
    IsBytes-put_bytes (p + 1) bs (put p b mem) h (IsBytes-put p b mem hb small)

pub All-bytes_at : (mem : Memory) (p n : ℕ) → IsBytes mem → All (λ b. b < 256) (bytes_at mem p n)
unfolding bytes_at
All-bytes_at mem p zero small = tt
All-bytes_at mem p (suc n) small = (small p, All-bytes_at mem (p + 1) n small)

pub IsBytes-put16 : (p v : ℕ) (mem : Memory) → IsBytes mem → IsBytes (put16 p v mem)
unfolding put16
IsBytes-put16 p v mem small =
    IsBytes-put (p + 1) (v / 256 % 256) _ (omega arith)
      (IsBytes-put p (v % 256) mem (omega arith) small)

pub put_self : (p b : ℕ) (mem : Memory) → put p b mem p ≡ b
unfolding put
put_self p b mem = ground arith

pub put_other : (p j b : ℕ) (mem : Memory) → j ≢ p → put p b mem j ≡ mem j
unfolding put
put_other p j b mem h = ground arith

weight_high : (c : ℕ) → c % 2 ≡ 0 → weight c ≡ 256
unfolding weight
weight_high c h = ground arith

weight_low : (c : ℕ) → c % 2 ≡ 0 → weight (c + 1) ≡ 1
unfolding weight
weight_low c h = ground arith

-- A write outside the bytes does not change their sum.
pub words-put_out :
    (start n p b : ℕ) (mem : Memory)
    → (p < start) ⊎ (start + n ≤ p)
    → words (put p b mem) start n ≡ words mem start n
unfolding words sum16 put
words-put_out start zero p b mem h = refl
words-put_out start (suc n) p b mem h = ground (arith, words-put_out start n p b mem)

-- A write of the byte c exchanges its share of the sum.
words-suc :
    (mem : Memory) (start n : ℕ)
    → words mem start (suc n) ≡ words mem start n + mem (start + n) * weight n
unfolding words sum16
words-suc mem start n = let w : 0 + n ≡ n = omega arith in rw w

words-put_last :
    (start n b : ℕ) (mem : Memory)
    → words (put (start + n) b mem) start (suc n) + mem (start + n) * weight n
      ≡ words mem start (suc n) + b * weight n
words-put_last start n b mem =
    rw (words-suc (put (start + n) b mem) start n, words-suc mem start n)
      (rw put_self (omega (arith, words-put_out start n (start + n) b mem (inr (omega arith)))))

words-put :
    (start n c b : ℕ) (mem : Memory)
    → c < n
    → words (put (start + c) b mem) start n + mem (start + c) * weight c
      ≡ words mem start n + b * weight c
words-put start zero c b mem h = absurd (omega arith)
words-put start (suc n) c b mem h = elim (Bool-cases (c == n)) [
  | inl e ↦ let same : n ≡ c = ground arith in rw same (words-put_last start c b mem)
  | inr e ↦
      rw (words-suc (put (start + c) b mem) start n, words-suc mem start n)
        (rw (put_other (start + c) (start + n) b mem (ground arith))
          (omega (arith, words-put start n c b mem (ground arith))))
]

pub words-put16 :
    (start n c v : ℕ) (mem : Memory)
    → c % 2 ≡ 0
    → c + 1 < n
    → words (put16 (start + c) v mem) start n + mem (start + c) * 256 + mem (start + (c + 1))
      ≡ words mem start n + v % 256 * 256 + v / 256 % 256
unfolding put16
words-put16 start n c v mem even h =
    let low = put (start + c) (v % 256) mem in
    let e : start + c + 1 ≡ start + (c + 1) = omega arith in
    let w0 : weight c ≡ 256 = weight_high c even in
    let w1 : weight (c + 1) ≡ 1 = weight_low c even in
    let first = words-put start n c (v % 256) mem (omega arith) in
    let second = words-put start n (c + 1) (v / 256 % 256) low h in
    let kept : low (start + (c + 1)) ≡ mem (start + (c + 1)) =
      put_other (start + c) (start + (c + 1)) (v % 256) mem (ground arith) in
    rw e (omega (arith, rw w0 at first, rw (w1, kept) at second))

-- The share of a checksum in network order is its value.
pub htons_share : (x : ℕ) → x < 65536 → htons x % 256 * 256 + htons x / 256 % 256 ≡ x
unfolding htons
htons_share x h = omega arith

folded_complement : (s : ℕ) → folded (s + (65535 - folded s)) ≡ 65535
unfolding folded
folded_complement s = ground arith

folded-le : (s : ℕ) → folded s ≤ 65535
unfolding folded
folded-le s = ground arith

pub put16_zero : (p j : ℕ) (mem : Memory) → (j ≡ p) ⊎ (j ≡ p + 1) → put16 p 0 mem j ≡ 0
unfolding put16 put
put16_zero p j mem h = ground arith

-- Setting the checksum at an even place c of a header makes the header verify.
pub set_checksum-Verifies :
    (base c start n : ℕ) (mem : Memory)
    → c % 2 ≡ 0
    → c + 1 < n
    → n < 2 ^ 31
    → IsBytes mem
    → Verifies (set_checksum base (start + c) start n mem) start n
unfolding set_checksum checksum_of words
set_checksum-Verifies base c start n mem even h hn small =
    let cleared = put16 (start + c) 0 mem in
    let x = 65535 - folded (words cleared start n) in
    let v = ip_checksum (base + start) (λ k. cleared (start + k)) n in
    let value : v ≡ htons x =
      ip_checksum_lem (base + start) n (λ k. cleared (start + k))
        (λ k. IsBytes-put16 (start + c) 0 mem small (start + k)) hn in
    let sum : words (put16 (start + c) v cleared) start n ≡ words cleared start n + x = omega (
      arith,
      words-put16 start n c v cleared even h,
      put16_zero (start + c) (start + c) mem (inl refl),
      put16_zero (start + c) (start + (c + 1)) mem (inr (omega arith)),
      htons_share x (omega arith),
      value,
    ) in
    rw sum (folded_complement (words cleared start n))

words-put16_out :
    (start n p v : ℕ) (mem : Memory)
    → (p + 1 < start) ⊎ (start + n ≤ p)
    → words (put16 p v mem) start n ≡ words mem start n
unfolding put16
words-put16_out start n p v mem h =
    words-put_out start n (p + 1) (v / 256 % 256) _ (omega (arith, h))
    ∙ words-put_out start n p (v % 256) mem (omega (arith, h))

-- Setting one checksum leaves the sum of another header alone.
pub words-set_checksum :
    (base field s k start n : ℕ) (mem : Memory)
    → (field + 1 < start) ⊎ (start + n ≤ field)
    → words (set_checksum base field s k mem) start n ≡ words mem start n
unfolding set_checksum
words-set_checksum base field s k start n mem h =
    words-put16_out start n field _ _ h ∙ words-put16_out start n field 0 mem h

pub IsBytes-set_checksum :
    (base field s k : ℕ) (mem : Memory) → IsBytes mem → IsBytes (set_checksum base field s k mem)
unfolding set_checksum
IsBytes-set_checksum base field s k mem small =
    IsBytes-put16 field _ _ (IsBytes-put16 field 0 mem small)
