-- ===== src/Base/Bits.antt =====
-- `|` of two hexadecimal digits as a sum, checked at every pair.
use Prim.Native.Nat.{ℕ, zero, suc, ◌+◌, ◌*◌, ◌/◌, ◌%◌, ◌<◌, bit_or}
use mathlib.Core.Path.{◌≡◌, refl}
use mathlib.Core.Logic.{inl, inr}
use native.Mathlib.Omega.{arith}
use communication_protocols.Base.Tests.{◌==◌, ==_iff, Bool-cases, if◌then◌else◌}

-- How many of the numbers below n the two functions map to different values.
misses : (ℕ → ℕ) → (ℕ → ℕ) → ℕ → ℕ
misses f g zero = 0
misses f g (suc n) = (if f n == g n then 0 else 1) + misses f g n

misses-zero : (f g : ℕ → ℕ) (n x : ℕ) → misses f g n ≡ 0 → x < n → f x ≡ g x
unfolding misses
misses-zero f g zero x none_missed small = absurd (omega arith)
misses-zero f g (suc n) x none_missed small = elim (Bool-cases (x == n)) [
  | inl e ↦ let same : x ≡ n = (==_iff x n).0 e in rw same (ground (arith, (==_iff (f n) (g n)).0))
  | inr e ↦ misses-zero f g n x (ground arith) (ground arith)
]

no_digit_misses : misses (λ x. bit_or (x / 16 * 16) (x % 16)) (λ x. x) 256 ≡ 0
unfolding misses
no_digit_misses = refl

nibbles : (x : ℕ) → x < 256 → bit_or (x / 16 * 16) (x % 16) ≡ x
nibbles x h = misses-zero (λ y. bit_or (y / 16 * 16) (y % 16)) (λ y. y) 256 x no_digit_misses h

pub bit_or_nibbles : (a b : ℕ) → a < 16 → b < 16 → bit_or (a * 16) b ≡ a * 16 + b
bit_or_nibbles a b ha hb =
    let q : (a * 16 + b) / 16 ≡ a = omega arith in
    let r : (a * 16 + b) % 16 ≡ b = omega arith in
    ground (arith, nibbles (a * 16 + b) (omega arith))

-- `|` of the two bytes of a 16-bit word, checked at every word.
no_byte_misses :
    misses (λ x. bit_or (x / 256) (x % 256 * 256)) (λ x. x / 256 + x % 256 * 256) 65536 ≡ 0
unfolding misses
no_byte_misses = refl

pub bit_or_bytes : (x : ℕ) → x < 65536 → bit_or (x / 256) (x % 256 * 256) ≡ x / 256 + x % 256 * 256
bit_or_bytes x h =
    misses-zero (λ y. bit_or (y / 256) (y % 256 * 256)) (λ y. y / 256 + y % 256 * 256) 65536 x
      no_byte_misses h
