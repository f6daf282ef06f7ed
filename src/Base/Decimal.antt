-- ===== src/Base/Decimal.antt =====
-- Decimal printing: what the digits stand for, and how many there are.
use Prim.Native.Nat.{ℕ, zero, suc, ◌+◌, ◌-◌, ◌*◌, ◌/◌, ◌%◌, ◌^◌, ◌≤◌, ◌<◌}
use mathlib.Core.Path.{◌≡◌, refl, ap, ◌∙◌}
use mathlib.Core.Logic.{inl, inr}
use mathlib.Core.List.{[], ◌∷◌}
use native.Mathlib.Omega.{arith}
use communication_protocols.Base.Tests.{ltb, Bool-cases}
use communication_protocols.Base.Lists.{Bytes, length, All}
use communication_protocols.Base.Texts.{decimal_loop, decimal}

-- The number that digits behind the number n stand for.
unfoldable pub digits_value : ℕ → Bytes → ℕ
digits_value n [] = n
digits_value n (c ∷ text) = digits_value (n * 10 + (c - 48)) text

-- 10 ^ k
unfoldable pub power10 : ℕ → ℕ
power10 zero = 1
power10 (suc k) = 10 * power10 k

pub decimal_loop-value :
    (f n : ℕ) (text : Bytes)
    → n < power10 f
    → digits_value 0 (decimal_loop f n text) ≡ digits_value n text
unfolding decimal_loop digits_value power10
decimal_loop-value zero n text h = let e : n ≡ 0 = omega arith in rw e refl
decimal_loop-value (suc f) n text h = elim (Bool-cases (ltb n 10)) [
  | inl b ↦ rw (b, decimal_loop) (ap (λ m. digits_value m text) (omega arith))
  | inr b ↦
      rw (b, decimal_loop)
        (decimal_loop-value f (n / 10) ((48 + n % 10) ∷ text) (omega arith)
          ∙ ap (λ m. digits_value m text) (omega arith))
]

-- 10 ^ (k + 1) and less are printed in k + 1 digits at most, 10 ^ k and more in as many at least.
pub decimal_loop-short :
    (f k n : ℕ) (text : Bytes)
    → n < power10 (suc k)
    → k < f
    → length (decimal_loop f n text) ≤ suc k + length text
unfolding decimal_loop power10
decimal_loop-short zero k n text h kf = absurd (omega arith)
decimal_loop-short (suc f) zero n text h kf = ground arith
decimal_loop-short (suc f) (suc k) n text h kf =
    ground (arith, decimal_loop-short f k (n / 10) ((48 + n % 10) ∷ text))

power10_pos : (k : ℕ) → 0 < power10 k
unfolding power10
power10_pos zero = omega arith
power10_pos (suc k) = omega (arith, power10_pos k)

text-le-decimal_loop : (f n : ℕ) (text : Bytes) → length text ≤ length (decimal_loop f n text)
unfolding decimal_loop
text-le-decimal_loop zero n text = omega arith
text-le-decimal_loop (suc f) n text =
    ground (arith, text-le-decimal_loop f (n / 10) ((48 + n % 10) ∷ text))

pub decimal_loop-long :
    (f k n : ℕ) (text : Bytes)
    → power10 k ≤ n
    → k < f
    → suc k + length text ≤ length (decimal_loop f n text)
unfolding decimal_loop power10
decimal_loop-long zero k n text h kf = absurd (omega arith)
decimal_loop-long (suc f) zero n text h kf =
    ground (arith, text-le-decimal_loop f (n / 10) ((48 + n % 10) ∷ text))
decimal_loop-long (suc f) (suc k) n text h kf =
    ground (arith, power10_pos k, decimal_loop-long f k (n / 10) ((48 + n % 10) ∷ text))

pub decimal-short : (n : ℕ) → n < 2 ^ 32 → length (decimal n) ≤ 10
unfolding power10
decimal-short n h = omega (arith, decimal_loop-short 20 9 n [] (omega arith) (omega arith))

-- Every digit is one of "0" to "9".
pub decimal_loop-All :
    (f n : ℕ) (text : Bytes) → All (λ c. 48 ≤ c) text → All (λ c. 48 ≤ c) (decimal_loop f n text)
unfolding decimal_loop
decimal_loop-All zero n text h = h
decimal_loop-All (suc f) n text h = elim (Bool-cases (ltb n 10)) [
  | inl b ↦ rw (b, decimal_loop) (omega arith, h)
  | inr b ↦
      rw (b, decimal_loop) (decimal_loop-All f (n / 10) ((48 + n % 10) ∷ text) (omega arith, h))
]
