-- ===== src/Base/Texts.antt =====
-- C strings as lists of bytes: comparison, the terminating 0, and decimal printing.
use Prim.Native.Nat.{◌≤◌, ◌<◌, ℕ, zero, suc, ◌+◌, ◌/◌, ◌%◌}
use mathlib.Core.Path.{◌≡◌, refl}
use mathlib.Core.Logic.{◌↔◌}
use mathlib.Core.Bool.{Bool, true, false, ◌&&◌}
use mathlib.Core.List.{[], ◌∷◌, ◌++◌}
use mathlib.Core.Option.{Option, none, some}
use native.Mathlib.Omega.{arith}
use communication_protocols.Base.Tests.{◌==◌, ltb, if◌then◌else◌}
use communication_protocols.Base.Lists.{Bytes, length, All}

-- `memcmp(x, y, n) == 0` on n bytes each, and `strcmp(x, y) == 0`
unfoldable pub same_bytes : Bytes → Bytes → Bool
same_bytes [] [] = true
same_bytes [] (y ∷ ys) = false
same_bytes (x ∷ xs) [] = false
same_bytes (x ∷ xs) (y ∷ ys) = (x == y) && same_bytes xs ys

pub same_bytes-eq : (xs ys : Bytes) → same_bytes xs ys ≡ true → xs ≡ ys
unfolding same_bytes
same_bytes-eq [] [] h = refl
same_bytes-eq [] (y ∷ ys) h = cc
same_bytes-eq (x ∷ xs) [] h = cc
same_bytes-eq (x ∷ xs) (y ∷ ys) h = ground (arith, same_bytes-eq xs ys)

pub same_bytes_refl : (xs : Bytes) → same_bytes xs xs ≡ true
unfolding same_bytes
same_bytes_refl [] = refl
same_bytes_refl (x ∷ xs) = ground (arith, same_bytes_refl xs)

pub same_bytes_iff : (xs ys : Bytes) → (same_bytes xs ys ≡ true) ↔ (xs ≡ ys)
same_bytes_iff xs ys = (same_bytes-eq xs ys, λ e. rw e (same_bytes_refl ys))

-- The text of a block: up to its first 0, and `none` where it has no 0.
unfoldable pub c_string : Bytes → Option Bytes
c_string [] = none
c_string (c ∷ block) = elim (c == 0) [
  | true ↦ some []
  | false ↦ elim (c_string block) [ none ↦ none | some text ↦ some (c ∷ text) ]
]

-- `%lld` and `%d` of a number of up to 20 digits.
unfoldable pub decimal_loop : ℕ → ℕ → Bytes → Bytes
decimal_loop zero n text = text
decimal_loop (suc f) n text = elim (ltb n 10) [
  | true ↦ (48 + n) ∷ text
  | false ↦ decimal_loop f (n / 10) ((48 + n % 10) ∷ text)
]

abbrev pub decimal : ℕ → Bytes
decimal n = decimal_loop 20 n []

-- The text with a final 0 fits in n bytes.
unfoldable pub fits : ℕ → Bytes → Option Bytes
fits n text = if ltb (length text) n then some text else none

pub fits-some : (n : ℕ) (text : Bytes) → length text < n → fits n text ≡ some text
unfolding fits
fits-some n text h = ground arith

pub fits-none : (n : ℕ) (text : Bytes) → n ≤ length text → fits n text ≡ none
unfolding fits
fits-none n text h = ground arith

-- A text without 0, and the block that holds it.
abbrev pub NoZero : Bytes → Type 0
NoZero = All (λ c. 0 < c)

pub c_string-append : (text rest : Bytes) → NoZero text → c_string (text ++ 0 ∷ rest) ≡ some text
unfolding c_string
c_string-append [] rest h = refl
c_string-append (c ∷ text) rest (p, h) =
    let other : (c == 0) ≡ false = ground arith in
    rw (other, c_string) (rw (c_string-append text rest h) refl)
