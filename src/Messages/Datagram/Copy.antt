-- ===== src/Messages/Datagram/Copy.antt =====
-- Texts that `strncpy` takes whole, and up to their end.
use communication_protocols.Base.{
  ◌<◌, ◌++◌, ℕ, zero, suc, ◌≤◌, ◌≡◌, refl, ap, false, [], ◌∷◌, Bytes, length, ◌==◌, NoZero, arith,
}
use communication_protocols.Messages.Datagram.{copy_text}

pub copy_text-whole :
    (n : ℕ) (text : Bytes) → length text ≤ n → NoZero text → copy_text n text ≡ text
unfolding copy_text
copy_text-whole zero [] h z = refl
copy_text-whole zero (c ∷ text) h z = absurd (omega arith)
copy_text-whole (suc n) [] h z = refl
copy_text-whole (suc n) (c ∷ text) h (p, z) =
    let other : (c == 0) ≡ false = ground arith in
    rw (other, copy_text) (ap (λ l. c ∷ l) (copy_text-whole n text (omega arith) z))

pub copy_text-until :
    (n : ℕ) (text rest : Bytes)
    → NoZero text
    → length text < n
    → copy_text n (text ++ 0 ∷ rest) ≡ text
unfolding copy_text
copy_text-until zero text rest z h = absurd (omega arith)
copy_text-until (suc n) [] rest z h = refl
copy_text-until (suc n) (c ∷ text) rest (p, z) h =
    let other : (c == 0) ≡ false = ground arith in
    rw (other, copy_text) (ap (λ l. c ∷ l) (copy_text-until n text rest z (omega arith)))
