-- ===== src/Routing/Hwaddr/Accept.antt =====
-- What `hwaddr_aton` accepts.
use communication_protocols.Base.{
  ℕ, zero, suc, ◌+◌, ◌*◌, ◌/◌, ◌%◌, ◌<◌, ◌≡◌, ◌≢◌, refl, ap, ◌∙◌, true, false, none, some, [], ◌∷◌,
  ◌++◌, append_assoc, Bytes, length, All, ◌==◌, if◌then◌else◌, lt→ltb, bit_or, bit_or_nibbles,
  arith, map,
}
use mathlib.Core.Path.{subst}
use communication_protocols.Routing.Hwaddr.{peek, next, hex2num, aton_loop, hwaddr_aton}
use communication_protocols.Routing.Hwaddr.Parse.{to_lower, hex2num-some, print_byte, print}

-- The text, in lower case, is `left` bytes as they are printed and a rest; `out` has them added.
abbrev pub Parsed : ℕ → Bytes → Bytes → Bytes → Type 0
Parsed left txt addr out =
    (bs : Bytes) × (rest : Bytes) × (out ≡ addr ++ bs)
    × (length bs ≡ left)
    × All (λ b. b < 256) bs
    × (map to_lower txt ≡ print bs rest)

digit_pair :
    (c d a b : ℕ) (t rest : Bytes)
    → hex2num c ≡ some a
    → hex2num d ≡ some b
    → map to_lower t ≡ rest
    → (bit_or (a * 16) b < 256) × (map to_lower (c ∷ d ∷ t) ≡ print_byte (bit_or (a * 16) b) rest)
unfolding print_byte
digit_pair c d a b t rest ea eb e =
    let (ha, la) = hex2num-some c a ea in
    let (hb, lb) = hex2num-some d b eb in
    let v = bit_or_nibbles a b ha hb in
    let hi : bit_or (a * 16) b / 16 ≡ a = omega (arith, v) in
    let lo : bit_or (a * 16) b % 16 ≡ b = omega (arith, v) in (omega (arith, v), rw (hi, lo) (cc))

Parsed-last :
    (c d a b : ℕ) (t addr out : Bytes)
    → hex2num c ≡ some a
    → hex2num d ≡ some b
    → out ≡ addr ++ bit_or (a * 16) b ∷ []
    → Parsed 1 (c ∷ d ∷ t) addr out
unfolding print
Parsed-last c d a b t addr out ea eb e =
    let (small, shown) = digit_pair c d a b t _ ea eb refl in
    (bit_or (a * 16) b ∷ [], map to_lower t, e, refl, (small, tt), shown)

Parsed-colon :
    (left c d a b : ℕ) (t addr out : Bytes)
    → hex2num c ≡ some a
    → hex2num d ≡ some b
    → Parsed (suc left) t (addr ++ bit_or (a * 16) b ∷ []) out
    → Parsed (suc (suc left)) (c ∷ d ∷ b':' ∷ t) addr out
unfolding print to_lower
Parsed-colon left c d a b t addr out ea eb ([], rest, e, len, small, shown) = absurd (omega arith)
Parsed-colon left c d a b t addr out ea eb (x ∷ bs, rest, e, len, small, shown) =
    let v = bit_or (a * 16) b in
    let (small', shown') =
      digit_pair c d a b (b':' ∷ t) (b':' ∷ print (x ∷ bs) rest) ea eb (ap (◌∷◌ b':') shown) in
    (
      v ∷ x ∷ bs,
      rest,
      e ∙ append_assoc addr (v ∷ []) (x ∷ bs),
      omega arith,
      (small', small),
      shown',
    )

-- A round that succeeds has read two digits.
digits_read :
    (left i : ℕ) (txt addr out : Bytes)
    → aton_loop (suc left) i txt addr ≡ (true, out)
    → (a : ℕ) × (b : ℕ) × (hex2num (peek txt) ≡ some a) × (hex2num (peek (next txt)) ≡ some b)
unfolding aton_loop
digits_read left i txt addr out e = ground arith

hex2num_end : hex2num 0 ≡ none
unfolding hex2num
hex2num_end = refl

module _ (left i : ℕ) (addr out : Bytes) where
  -- A text shorter than two bytes ends in a digit that is missing.
  not_empty : aton_loop (suc left) i [] addr ≢ (true, out)
  not_empty e = let (a, b, ea, eb) = digits_read left i [] addr out e in cc hex2num_end

  not_single : (c : ℕ) → aton_loop (suc left) i (c ∷ []) addr ≢ (true, out)
  not_single c e = let (a, b, ea, eb) = digits_read left i (c ∷ []) addr out e in cc hex2num_end

accept_last : (txt addr out : Bytes) → aton_loop 1 5 txt addr ≡ (true, out) → Parsed 1 txt addr out
unfolding aton_loop
accept_last [] addr out e = absurd (not_empty 0 5 addr out e)
accept_last (c ∷ []) addr out e = absurd (not_single 0 5 addr out c e)
accept_last (c ∷ d ∷ t) addr out e =
    let (a, b, ea, eb) = digits_read 0 5 (c ∷ d ∷ t) addr out e in
    Parsed-last c d a b t addr out ea eb (ground arith)

round_colon :
    (left i a b : ℕ) (txt addr : Bytes)
    → i < 5
    → hex2num (peek txt) ≡ some a
    → hex2num (peek (next txt)) ≡ some b
    → aton_loop (suc left) i txt addr ≡ (
        if peek (next (next txt)) == b':'
        then aton_loop left (i + 1) (next (next (next txt))) (addr ++ bit_or (a * 16) b ∷ [])
        else (false, addr ++ bit_or (a * 16) b ∷ []))
unfolding aton_loop
round_colon left i a b txt addr h ea eb =
    rw (ea, aton_loop) (rw eb (rw (lt→ltb i 5 h) (ground arith)))

-- A round before the last has read a colon too, and the loop goes on behind it.
accept_colon :
    (left i a b : ℕ) (txt addr out : Bytes)
    → i < 5
    → hex2num (peek txt) ≡ some a
    → hex2num (peek (next txt)) ≡ some b
    → aton_loop (suc left) i txt addr ≡ (true, out)
    → (peek (next (next txt)) ≡ b':')
      × (aton_loop left (i + 1) (next (next (next txt))) (addr ++ bit_or (a * 16) b ∷ [])
          ≡ (true, out))
accept_colon left i a b txt addr out h ea eb e =
    ground (arith, round_colon left i a b txt addr h ea eb)

accept_loop :
    (left i : ℕ) (txt addr out : Bytes)
    → i + left ≡ 5
    → aton_loop (suc left) i txt addr ≡ (true, out)
    → Parsed (suc left) txt addr out
accept_loop zero i txt addr out h e =
    let last : i ≡ 5 = omega arith in
    accept_last txt addr out (subst (λ k. aton_loop 1 k txt addr ≡ (true, out)) last e)
accept_loop (suc left) i [] addr out h e = absurd (not_empty (suc left) i addr out e)
accept_loop (suc left) i (c ∷ []) addr out h e = absurd (not_single (suc left) i addr out c e)
accept_loop (suc left) i (c ∷ d ∷ []) addr out h e =
    let (a, b, ea, eb) = digits_read (suc left) i (c ∷ d ∷ []) addr out e in
    absurd (omega (arith, (accept_colon _ i a b (c ∷ d ∷ []) addr out (omega arith) ea eb e).0))
accept_loop (suc left) i (c ∷ d ∷ x ∷ t) addr out h e =
    let (a, b, ea, eb) = digits_read (suc left) i (c ∷ d ∷ x ∷ t) addr out e in
    let (colon, rest) = accept_colon _ i a b (c ∷ d ∷ x ∷ t) addr out (omega arith) ea eb e in
    rw colon (
      Parsed-colon left c d a b t addr out ea eb
        (accept_loop left (i + 1) t _ out (omega arith) rest))

-- An address is accepted only if the text, its digits in lower case, begins with six bytes printed
-- in hexadecimal with colons between them, and those are the bytes that are written.
pub hwaddr_aton_accepts :
    (txt out : Bytes)
    → hwaddr_aton txt ≡ (true, out)
    → (length out ≡ 6)
      × All (λ b. b < 256) out
      × (rest : Bytes) × (map to_lower txt ≡ print out rest)
unfolding hwaddr_aton
hwaddr_aton_accepts txt out e =
    let (bs, rest, eo, len, small, shown) = accept_loop 5 0 txt [] out refl e in
    rw eo (len, small, rest, shown)
