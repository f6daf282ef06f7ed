-- ===== src/Messages/Datagram/Numbers.antt =====
-- The numbers that `decode_udp_message` of helpers.cpp prints, and those that do not fit.
use communication_protocols.Base.{
  ℕ, ◌+◌, ◌^◌, ◌≤◌, ◌<◌, ◌≡◌, refl, inl, inr, Bool, true, false, ◌&&◌, Option, none, some, [], ◌∷◌,
  Bytes, codes, length, get_or, get_or-All, All, leb, ◌==◌, if◌then◌else◌, decimal, fits,
  digits_value, power10, decimal_loop-value, decimal_loop-short, decimal_loop-long, decimal-short,
  fits-some, fits-none, ◌>>=◌, Bool-cases, arith,
}
use communication_protocols.Messages.Datagram.{
  Doubles, signed_decimal, word32_at, decode_payload, decode_udp_message, topic_of,
}

-- The two sides of the 11 bytes that are there for an INT.
signed-fits :
    (negative : Bool) (n : ℕ)
    → n < 2 ^ 32
    → negative && leb 1000000000 n ≡ false
    → fits 11 (signed_decimal negative n) ≡ some (signed_decimal negative n)
unfolding power10
signed-fits true n h small =
    let few : length (decimal n) ≤ 9 =
      omega (arith, decimal_loop-short 20 8 n [] (ground arith) (omega arith)) in
    elim (Bool-cases (n == 0)) [
      | inl b ↦ rw b (fits-some 11 (decimal n) (omega (arith, few)))
      | inr b ↦ rw b (fits-some 11 (b'-' ∷ decimal n) (omega (arith, few)))
    ]
signed-fits false n h small = fits-some 11 (decimal n) (omega (arith, decimal-short n h))

signed-overflows : (n : ℕ) → 1000000000 ≤ n → fits 11 (signed_decimal true n) ≡ none
unfolding power10
signed-overflows n h = elim (Bool-cases (n == 0)) [
  | inl b ↦ absurd (ground arith)
  | inr b ↦ rw b (
      fits-none 11 (b'-' ∷ decimal n)
        (omega (arith, decimal_loop-long 20 9 n [] (omega arith) (omega arith))))
]

-- The conditional of a payload, and what it makes of the message.
pub int_payload :
    (doubles : Doubles) (buffer : Bytes)
    → word32_at buffer 52 < 2 ^ 32
    → decode_payload doubles 0 buffer ≡ (
        if (get_or buffer 51 0 == 1) && leb 1000000000 (word32_at buffer 52)
        then none
        else some (codes "INT", signed_decimal (get_or buffer 51 0 == 1) (word32_at buffer 52)))
unfolding decode_payload
int_payload doubles buffer h =
    let negative = get_or buffer 51 0 == 1 in
    let n = word32_at buffer 52 in
    elim (Bool-cases (negative && leb 1000000000 n)) [
      | inl b ↦
          let sign : negative ≡ true = ground arith in
          rw b (rw (sign, signed-overflows n (ground arith)))
      | inr b ↦ rw (b, signed-fits negative n h b)
    ]

bind_if :
    {A B : Type 0} (b : Bool) (a : A) (f : A → Option B)
    → (if b then none else some a) >>= f ≡ (if b then none else f a)
bind_if true a f = refl
bind_if false a f = refl

word32-lt : (buffer : Bytes) (i : ℕ) → All (λ b. b < 256) buffer → word32_at buffer i < 2 ^ 32
word32-lt buffer i h =
    let byte : (j : ℕ) → get_or buffer j 0 < 256 =
      get_or-All (λ b. b < 256) buffer 0 h (omega arith) in
    omega (arith, byte i, byte (i + 1), byte (i + 2), byte (i + 3))

-- A datagram of bytes with the type 0 and the number n overflows the payload exactly if it is
-- negative and n is 1000000000 or more; otherwise the payload is n in decimal, with a minus sign if
-- it is negative and not 0; and the decimal digits of n stand for n.
pub decode_udp_message-signed_decimal :
    (doubles : Doubles) (behind buffer : Bytes)
    → All (λ b. b < 256) buffer
    → get_or buffer 50 0 ≡ 0
    → (decode_udp_message doubles behind buffer ≡ (
        if (get_or buffer 51 0 == 1) && leb 1000000000 (word32_at buffer 52)
        then none
        else some (record {
          topic = topic_of behind buffer;
          type = codes "INT";
          payload = signed_decimal (get_or buffer 51 0 == 1) (word32_at buffer 52);
        })))
      × (digits_value 0 (decimal (word32_at buffer 52)) ≡ word32_at buffer 52)
unfolding decode_udp_message power10 digits_value
decode_udp_message-signed_decimal doubles behind buffer h kind =
    let n = word32_at buffer 52 in
    let small = word32-lt buffer 52 h in
    let overflows = (get_or buffer 51 0 == 1) && leb 1000000000 n in
    (
      rw kind (rw (int_payload doubles buffer small) (bind_if overflows _ _)),
      decimal_loop-value 20 n [] (omega (arith, small)),
    )
