-- ===== src/Messages/Datagram/Tests.antt =====
-- An INT, a SHORT_REAL and a STRING of helpers.cpp, printed.
use communication_protocols.Base.{
  digits_value, ℕ, zero, suc, ◌<◌, ◌≡◌, refl, false, ◌&&◌, none, some, [], ◌∷◌, ◌++◌, Bytes, codes,
  get_or, All, arith, leb, ◌==◌, if◌then◌else◌, c_string, decimal, decimal_loop, fits,
}
use communication_protocols.Messages.Datagram.{
  Doubles, signed_decimal, word32_at, is_valid_udp_message, decode_payload, decode_udp_message,
  topic_of, copy_text,
}
use communication_protocols.Messages.Datagram.Numbers.{decode_udp_message-signed_decimal}

abbrev zeros : ℕ → Bytes
zeros zero = []
zeros (suc n) = 0 ∷ zeros n

abbrev pub doubles : Doubles
doubles = record { quotient_text = λ negative n e. [] }

-- The topic "ab" and what follows it.
abbrev pub datagram : Bytes → Bytes
datagram rest = codes "ab" ++ zeros 48 ++ rest

abbrev minus_258 : Bytes
minus_258 = datagram (0 ∷ 1 ∷ 0 ∷ 0 ∷ 1 ∷ 2 ∷ [])

minus_258_decoded :
    decode_udp_message doubles [] minus_258
    ≡ some (record { topic = codes "ab"; type = codes "INT"; payload = codes "-258" })
unfolding decode_udp_message decode_payload topic_of copy_text fits decimal_loop
minus_258_decoded = refl

short_real_decoded :
    decode_udp_message doubles [] (datagram (1 ∷ 1 ∷ 5 ∷ []))
    ≡ some (record { topic = codes "ab"; type = codes "SHORT_REAL"; payload = codes "2.61" })
unfolding decode_udp_message decode_payload topic_of copy_text fits decimal_loop
short_real_decoded = refl

string_decoded :
    decode_udp_message doubles [] (datagram (3 ∷ codes "hi" ++ 0 ∷ codes "old"))
    ≡ some (record { topic = codes "ab"; type = codes "STRING"; payload = codes "hi" })
unfolding decode_udp_message decode_payload topic_of copy_text fits c_string
string_decoded = refl

invalid : is_valid_udp_message (datagram (4 ∷ [])) ≡ false
unfolding is_valid_udp_message
invalid = refl

minus_258_bytes : All (λ b. b < 256) minus_258
minus_258_bytes = ground arith

decode_udp_message-signed_decimal_example :
    (decode_udp_message doubles [] minus_258 ≡ (
      if (get_or minus_258 51 0 == 1) && leb 1000000000 (word32_at minus_258 52)
      then none
      else some (record {
        topic = topic_of [] minus_258;
        type = codes "INT";
        payload = signed_decimal (get_or minus_258 51 0 == 1) (word32_at minus_258 52);
      })))
    × (digits_value 0 (decimal (word32_at minus_258 52)) ≡ word32_at minus_258 52)
decode_udp_message-signed_decimal_example =
    decode_udp_message-signed_decimal doubles [] minus_258 minus_258_bytes refl
