-- ===== src/Messages/Datagram.antt =====
-- `is_valid_udp_message` and `decode_udp_message` of Client-Server-TCP-UDP/helpers.cpp. The buffer is
-- the list of its bytes. `none` is a write past the end of a payload, or a text with no end in the
-- buffer.
pub mod Numbers
pub mod Copy
pub mod Packets
pub mod Tests
use communication_protocols.Base.{
  ℕ, zero, suc, ◌+◌, ◌*◌, ◌/◌, ◌%◌, ◌^◌, Bool, true, false, ◌&&◌, ◌||◌, not, Option, none, some, [],
  ◌∷◌, ◌++◌, Bytes, codes, length, get_or, drop, ltb, ◌==◌, if◌then◌else◌, c_string, decimal, fits,
  ◌>>=◌,
}

-- `udp_message_node`
pub record UdpMessage : Type 0 where
  pub topic : Bytes
  pub type : Bytes
  pub payload : Bytes

unfoldable pub is_valid_udp_message : Bytes → Bool
is_valid_udp_message buffer =
    let kind = get_or buffer 50 0 in (kind == 0) || (kind == 1) || (kind == 2) || (kind == 3)

-- `strncpy(..., n)`: up to the first 0, n bytes at most.
unfoldable pub copy_text : ℕ → Bytes → Bytes
copy_text zero block = []
copy_text (suc n) [] = []
copy_text (suc n) (c ∷ block) = elim (c == 0) [ true ↦ [] | false ↦ c ∷ copy_text n block ]

-- `ntohl` and `htons` of the bytes at a place.
abbrev pub word32_at : Bytes → ℕ → ℕ
word32_at b i =
    get_or b i 0 * 2 ^ 24
    + get_or b (i + 1) 0 * 2 ^ 16
    + get_or b (i + 2) 0 * 2 ^ 8
    + get_or b (i + 3) 0

abbrev pub word16_at : Bytes → ℕ → ℕ
word16_at b i = get_or b i 0 * 2 ^ 8 + get_or b (i + 1) 0

-- `%lld` of n or of -n.
abbrev pub signed_decimal : Bool → ℕ → Bytes
signed_decimal negative n = if negative && not (n == 0) then b'-' ∷ decimal n else decimal n

-- `%.2f` of n / 100, for n below 2 ^ 16, where a double is close enough to print it exactly.
abbrev pub hundredths : ℕ → Bytes
hundredths n = decimal (n / 100) ++ b'.' ∷ (48 + n % 100 / 10) ∷ (48 + n % 10) ∷ []

-- The doubles of a FLOAT: `%lf` of n / 10 ^ e or its negative, where e is the byte of a `char`.
pub record Doubles : Type 0 where
  pub quotient_text : Bool → ℕ → ℕ → Bytes

-- The topic: `topic[50]` is never set, so where it has 50 bytes, its text goes on with `behind`.
unfoldable pub topic_of : Bytes → Bytes → Bytes
topic_of behind buffer =
    let copied = copy_text 50 buffer in if length copied == 50 then copied ++ behind else copied

module _ (doubles : Doubles) where
  -- The payload by the type in byte 50.
  unfoldable pub decode_payload : ℕ → Bytes → Option (Bytes × Bytes)
  decode_payload test buffer =
      if test == 0
      then (do
        text ← fits 11 (signed_decimal (get_or buffer 51 0 == 1) (word32_at buffer 52))
        some (codes "INT", text))
      else if test == 1
      then (do text ← fits 20 (hundredths (word16_at buffer 51)); some (codes "SHORT_REAL", text))
      else if test == 2
      then (do
        let sign = get_or buffer 51 0
        let negative = ltb 0 sign && ltb sign 128
        text ← fits 40 (doubles.quotient_text negative (word32_at buffer 52) (get_or buffer 56 0))
        some (codes "FLOAT", text))
      else (do text ← c_string (drop 51 buffer); text ← fits 1501 text; some (codes "STRING", text))

  unfoldable pub decode_udp_message : Bytes → Bytes → Option UdpMessage
  decode_udp_message behind buffer = do
    (type, payload) ← decode_payload (get_or buffer 50 0) buffer
    some (record { topic = topic_of behind buffer; type = type; payload = payload })
