-- ===== src/Messages/Datagram/Packets.antt =====
-- The packets of a publisher, as helpers.cpp reads them.
use communication_protocols.Messages.Datagram.Copy.{copy_text-until}
use communication_protocols.Base.{
  get_or-behind, drop-behind, ℕ, zero, suc, ◌+◌, ◌-◌, ◌*◌, ◌/◌, ◌%◌, ◌^◌, ◌≤◌, ◌<◌, ◌≡◌, refl, ap,
  ◌∙◌, Bool, true, false, ◌&&◌, ◌||◌, some, [], ◌∷◌, ◌++◌, append_assoc, Bytes, codes, length,
  length-append, get_or, drop, leb, ◌==◌, if◌then◌else◌, NoZero, c_string-append, decimal,
  decimal_loop-short, fits, fits-some, power10, arith,
}
use communication_protocols.Messages.Datagram.{
  is_valid_udp_message, word32_at, word16_at, signed_decimal, hundredths, Doubles, topic_of,
  decode_payload, decode_udp_message,
}
use communication_protocols.Messages.Datagram.Numbers.{int_payload}

-- What is published: a number with its sign, a number of hundredths, or a text.
pub data Content : Type 0 where
  integer : Bool → ℕ → Content
  short_real : ℕ → Content
  string : Bytes → Content

-- The byte of the type and the data, in network order.
abbrev pub data_of : Content → Bytes
data_of (integer negative n) =
    0
    ∷ (if negative then 1 else 0)
    ∷ n / 2 ^ 24 % 256
    ∷ n / 2 ^ 16 % 256
    ∷ n / 2 ^ 8 % 256
    ∷ n % 256
    ∷ []
data_of (short_real n) = 1 ∷ n / 2 ^ 8 % 256 ∷ n % 256 ∷ []
data_of (string words) = 3 ∷ words ++ 0 ∷ []

abbrev pub zeros : ℕ → Bytes
zeros zero = []
zeros (suc n) = 0 ∷ zeros n

-- The topic in its 50 bytes, the data, and what stands behind it in the buffer.
abbrev pub packet_of : Bytes → Content → Bytes → Bytes
packet_of topic content old = (topic ++ zeros (50 - length topic)) ++ (data_of content ++ old)

-- The name of the type and the printed value.
abbrev pub type_of : Content → Bytes
type_of (integer negative n) = codes "INT"
type_of (short_real n) = codes "SHORT_REAL"
type_of (string words) = codes "STRING"

abbrev pub printed : Content → Bytes
printed (integer negative n) = signed_decimal negative n
printed (short_real n) = hundredths n
printed (string words) = words

-- The values that a publisher may send and that fit where they are printed.
abbrev pub Fitting : Content → Type 0
Fitting (integer negative n) = (n < 2 ^ 32) × (negative && leb 1000000000 n ≡ false)
Fitting (short_real n) = n < 2 ^ 16
Fitting (string words) = NoZero words × (length words < 1501)

length-zeros : (n : ℕ) → length (zeros n) ≡ n
length-zeros zero = refl
length-zeros (suc n) = ap suc (length-zeros n)

padded_length :
    (topic : Bytes) → length topic < 50 → length (topic ++ zeros (50 - length topic)) ≡ 50
padded_length topic small =
    omega (arith, length-append topic (zeros (50 - length topic)), length-zeros (50 - length topic))

topic_of-packet_of :
    (behind topic : Bytes) (content : Content) (old : Bytes)
    → NoZero topic
    → length topic < 50
    → topic_of behind (packet_of topic content old) ≡ topic
unfolding topic_of
topic_of-packet_of behind topic content old z small =
    let pad : 50 - length topic ≡ suc (49 - length topic) = omega arith in
    let e : packet_of topic content old
        ≡ topic ++ 0 ∷ (zeros (49 - length topic) ++ (data_of content ++ old)) =
      append_assoc topic (zeros (50 - length topic)) (data_of content ++ old)
      ∙ ap (λ k. topic ++ (zeros k ++ (data_of content ++ old))) pad in
    let copied =
      copy_text-until 50 topic (zeros (49 - length topic) ++ (data_of content ++ old)) z small in
    let other : (length topic == 50) ≡ false = ground arith in rw e (rw copied (rw other refl))

-- What stands at a place behind the topic.
byte_at :
    (topic : Bytes) (content : Content) (old : Bytes) (i : ℕ)
    → length topic < 50
    → get_or (packet_of topic content old) (50 + i) 0 ≡ get_or (data_of content ++ old) i 0
byte_at topic content old i small =
    get_or-behind (topic ++ zeros (50 - length topic)) (data_of content ++ old) 50 i 0
      (padded_length topic small)

integer_word :
    (n a b c d : ℕ)
    → n < 2 ^ 32
    → a ≡ n / 2 ^ 24 % 256
    → b ≡ n / 2 ^ 16 % 256
    → c ≡ n / 2 ^ 8 % 256
    → d ≡ n % 256
    → a * 2 ^ 24 + b * 2 ^ 16 + c * 2 ^ 8 + d ≡ n
integer_word n a b c d h ea eb ec ed = omega arith

integer_sign : (negative : Bool) → ((if negative then 1 else 0) == 1) ≡ negative
integer_sign true = refl
integer_sign false = refl

known_type :
    (content : Content) (old : Bytes)
    → ((get_or (data_of content ++ old) 0 0 == 0)
        || (get_or (data_of content ++ old) 0 0 == 1)
        || (get_or (data_of content ++ old) 0 0 == 2)
        || (get_or (data_of content ++ old) 0 0 == 3))
      ≡ true
known_type (integer negative n) old = refl
known_type (short_real n) old = refl
known_type (string words) old = refl

module _ (doubles : Doubles) where
  integer_decoded :
      (topic : Bytes) (negative : Bool) (n : ℕ) (old : Bytes)
      → length topic < 50
      → Fitting (integer negative n)
      → decode_payload doubles 0 (packet_of topic (integer negative n) old)
        ≡ some (codes "INT", signed_decimal negative n)
  integer_decoded topic negative n old small (bound, fit) =
      let buffer = packet_of topic (integer negative n) old in
      let at = λ (i : ℕ). byte_at topic (integer negative n) old i small in
      let word : word32_at buffer 52 ≡ n =
        integer_word n _ _ _ _ bound (at 2) (at 3) (at 4) (at 5) in
      let sign : (get_or buffer 51 0 == 1) ≡ negative =
        ap (λ b. b == 1) (at 1) ∙ integer_sign negative in
      int_payload doubles buffer (rw word bound) ∙ rw (sign, word) (rw fit refl)

  short_real_decoded :
      (topic : Bytes) (n : ℕ) (old : Bytes)
      → length topic < 50
      → n < 2 ^ 16
      → decode_payload doubles 1 (packet_of topic (short_real n) old)
        ≡ some (codes "SHORT_REAL", hundredths n)
  unfolding decode_payload power10
  short_real_decoded topic n old small bound =
      let buffer = packet_of topic (short_real n) old in
      let at = λ (i : ℕ). byte_at topic (short_real n) old i small in
      let word : word16_at buffer 51 ≡ n = omega (arith, at 1, at 2) in
      let few : length (decimal (n / 100)) ≤ 3 =
        omega (arith, decimal_loop-short 20 2 (n / 100) [] (ground arith) (omega arith)) in
      let fit : fits 20 (hundredths n) ≡ some (hundredths n) = fits-some 20 (hundredths n) (
        omega (
          arith,
          few,
          length-append (decimal (n / 100)) (b'.' ∷ (48 + n % 100 / 10) ∷ (48 + n % 10) ∷ []),
        )) in
      rw word (rw fit refl)

  string_decoded :
      (topic words old : Bytes)
      → length topic < 50
      → Fitting (string words)
      → decode_payload doubles 3 (packet_of topic (string words) old) ≡ some (codes "STRING", words)
  unfolding decode_payload
  string_decoded topic words old small (z, bound) =
      let behind : drop 51 (packet_of topic (string words) old) ≡ words ++ 0 ∷ old =
        drop-behind (topic ++ zeros (50 - length topic)) (data_of (string words) ++ old) 50 1
          (padded_length topic small)
        ∙ append_assoc words (0 ∷ []) old in
      rw behind (rw (c_string-append words old z) (rw (fits-some 1501 words bound) refl))

  payload_decoded :
      (topic : Bytes) (content : Content) (old : Bytes)
      → length topic < 50
      → Fitting content
      → decode_payload doubles
          (get_or (packet_of topic content old) 50 0)
          (packet_of topic content old)
        ≡ some (type_of content, printed content)
  payload_decoded topic (integer negative n) old small fit =
      rw (byte_at topic (integer negative n) old 0 small)
        (integer_decoded topic negative n old small fit)
  payload_decoded topic (short_real n) old small fit =
      rw (byte_at topic (short_real n) old 0 small) (short_real_decoded topic n old small fit)
  payload_decoded topic (string words) old small fit =
      rw (byte_at topic (string words) old 0 small) (string_decoded topic words old small fit)

  -- The packet of a topic of up to 49 bytes, none of them 0, and a content that fits where it is printed:
  -- whatever stands behind it in the buffer, it is valid, and it is read as the topic, the name of the
  -- type and the printed value.
  pub decode_udp_message-packet_of :
      (behind topic : Bytes) (content : Content) (old : Bytes)
      → NoZero topic
      → length topic < 50
      → Fitting content
      → (is_valid_udp_message (packet_of topic content old) ≡ true)
        × (decode_udp_message doubles behind (packet_of topic content old)
            ≡ some (record { topic = topic; type = type_of content; payload = printed content }))
  unfolding decode_udp_message is_valid_udp_message
  decode_udp_message-packet_of behind topic content old z small fit = (
    rw (byte_at topic content old 0 small) (known_type content old),
    rw (payload_decoded topic content old small fit)
        (rw (topic_of-packet_of behind topic content old z small) refl),
  )
