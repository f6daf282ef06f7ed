-- ===== src/Messages/Server/Publishable.antt =====
-- The datagrams that server.cpp can publish.
use communication_protocols.Base.{
  ◌<◌, ◌≡◌, refl, false, true, ◌==◌, ◌&&◌, Option, some, none, ◌++◌, Bytes, codes, length,
  length-append, get_or, drop, ltb, c_string, decimal, fits, fits-some, arith,
}
use communication_protocols.Messages.Datagram.{
  Doubles, is_valid_udp_message, topic_of, signed_decimal, hundredths, word32_at, word16_at,
  decode_payload, decode_udp_message,
}
use communication_protocols.Messages.Server.Handlers.{Datagram, published}

module _ (doubles : Doubles) where
  -- The buffer has a payload of the type with this name, and its value is printed so, in less than the
  -- bytes that there are for it: 11 for an INT, 20, 40, and 1501 for a STRING.
  pub data Prints (buffer : Bytes) : Bytes → Bytes → Type 0 where
    int :
        get_or buffer 50 0 ≡ 0
        → length (signed_decimal (get_or buffer 51 0 == 1) (word32_at buffer 52)) < 11
        → Prints buffer
            (codes "INT")
            (signed_decimal (get_or buffer 51 0 == 1) (word32_at buffer 52))
    short_real :
        get_or buffer 50 0 ≡ 1
        → length (hundredths (word16_at buffer 51)) < 20
        → Prints buffer (codes "SHORT_REAL") (hundredths (word16_at buffer 51))
    real :
        (value : Bytes)
        → get_or buffer 50 0 ≡ 2
        → doubles.quotient_text
            (ltb 0 (get_or buffer 51 0) && ltb (get_or buffer 51 0) 128)
            (word32_at buffer 52)
            (get_or buffer 56 0)
          ≡ value
        → length value < 40
        → Prints buffer (codes "FLOAT") value
    string :
        (value : Bytes)
        → get_or buffer 50 0 ≡ 3
        → c_string (drop 51 buffer) ≡ some value
        → length value < 1501
        → Prints buffer (codes "STRING") value

  -- The text that is sent, without its line end.
  abbrev pub line_for : Datagram → Bytes → Bytes → Bytes
  line_for d type value =
      d.address
      ++ codes ":"
      ++ decimal d.port
      ++ codes " - "
      ++ topic_of d.behind d.buffer
      ++ codes " - "
      ++ type
      ++ codes " - "
      ++ value

  -- A datagram of another type, or one with a printed value and a text that leave room in the buffer.
  pub data Publishable (d : Datagram) : Type 0 where
    other : is_valid_udp_message d.buffer ≡ false → Publishable d
    prints :
        (type value : Bytes)
        → Prints d.buffer type value
        → length (line_for d type value) < 1551
        → Publishable d

  decoded :
      (behind buffer type value : Bytes)
      → Prints buffer type value
      → decode_udp_message doubles behind buffer
        ≡ some (record { topic = topic_of behind buffer; type = type; payload = value })
  unfolding decode_udp_message decode_payload
  decoded behind buffer _ _ (int kind small) = rw kind (rw (fits-some 11 _ small) refl)
  decoded behind buffer _ _ (short_real kind small) = rw kind (rw (fits-some 20 _ small) refl)
  decoded behind buffer _ _ (real value kind printed small) =
      rw kind (rw printed (rw (fits-some 40 value small) refl))
  decoded behind buffer _ _ (string value kind text small) =
      rw kind (rw text (rw (fits-some 1501 value small) refl))

  known :
      (buffer type value : Bytes) → Prints buffer type value → is_valid_udp_message buffer ≡ true
  unfolding is_valid_udp_message
  known buffer _ _ (int kind small) = rw kind refl
  known buffer _ _ (short_real kind small) = rw kind refl
  known buffer _ _ (real value kind printed small) = rw kind refl
  known buffer _ _ (string value kind text small) = rw kind refl

  pub published-some :
      (d : Datagram)
      → Publishable d
      → (publication : Option (Bytes × Bytes)) × (published doubles d ≡ some publication)
  unfolding published
  published-some d (other h) = (none, rw (h, published) refl)
  published-some d (prints type value p short) =
      let line = line_for d type value in
      let valid = known d.buffer type value p in
      let message = decoded d.behind d.buffer type value p in
      let first : fits 1552 line ≡ some line = fits-some 1552 line (omega (arith, short)) in
      let second : fits 1552 (line ++ codes "\n") ≡ some (line ++ codes "\n") =
        fits-some 1552 (line ++ codes "\n")
          (omega (arith, short, length-append line (codes "\n"))) in
      (
        some (topic_of d.behind d.buffer, line ++ codes "\n"),
        rw (valid, published)
            (rw (message, published) (rw (first, published) (rw (second, published) refl))),
      )
