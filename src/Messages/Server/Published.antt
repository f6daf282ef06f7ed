-- ===== src/Messages/Server/Published.antt =====
-- The text that server.cpp makes of the packet of a publisher.
use communication_protocols.Base.{
  ℕ, ◌<◌, ◌≡◌, refl, some, ◌++◌, Bytes, codes, length, length-append, NoZero, decimal, fits,
  fits-some, arith,
}
use communication_protocols.Messages.Datagram.{Doubles}
use communication_protocols.Messages.Datagram.Packets.{
  Content, packet_of, type_of, printed, Fitting, decode_udp_message-packet_of,
}
use communication_protocols.Messages.Server.Handlers.{published}

-- The address and the port, the topic, the type and the value.
abbrev pub line_of : Bytes → ℕ → Bytes → Content → Bytes
line_of address port topic content =
    address
    ++ codes ":"
    ++ decimal port
    ++ codes " - "
    ++ topic
    ++ codes " - "
    ++ type_of content
    ++ codes " - "
    ++ printed content

-- The packet of a topic of up to 49 bytes, none of them 0, and a number, a number of hundredths or a text
-- that fits where it is printed, whatever stands behind it in the buffer: if the line with the
-- sender, the topic, the name of the type and the printed value has less than 1551 bytes, then the
-- packet is valid and is published on its topic as this line and a line end.
pub published-packet_of :
    (doubles : Doubles) (address behind topic old : Bytes) (port : ℕ) (content : Content)
    → NoZero topic
    → length topic < 50
    → Fitting content
    → length (line_of address port topic content) < 1551
    → published doubles (record {
      address = address;
      port = port;
      buffer = packet_of topic content old;
      behind = behind;
    })
      ≡ some (some (topic, line_of address port topic content ++ codes "\n"))
unfolding published
published-packet_of doubles address behind topic old port content z small fit short =
    let (valid, decoded) =
      decode_udp_message-packet_of doubles behind topic content old z small fit in
    let line = line_of address port topic content in
    let first : fits 1552 line ≡ some line = fits-some 1552 line (omega (arith, short)) in
    let second : fits 1552 (line ++ codes "\n") ≡ some (line ++ codes "\n") =
      fits-some 1552 (line ++ codes "\n") (omega (arith, short, length-append line (codes "\n"))) in
    rw (valid, published)
      (rw (decoded, published) (rw (first, published) (rw (second, published) refl)))
