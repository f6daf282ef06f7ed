-- ===== src/Messages/Server/Tests/Published.antt =====
-- A number of hundredths on the topic "ab".
use communication_protocols.Base.{◌≡◌, refl, some, [], ◌++◌, codes, decimal_loop, arith}
use communication_protocols.Messages.Datagram.Packets.{short_real, packet_of}
use communication_protocols.Messages.Datagram.Tests.{doubles}
use communication_protocols.Messages.Server.Handlers.{published}
use communication_protocols.Messages.Server.Published.{line_of, published-packet_of}

published-packet_of_example :
    published doubles (record {
      address = codes "10.0.0.1";
      port = 5000;
      buffer = packet_of (codes "ab") (short_real 261) (codes "old");
      behind = [];
    })
    ≡ some (
        some
          (codes "ab", line_of (codes "10.0.0.1") 5000 (codes "ab") (short_real 261) ++ codes "\n"))
published-packet_of_example =
    published-packet_of doubles (codes "10.0.0.1") [] (codes "ab") (codes "old") 5000
      (short_real 261) (ground arith) (omega arith) (omega arith)
      (unfold decimal_loop in omega arith)

printed_line :
    line_of (codes "10.0.0.1") 5000 (codes "ab") (short_real 261)
    ≡ codes "10.0.0.1:5000 - ab - SHORT_REAL - 2.61"
unfolding decimal_loop
printed_line = refl
