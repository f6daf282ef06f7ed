-- ===== src/Routing/Icmp/Tests.antt =====
-- The answers to one packet.
use communication_protocols.Base.{◌%◌, arith}
use communication_protocols.Routing.Checksum.Sum.{IsBytes}
use communication_protocols.Routing.Packet.{Packet}
use communication_protocols.Routing.Icmp.{echo_reply, unreachable, time_exceeded}
use communication_protocols.Routing.Icmp.Checks.{BothVerify, answers-BothVerify}

abbrev counting : Packet
counting = record { len = 98; payload = λ k. k % 256; interface = 2 }

counting-IsBytes : IsBytes counting.payload
counting-IsBytes k = omega arith

answers-BothVerify_example :
    BothVerify (echo_reply 0 counting).payload
    × BothVerify (unreachable 0 counting).payload
    × BothVerify (time_exceeded 0 counting).payload
answers-BothVerify_example = answers-BothVerify 0 counting counting-IsBytes
