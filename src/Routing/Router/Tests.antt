-- ===== src/Routing/Router/Tests.antt =====
-- A router with two networks and one known neighbour, and the packets that it gets.
use communication_protocols.Base.{
  same_bytes, zero, suc, ◌+◌, ◌<◌, ◌≡◌, refl, some, [], ◌∷◌, Bytes, ◌==◌, ◌||◌, if◌then◌else◌,
  get_or,
}
use communication_protocols.Routing.Table.{
  Table, search_loop, binary_search, better, best_loop, get_best_route,
}
use communication_protocols.Routing.Checksum.{htons, ip_checksum}
use communication_protocols.Routing.Packet.{
  Packet, put, put_bytes, bytes_at, put16, get16, get32, bytes32, checksum_of, set_checksum,
}
use communication_protocols.Routing.Arp.{ArpEntry, arp_reply, find_mac, found_entry, learn}
use communication_protocols.Routing.Icmp.{set_check, echo_reply}
use communication_protocols.Routing.Router.{
  System, Router, flush_loop, refill_loop, on_arp_reply, on_arp, send_on, send_routed, forward,
  handle, first_ready, received, get_packet, Event, step,
}
use communication_protocols.Base.{All, arith, get_or-All, ◌⊎◌}
use communication_protocols.Routing.Checksum.Sum.{IsBytes}
use communication_protocols.Routing.Packet.{ttl}
use communication_protocols.Routing.Icmp.Checks.{IsBytes-set_check}
use communication_protocols.Routing.Router.Passed.{Passed, Dropped, forward-Passed}
use communication_protocols.Routing.Router.Ends.{state_of, out_of, Ends, Ends-ok}
use communication_protocols.Routing.Router.Steps.{Keeps, step-Keeps}
use communication_protocols.Routing.Router.Forwarding.{Forwarded, forward-Requests}
use communication_protocols.Routing.Router.Answers.{
  Returned, icmp-Returned, AnswersArp, arp_reply-AnswersArp,
}

abbrev system : System
system = record {
  interface_ip = λ i. 0x0100000a + i;
  hwaddr = λ i k. 16 + i;
  base = 0;
  in_front = λ k. 0;
}

-- 10.0.1.0 and 10.0.2.0, both behind 10.0.9.1
abbrev networks : Table
networks zero = record {
  prefix = 0x0001000a;
  next_hop = 0x0109000a;
  mask = 0xffffff;
  interface = 1;
}
networks (suc j) = record {
  prefix = 0x0002000a;
  next_hop = 0x0109000a;
  mask = 0xffffff;
  interface = 2;
}

abbrev neighbour : ArpEntry
neighbour = record { ip = 10 ∷ 0 ∷ 9 ∷ 1 ∷ []; mac = 1 ∷ 2 ∷ 3 ∷ 4 ∷ 5 ∷ 6 ∷ [] }

-- A packet for 10.0.2.5
abbrev frame : Bytes
frame =
    0 ∷ 0 ∷ 0 ∷ 0 ∷ 0 ∷ 1 ∷ 0 ∷ 0 ∷ 0 ∷ 0 ∷ 0 ∷ 2 ∷ 8 ∷ 0 ∷ 0x45 ∷ 0 ∷ 0 ∷ 84 ∷ 0 ∷ 0 ∷ 0 ∷ 0 ∷ 5
    ∷ 17 ∷ 0x57 ∷ 0x9b ∷ 10 ∷ 0 ∷ 7 ∷ 3 ∷ 10 ∷ 0 ∷ 2 ∷ 5 ∷ []

abbrev arrived : Packet
arrived = record { len = 98; payload = set_check 0 (λ k. get_or frame k 0); interface = 3 }

abbrev router : Router
router = record {
  rtable = networks;
  rtable_size = 2;
  arp_table = neighbour ∷ [];
  q = [];
  m = arrived;
}

forward-Ends : Ends (forward system router)
unfolding forward set_check set_checksum checksum_of ip_checksum put16 put get16 get32 send_routed
    send_on find_mac same_bytes bytes32 get_best_route binary_search search_loop best_loop better
    htons
forward-Ends = tt

forward-Requests_example :
    Forwarded system router
      (state_of router (forward system router))
      (out_of (forward system router))
forward-Requests_example =
    forward-Requests system router (state_of router (forward system router))
      (out_of (forward system router)) (Ends-ok router (forward system router) forward-Ends)

-- An ARP reply from the second neighbour, on the second of the interfaces that are ready.
abbrev reply_frame : Bytes
reply_frame =
    0 ∷ 0 ∷ 0 ∷ 0 ∷ 0 ∷ 1 ∷ 0 ∷ 0 ∷ 0 ∷ 0 ∷ 0 ∷ 2 ∷ 8 ∷ 6 ∷ 0 ∷ 1 ∷ 8 ∷ 0 ∷ 6 ∷ 4 ∷ 0 ∷ 2 ∷ 9 ∷ 9
    ∷ 9 ∷ 9 ∷ 9 ∷ 9 ∷ 10 ∷ 0 ∷ 9 ∷ 1 ∷ 0 ∷ 0 ∷ 0 ∷ 0 ∷ 0 ∷ 1 ∷ 10 ∷ 0 ∷ 0 ∷ 1 ∷ []

abbrev reply_comes : Event
reply_comes = record {
  ready = λ i. (i == 2) || (i == 3);
  input = λ i. if i == 2 then reply_frame else [];
}

step-Ends : Ends (step system router reply_comes)
unfolding step get_packet first_ready put_bytes put handle get16 htons on_arp on_arp_reply
    flush_loop refill_loop learn found_entry same_bytes bytes_at
step-Ends = tt

step-Keeps_example : Keeps router (state_of router (step system router reply_comes))
step-Keeps_example =
    step-Keeps system router reply_comes (state_of router (step system router reply_comes))
      (out_of (step system router reply_comes))
      (Ends-ok router (step system router reply_comes) step-Ends)

icmp-Returned_example : Returned arrived.payload (echo_reply 0 arrived).payload
icmp-Returned_example = (icmp-Returned 0 arrived).0.0

arp_reply-AnswersArp_example :
    AnswersArp
      (bytes_at (system.hwaddr 3) 0 6)
      arrived.payload
      (arp_reply (bytes_at (system.hwaddr 3) 0 6) arrived).payload
arp_reply-AnswersArp_example = arp_reply-AnswersArp (system.hwaddr 3) arrived

reply_received :
    get_packet reply_comes.ready reply_comes.input arrived
    ≡ some (received reply_comes.input arrived 2)
unfolding get_packet first_ready
reply_received = refl

frame-IsBytes : All (λ b. b < 256) frame
frame-IsBytes = ground arith

arrived-IsBytes : IsBytes arrived.payload
arrived-IsBytes =
    IsBytes-set_check 0 _ (λ k. get_or-All (λ b. b < 256) frame 0 frame-IsBytes (omega arith) k)

arrived_lives : 0 < arrived.payload ttl
unfolding set_check set_checksum put16 put
arrived_lives = omega arith

forward-Passed_example : Passed system router ⊎ Dropped system router
forward-Passed_example = forward-Passed system router arrived-IsBytes arrived_lives
