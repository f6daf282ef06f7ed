-- ===== src/Routing/Start/Tests.antt =====
-- A table of two lines, and one ARP reply after the start.
use communication_protocols.Base.{same_bytes, ℕ, ◌+◌, ◌≡◌, List, [], ◌∷◌, ◌==◌}
use communication_protocols.Routing.Table.{Entry, Table, Run}
use communication_protocols.Routing.Table.Sort.{Sorted}
use communication_protocols.Routing.Checksum.{htons}
use communication_protocols.Routing.Packet.{Packet, put, put_bytes, bytes_at, get16}
use communication_protocols.Routing.Arp.{found_entry, learn}
use communication_protocols.Routing.Router.{
  ◌>>=◌, System, Router, Step, flush_loop, refill_loop, on_arp_reply, on_arp, handle, first_ready,
  get_packet, Event, step, run,
}
use communication_protocols.Routing.Router.Ends.{state_of, out_of, Ends, Ends-ok}
use communication_protocols.Routing.Router.Learning.{OneIp}
use communication_protocols.Routing.Start.{Parser, start, read_rtable, read_loop, run-start}

-- Lines of four numbers, the last of which is read as it stands.
abbrev parser : Parser
parser = record {
  Line = Entry;
  Text = ℕ;
  prefix_of = λ line. line.prefix;
  next_hop_of = λ line. line.next_hop;
  mask_of = λ line. line.mask;
  interface_of = λ line. line.interface;
  inet_addr = λ t. t;
  atoi = λ t. t;
}

abbrev line : ℕ → Entry
line net = record { prefix = net; next_hop = 7; mask = 255; interface = 1 }

abbrev lines : List Entry
lines = line 20 ∷ line 10 ∷ []

abbrev blank : Table
blank j = line 0

abbrev nothing : Packet
nothing = record { len = 0; payload = λ k. 0; interface = 0 }

abbrev system : System
system = record {
  interface_ip = λ i. 0x0100000a + i;
  hwaddr = λ i k. 16 + i;
  base = 0;
  in_front = λ k. 0;
}

-- An ARP reply on the first interface.
abbrev reply_comes : Event
reply_comes = record {
  ready = λ i. i == 0;
  input = λ i.
      0 ∷ 0 ∷ 0 ∷ 0 ∷ 0 ∷ 1 ∷ 0 ∷ 0 ∷ 0 ∷ 0 ∷ 0 ∷ 2 ∷ 8 ∷ 6 ∷ 0 ∷ 1 ∷ 8 ∷ 0 ∷ 6 ∷ 4 ∷ 0 ∷ 2 ∷ 9 ∷ 9
      ∷ 9 ∷ 9 ∷ 9 ∷ 9 ∷ 10 ∷ 0 ∷ 9 ∷ 1 ∷ 0 ∷ 0 ∷ 0 ∷ 0 ∷ 0 ∷ 1 ∷ 10 ∷ 0 ∷ 0 ∷ 1 ∷ [];
}

abbrev first : Run Router
first = start parser lines blank nothing

-- A state for a run that faults.
abbrev unstarted : Router
unstarted = record { rtable = blank; rtable_size = 0; arp_table = []; q = []; m = nothing }

abbrev whole : Step
whole = do r ← first; run system r (reply_comes ∷ [])

whole-Ends : Ends whole
unfolding start read_rtable read_loop run step get_packet first_ready put_bytes put handle get16
    htons on_arp on_arp_reply flush_loop refill_loop learn found_entry same_bytes bytes_at
whole-Ends = tt

run-start_example :
    Sorted 0 (state_of unstarted whole).rtable_size (state_of unstarted whole).rtable
    × ((state_of unstarted whole).rtable_size ≡ 2)
    × OneIp (state_of unstarted whole).arp_table
run-start_example =
    run-start parser system lines blank nothing (reply_comes ∷ []) (state_of unstarted whole)
      (out_of whole) (Ends-ok unstarted whole whole-Ends)
