-- ===== src/Routing/Router/Forwarding.antt =====
-- What forwarding sends.
use communication_protocols.Base.{
  ℕ, ◌≡◌, refl, inl, inr, List, [], ◌∷◌, Bytes, some, none, Option, ◌==◌, sym, ap, ◌-◌, ◌≢◌, ◌++◌,
  arith, Bool-cases, Option-cases,
}
use mathlib.Core.Path.{subst}
use communication_protocols.Routing.Checksum.{htons}
use communication_protocols.Routing.Table.{Entry, Run, ok, fault, get_best_route}
use communication_protocols.Routing.Packet.{
  Memory, Packet, put, put_bytes, put16, get16, bytes_at, bytes32, ether_type, check, ether_dhost,
  ether_shost, ttl, daddr, get32, set_checksum,
}
use communication_protocols.Routing.Arp.{
  arp_spa, find_mac, arp_request, arp_hrd, arp_pro, arp_hln, arp_pln, arp_op, arp_sha, arp_tha,
  arp_tpa, broadcast,
}
use communication_protocols.Routing.Icmp.{set_check}
use communication_protocols.Routing.Router.{
  System, Router, current, Sent, sent, get_interface_mac, with_payload, Step, send_on, send_routed,
  forward,
}

-- A broadcast ARP request for the next hop of a route, from the interface of the route.
pub record IsRequest (s : System) (route : Entry) (p : Packet) : Type 0 where
  pub size : p.len ≡ 42
  pub kind : get16 p.payload ether_type ≡ htons 0x0806
  pub to_all : bytes_at p.payload ether_dhost 6 ≡ broadcast
  pub from : bytes_at p.payload ether_shost 6 ≡ get_interface_mac s route.interface
  pub hardware : get16 p.payload arp_hrd ≡ htons 1
  pub protocol : get16 p.payload arp_pro ≡ htons 0x0800
  pub hardware_size : p.payload arp_hln ≡ 6
  pub protocol_size : p.payload arp_pln ≡ 4
  pub op : get16 p.payload arp_op ≡ htons 1
  pub sender_mac : bytes_at p.payload arp_sha 6 ≡ get_interface_mac s route.interface
  pub sender_ip : bytes_at p.payload arp_spa 4 ≡ bytes32 (s.interface_ip route.interface)
  pub target_mac : bytes_at p.payload arp_tha 6 ≡ broadcast
  pub target_ip : bytes_at p.payload arp_tpa 4 ≡ bytes32 route.next_hop

arp_request-IsRequest :
    (s : System) (route : Entry) (m : Packet)
    → IsRequest s route (
        arp_request
          (get_interface_mac s route.interface)
          (s.interface_ip route.interface)
          route.next_hop
          m)
unfolding arp_request get_interface_mac get16 put16 put put_bytes bytes_at bytes32 htons
arp_request-IsRequest s route m = record {
  size = refl;
  kind = refl;
  to_all = refl;
  from = refl;
  hardware = refl;
  protocol = refl;
  hardware_size = refl;
  protocol_size = refl;
  op = refl;
  sender_mac = refl;
  sender_ip = refl;
  target_mac = refl;
  target_ip = refl;
}

-- The packet m with its time to live one less: its destination's hardware address is its source's now,
-- and in five of the six bytes of the destination's stands what is in front of the ARP table.
pub record IsBlind (s : System) (m p : Packet) : Type 0 where
  pub size : p.len ≡ m.len
  pub from : bytes_at p.payload ether_shost 6 ≡ bytes_at m.payload ether_dhost 6
  pub to : bytes_at p.payload ether_dhost 5 ≡ bytes_at s.in_front 0 5
  pub last : p.payload 5 ≡ m.payload 5
  pub lives : p.payload ttl ≡ m.payload ttl - 1
  pub destination : get32 p.payload daddr ≡ get32 m.payload daddr

-- What forwarding sends, from r to r', by what the ARP table has for the next hop of the route i.
pub data Forwarded (s : System) (r r' : Router) : List Sent → Type 0 where
  dropped :
      get16 (set_check s.base r.m.payload) check ≢ get16 r.m.payload check
      → r'.q ≡ r.q
      → Forwarded s r r' []
  asked :
      (i : ℕ) (mac : Bytes) (request : Packet)
      → get_best_route r.rtable_size (get32 r.m.payload daddr) r.rtable ≡ ok (some i)
      → find_mac (bytes32 (r.rtable i).next_hop) r.arp_table ≡ some mac
      → IsRequest s (r.rtable i) request
      → r'.q ≡ r.q ++ current ∷ []
      → Forwarded s r r' (sent r.m.interface request ∷ [])
  misdirected :
      (i : ℕ) (p : Packet)
      → get_best_route r.rtable_size (get32 r.m.payload daddr) r.rtable ≡ ok (some i)
      → find_mac (bytes32 (r.rtable i).next_hop) r.arp_table ≡ none
      → IsBlind s r.m p
      → r'.q ≡ r.q
      → Forwarded s r r' (sent (r.rtable i).interface p ∷ [])

ok_parts :
    (r r' : Router) (out out' : List Sent)
    → ◌≡◌ {A = Step} (ok (r, out)) (ok (r', out'))
    → (r ≡ r') × (out ≡ out')
ok_parts r r' out out' h = (ground arith, ground arith)

-- The payload that is forwarded.
abbrev passed_on : System → Router → Memory
passed_on s r =
    let mem = set_check s.base r.m.payload in set_check s.base (put ttl (mem ttl - 1) mem)

blind :
    (s : System) (r : Router)
    → IsBlind s r.m (record r.m {
      payload =
          put_bytes ether_dhost
            (bytes_at s.in_front 0 5)
            (put_bytes ether_shost (bytes_at (passed_on s r) ether_dhost 6) (passed_on s r));
    })
unfolding set_check set_checksum put16 put put_bytes bytes_at get32
blind s r = record {
  size = refl;
  from = refl;
  to = refl;
  last = refl;
  lives = refl;
  destination = refl;
}

send_on-Forwarded :
    (s : System) (r : Router) (i : ℕ) (r' : Router) (out : List Sent)
    → get_best_route r.rtable_size (get32 r.m.payload daddr) r.rtable ≡ ok (some i)
    → send_on s (with_payload r (passed_on s r)) i ≡ ok (r', out)
    → Forwarded s r r' out
unfolding send_on
send_on-Forwarded s r i r' out route h =
    let e = r.rtable i in
    elim (Option-cases (find_mac (bytes32 e.next_hop) r.arp_table)) [
      | inl missing ↦
          let (same, only) = ok_parts _ r' _ out (rw (missing, send_on) at h) in
          subst (Forwarded s r r') only
            (misdirected i _ route missing (blind s r) (ap (λ r. r.q) (sym same)))
      | inr (mac, known) ↦
          let (same, only) = ok_parts _ r' _ out (rw (known, send_on) at h) in
          subst (Forwarded s r r') only (
            asked i mac _ route known
              (arp_request-IsRequest s e (record r.m { payload = passed_on s r }))
              (ap (λ r. r.q) (sym same)))
    ]

send_routed-Forwarded :
    (s : System) (r : Router) (route : Run (Option ℕ)) (r' : Router) (out : List Sent)
    → get_best_route r.rtable_size (get32 r.m.payload daddr) r.rtable ≡ route
    → send_routed s (with_payload r (passed_on s r)) route ≡ ok (r', out)
    → Forwarded s r r' out
unfolding send_routed
send_routed-Forwarded s r fault r' out e h = absurd (ground arith)
send_routed-Forwarded s r (ok none) r' out e h = absurd (ground arith)
send_routed-Forwarded s r (ok (some i)) r' out e h = send_on-Forwarded s r i r' out e h

destination_kept : (s : System) (r : Router) → get32 (passed_on s r) daddr ≡ get32 r.m.payload daddr
unfolding set_check set_checksum put16 put get32
destination_kept s r = refl

-- Forwarding that does not fault ends in one of three ways. A packet whose checksum is not the one
-- computed anew is dropped. Where the ARP table has the next hop of the packet's route, the packet itself
-- is not sent but put in the queue, and one ARP request for the next hop, with all its fields, goes out
-- on the interface that the packet came from, not on that of the route. Where the table does not have
-- it, the packet goes out on the interface of the route, its source the hardware address that it came
-- to, and five bytes of its hardware destination are what stands in front of the ARP table.
pub forward-Requests :
    (s : System) (r r' : Router) (out : List Sent)
    → forward s r ≡ ok (r', out)
    → Forwarded s r r' out
unfolding forward
forward-Requests s r r' out h =
    elim (Bool-cases (get16 (set_check s.base r.m.payload) check == get16 r.m.payload check)) [
      | inl b ↦
          send_routed-Forwarded s r _ r' out
            (ap (λ d. get_best_route r.rtable_size d r.rtable) (sym (destination_kept s r)))
            (rw (b, forward) at h)
      | inr b ↦
          let (same, only) = ok_parts _ r' _ out (rw (b, forward) at h) in
          subst (Forwarded s r r') only (dropped (λ e. ground arith) (ap (λ r. r.q) (sym same)))
    ]
