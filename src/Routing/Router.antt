-- ===== src/Routing/Router.antt =====
-- The event loop of `main` in Packet-Routing-IP-Eth/router.c, with `get_packet` of skel.c. The queue
-- is the list that queue.c implements; what is put in it is `&m`, the address of the one packet that
-- every call of `get_packet` overwrites. What the system tells of an interface is a parameter.
pub mod Flush
pub mod Steps
pub mod Learning
pub mod Forwarding
pub mod Answers
pub mod Ends
pub mod Passed
mod Tests
use communication_protocols.Base.{
  ℕ, zero, suc, ◌+◌, ◌-◌, Bool, true, false, ◌&&◌, ◌||◌, ltb, Option, none, some, List, [], ◌∷◌,
  ◌++◌, Bytes, length, leb, ◌==◌, if◌then◌else◌,
}
use communication_protocols.Routing.Checksum.{htons}
use communication_protocols.Routing.Table.{Table, Run, ok, fault, get_best_route}
use communication_protocols.Routing.Packet.{
  Memory, Packet, put, put_bytes, bytes_at, get16, get32, bytes32, ether_dhost, ether_shost,
  ether_type, ttl, protocol, check, daddr, icmp_type,
}
use communication_protocols.Routing.Icmp.{set_check, echo_reply, unreachable, time_exceeded}
use communication_protocols.Routing.Arp.{
  ArpEntry, arp_op, arp_tpa, arp_reply, arp_request, find_mac, found_entry, arp_spa, learn,
}

-- What the system provides: `inet_addr(get_interface_ip(i))`, the bytes of `sa_data` that
-- `SIOCGIFHWADDR` fills in, the address at which the payload of `m` stands, and the bytes that stand
-- where `arp_table[-1].mac` would, in front of what `malloc` gives for the table.
pub record System : Type 0 where
  pub interface_ip : ℕ → ℕ
  pub hwaddr : ℕ → ℕ → ℕ
  pub base : ℕ
  pub in_front : ℕ → ℕ

-- `get_interface_mac`: six bytes are copied.
unfoldable pub get_interface_mac : System → ℕ → Bytes
get_interface_mac s i = bytes_at (s.hwaddr i) 0 6

-- `&m`, the only address that is put in the queue.
pub data Ref : Type 0 where
  current : Ref

pub record Router : Type 0 where
  pub rtable : Table
  pub rtable_size : ℕ
  pub arp_table : List ArpEntry
  pub q : List Ref
  pub m : Packet

-- `send_packet`: the interface, and the packet whose first `len` bytes go out.
pub record Sent : Type 0 where
  pub out : ℕ
  pub packet : Packet

abbrev pub sent : ℕ → Packet → Sent
sent i p = record { out = i; packet = p }

infixl 5 ◌>>=◌
abbrev pub ◌>>=◌ : {A B : Type 0} → Run A → (A → Run B) → Run B
ok a >>= f = f a
fault >>= f = fault

-- `rtable[index]` at the result of `get_best_route`, which may be -1.
abbrev pub entry_at : Option ℕ → Run ℕ
entry_at none = fault
entry_at (some index) = ok index

-- The loop over the ARP table for one packet of the queue: each entry for the next hop rewrites the
-- destination and sends the packet.
unfoldable pub flush_entries : Router → Option ℕ → List ArpEntry → Packet → Run (Packet × List Sent)
flush_entries r index [] p = ok (p, [])
flush_entries r index (e ∷ es) p = do
  i ← entry_at index
  let hop = bytes32 (r.rtable i).next_hop
  let p' = record p { payload = put_bytes ether_dhost e.mac p.payload }
  elim (find_mac hop (e ∷ [])) [
    | none ↦ flush_entries r index es p
    | some mac ↦ do (p'', out) ← flush_entries r index es p'; ok (p'', sent p'.interface p' ∷ out)
  ]

-- `while (queue_empty(q) != 1)`: the packets are taken from the queue and put in `q_aux`.
unfoldable pub flush_loop :
    Router → List Ref → List Ref → Packet → Run (List Ref × Packet × List Sent)
unfolding flush_entries
flush_loop r [] q_aux p = ok (q_aux, p, [])
flush_loop r (current ∷ q) q_aux p = do
  index ← get_best_route r.rtable_size (get32 p.payload daddr) r.rtable
  (p', out) ← flush_entries r index r.arp_table p
  (q_aux', p'', out') ← flush_loop r q (q_aux ++ current ∷ []) p'
  ok (q_aux', p'', out ++ out')

-- `while (queue_empty(q_aux) != 1)`: back to the queue.
unfoldable pub refill_loop : List Ref → List Ref → List Ref
refill_loop [] q = q
refill_loop (pkt ∷ q_aux) q = refill_loop q_aux (q ++ pkt ∷ [])

-- A step of the loop: the new state and what was sent, in order.
abbrev pub Step : Type 0
Step = Run (Router × List Sent)

-- A reply that is to be learned has a place among the 100000 entries of the table.
abbrev pub has_place : Router → Bool
has_place r =
    found_entry (bytes_at r.m.payload arp_spa 4) r.arp_table || ltb (length r.arp_table) 100000

unfoldable pub on_arp_reply : Router → Step
unfolding flush_loop refill_loop
on_arp_reply r = elim (has_place r) [
  | false ↦ fault
  | true ↦ do
    let r' = record r { arp_table = learn r.m.payload r.arp_table }
    (q_aux, p, out) ← flush_loop r' r'.q [] r'.m
    ok (record r' { q = refill_loop q_aux []; m = p }, out)
]

unfoldable pub on_arp : System → Router → Step
on_arp s r =
    let op = get16 r.m.payload arp_op in
    let i = r.m.interface in
    if op == htons 1
    then if get32 r.m.payload arp_tpa == s.interface_ip i
      then (let m' = arp_reply (get_interface_mac s i) r.m in
          ok (record r { m = m' }, sent i m' ∷ []))
      else ok (r, [])
    else if op == htons 2
    then on_arp_reply r
    else ok (r, [])

-- The next hop's hardware address is looked up. Where it is missing, five bytes of
-- `arp_table[-1].mac` are copied and the packet goes out on the interface of the route. Where it is there, `&m` is queued and a request goes out on the interface that m came from.
unfoldable pub send_on : System → Router → ℕ → Step
send_on s r index =
    let e = r.rtable index in
    elim (find_mac (bytes32 e.next_hop) r.arp_table) [
      | none ↦
          let mem = put_bytes ether_shost (bytes_at r.m.payload ether_dhost 6) r.m.payload in
          let m' = record r.m { payload = put_bytes ether_dhost (bytes_at s.in_front 0 5) mem } in
          ok (record r { m = m' }, sent e.interface m' ∷ [])
      | some mac ↦
          let request =
            arp_request (get_interface_mac s e.interface) (s.interface_ip e.interface) e.next_hop
              r.m in
          ok (record r { q = r.q ++ current ∷ [] }, sent r.m.interface request ∷ [])
    ]

-- `rtable[index]` at the result of the lookup.
unfoldable pub send_routed : System → Router → Run (Option ℕ) → Step
send_routed s r route = route >>= (λ index. entry_at index) >>= (λ index. send_on s r index)

abbrev pub with_payload : Router → Memory → Router
with_payload r mem = record r { m = record r.m { payload = mem } }

-- `check12`: a packet whose checksum does not verify is dropped.
unfoldable pub forward : System → Router → Step
forward s r =
    let check12 = get16 r.m.payload check in
    let mem = set_check s.base r.m.payload in
    if get16 mem check == check12
    then (let mem' = set_check s.base (put ttl (mem ttl - 1) mem) in
        send_routed s (with_payload r mem')
          (get_best_route r.rtable_size (get32 mem' daddr) r.rtable))
    else ok (with_payload r mem, [])

abbrev pub answer : Router → Packet → Step
answer r m' = ok (record r { m = m' }, sent m'.interface m' ∷ [])

-- What is done with a packet that is no echo request for the router, by the lookup's result.
unfoldable pub on_route : System → Router → Run (Option ℕ) → Step
on_route s r fault = fault
on_route s r (ok none) = answer r (unreachable s.base r.m)
on_route s r (ok (some index)) =
    if leb (r.m.payload ttl) 1 then answer r (time_exceeded s.base r.m) else forward s r

unfoldable pub on_ip : System → Router → Step
on_ip s r =
    let mem = r.m.payload in
    if (mem protocol == 1)
      && ((mem icmp_type == 8) && (get32 mem daddr == s.interface_ip r.m.interface))
    then answer r (echo_reply s.base r.m)
    else on_route s r (get_best_route r.rtable_size (get32 mem daddr) r.rtable)

-- The body of `while (1)` behind `get_packet`.
unfoldable pub handle : System → Router → Step
handle s r =
    let kind = get16 r.m.payload ether_type in
    if kind == htons 0x0800
    then on_ip s r
    else if kind == htons 0x0806
    then on_arp s r
    else ok (r, [])

-- The first interface that `select` marks.
unfoldable pub first_ready : ℕ → ℕ → (ℕ → Bool) → Option ℕ
first_ready zero i ready = none
first_ready (suc left) i ready = elim (ready i) [
  | true ↦ some i
  | false ↦ first_ready left (i + 1) ready
]

-- `socket_receive_message`: what is read goes to the front of the payload, and the rest stays.
abbrev pub received : (ℕ → Bytes) → Packet → ℕ → Packet
received input m i = record m {
  len = length (input i);
  payload = put_bytes 0 (input i) m.payload;
  interface = i;
}

-- `get_packet` with what one `select` gives.
unfoldable pub get_packet : (ℕ → Bool) → (ℕ → Bytes) → Packet → Option Packet
get_packet ready input m = elim (first_ready 4 0 ready) [
  | none ↦ none
  | some i ↦ some (received input m i)
]

-- What one round finds: the interfaces that are ready, and the bytes that a read of each would give.
pub record Event : Type 0 where
  pub ready : ℕ → Bool
  pub input : ℕ → Bytes

-- One round of `while (1)`; a `select` that marks no interface is called again.
unfoldable pub step : System → Router → Event → Step
step s r ev = elim (get_packet ev.ready ev.input r.m) [
  | none ↦ ok (r, [])
  | some m' ↦ handle s (record r { m = m' })
]

-- The rounds of a list of events, and all that they send.
unfoldable pub run : System → Router → List Event → Step
run s r [] = ok (r, [])
run s r (ev ∷ evs) = do (r', out) ← step s r ev; (r'', out') ← run s r' evs; ok (r'', out ++ out')
