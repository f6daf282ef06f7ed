-- ===== src/Routing/Router/Steps.antt =====
-- What every round of the router keeps.
use communication_protocols.Base.{
  true, ℕ, ◌≡◌, refl, ◌⊎◌, inl, inr, List, [], ◌∷◌, ◌++◌, none, some, Option, ◌==◌, arith,
  Bool-cases, Option-cases,
}
use communication_protocols.Routing.Table.{Run, ok, fault, get_best_route}
use communication_protocols.Routing.Packet.{Packet, Memory, get16, get32, check, daddr}
use communication_protocols.Routing.Arp.{learn}
use communication_protocols.Routing.Icmp.{set_check}
use communication_protocols.Routing.Router.{
  System, Router, current, flush_loop, Sent, Event, has_place, on_arp_reply, on_arp, send_on,
  send_routed, forward, on_route, on_ip, handle, get_packet, step,
}
use communication_protocols.Routing.Router.Flush.{
  Run-cases, Post-ok, flush_loop-append, refill_loop-append,
}

-- From r to r': the routing table stands, the ARP table stands or learns from a packet, and the
-- queue stands or gets `&m` at its end.
pub record Keeps (r r' : Router) : Type 0 where
  pub rtable : r'.rtable ≡ r.rtable
  pub rtable_size : r'.rtable_size ≡ r.rtable_size
  pub arp : (r'.arp_table ≡ r.arp_table) ⊎ ((mem : Memory) × (r'.arp_table ≡ learn mem r.arp_table))
  pub queue : (r'.q ≡ r.q) ⊎ (r'.q ≡ r.q ++ current ∷ [])

Keeps-self : (r : Router) (p : Packet) → Keeps r (record r { m = p })
Keeps-self r p = record { rtable = refl; rtable_size = refl; arp = inl refl; queue = inl refl }

send_on-Keeps :
    (s : System) (r : Router) (i : ℕ) (r' : Router) (out : List Sent)
    → send_on s r i ≡ ok (r', out)
    → Keeps r r'
unfolding send_on
send_on-Keeps s r i r' out h = ground arith

abbrev learned : Router → Router
learned r = record r { arp_table = learn r.m.payload r.arp_table }

flushed-Keeps :
    (r r' : Router) (out : List Sent)
    → has_place r ≡ true
    → on_arp_reply r ≡ ok (r', out)
    → Keeps r r'
unfolding on_arp_reply
flushed-Keeps r r' out place h = elim (Run-cases (flush_loop (learned r) r.q [] r.m)) [
  | inl e ↦ absurd (ground arith)
  | inr (res, e) ↦
      let kept = Post-ok (λ o. o.0 ≡ r.q) _ res e (flush_loop-append (learned r) r.q [] r.m) in
      let back = refill_loop-append res.0 [] in
      record {
        rtable = ground arith;
        rtable_size = ground arith;
        arp = inr (r.m.payload, ground arith);
        queue = inl (ground arith);
      }
]

on_arp_reply-Keeps : (r r' : Router) (out : List Sent) → on_arp_reply r ≡ ok (r', out) → Keeps r r'
unfolding on_arp_reply
on_arp_reply-Keeps r r' out h = elim (Bool-cases (has_place r)) [
  | inr full ↦ absurd (ground (arith, rw (full, on_arp_reply) at h))
  | inl place ↦ flushed-Keeps r r' out place h
]

on_arp-Keeps :
    (s : System) (r r' : Router) (out : List Sent) → on_arp s r ≡ ok (r', out) → Keeps r r'
unfolding on_arp
on_arp-Keeps s r r' out h = ground (arith, on_arp_reply-Keeps r r' out)

send_routed-Keeps :
    (s : System) (r : Router) (route : Run (Option ℕ)) (r' : Router) (out : List Sent)
    → send_routed s r route ≡ ok (r', out)
    → Keeps r r'
unfolding send_routed
send_routed-Keeps s r fault r' out h = absurd (ground arith)
send_routed-Keeps s r (ok none) r' out h = absurd (ground arith)
send_routed-Keeps s r (ok (some i)) r' out h = send_on-Keeps s r i r' out h

-- A round that starts by changing `m` alone keeps the rest.
Keeps-m : (r r' : Router) (p : Packet) → Keeps (record r { m = p }) r' → Keeps r r'
Keeps-m r r' p k = record {
  rtable = k.rtable;
  rtable_size = k.rtable_size;
  arp = k.arp;
  queue = k.queue;
}

forward-Keeps :
    (s : System) (r r' : Router) (out : List Sent) → forward s r ≡ ok (r', out) → Keeps r r'
unfolding forward
forward-Keeps s r r' out h =
    elim (Bool-cases (get16 (set_check s.base r.m.payload) check == get16 r.m.payload check)) [
      | inl b ↦ Keeps-m r r' _ (send_routed-Keeps s _ _ r' out (rw (b, forward) at h))
      | inr b ↦ ground arith
    ]

on_route-Keeps :
    (s : System) (r : Router) (route : Run (Option ℕ)) (r' : Router) (out : List Sent)
    → on_route s r route ≡ ok (r', out)
    → Keeps r r'
unfolding on_route
on_route-Keeps s r fault r' out h = absurd (ground arith)
on_route-Keeps s r (ok none) r' out h = ground arith
on_route-Keeps s r (ok (some i)) r' out h = ground (arith, forward-Keeps s r r' out)

on_ip-Keeps : (s : System) (r r' : Router) (out : List Sent) → on_ip s r ≡ ok (r', out) → Keeps r r'
unfolding on_ip
on_ip-Keeps s r r' out h = ground (
  arith,
  on_route-Keeps s r (get_best_route r.rtable_size (get32 r.m.payload daddr) r.rtable) r' out,
)

handle-Keeps :
    (s : System) (r r' : Router) (out : List Sent) → handle s r ≡ ok (r', out) → Keeps r r'
unfolding handle
handle-Keeps s r r' out h = ground (arith, on_ip-Keeps s r r' out, on_arp-Keeps s r r' out)

-- A round that does not fault keeps the routing table; the ARP table stays as it was or learns from
-- one packet; and the queue stays as it was or gets one more entry at its end, so nothing is ever
-- taken out of it for good.
pub step-Keeps :
    (s : System) (r : Router) (ev : Event) (r' : Router) (out : List Sent)
    → step s r ev ≡ ok (r', out)
    → Keeps r r'
unfolding step
step-Keeps s r ev r' out h = elim (Option-cases (get_packet ev.ready ev.input r.m)) [
  | inl e ↦ ground arith
  | inr (m', e) ↦ Keeps-m r r' m' (handle-Keeps s _ r' out (rw (e, step) at h))
]
