-- ===== src/Routing/Router/Learning.antt =====
-- The ARP table over a run of the router.
use communication_protocols.Base.{
  same_bytes-eq, ◌≡◌, refl, ◌∙◌, inl, inr, false, List, [], ◌∷◌, Bytes, All, All-append, arith,
  Bool-cases,
}
use mathlib.Core.Path.{subst}
use communication_protocols.Routing.Table.{ok}
use communication_protocols.Routing.Packet.{Memory, bytes_at}
use communication_protocols.Routing.Arp.{ArpEntry, arp_spa, found_entry, learn}
use communication_protocols.Routing.Router.{System, Router, Sent, Event, step, run}
use communication_protocols.Routing.Router.Flush.{Run-cases}
use communication_protocols.Routing.Router.Steps.{Keeps, step-Keeps}

abbrev HasIp : Bytes → ArpEntry → Type 0
HasIp ip e = e.ip ≡ ip

found_entry-HasIp :
    (spa : Bytes) (table : List ArpEntry) → found_entry spa table ≡ false → All (HasIp spa) table
unfolding found_entry
found_entry-HasIp spa [] h = tt
found_entry-HasIp spa (e ∷ es) h =
    (ground (arith, same_bytes-eq e.ip spa), found_entry-HasIp spa es (ground arith))

-- All the entries of the table are for one address.
abbrev pub OneIp : List ArpEntry → Type 0
OneIp table = (ip : Bytes) × All (HasIp ip) table

pub learn-OneIp : (mem : Memory) (table : List ArpEntry) → OneIp table → OneIp (learn mem table)
unfolding learn
learn-OneIp mem table (ip, all) =
    let spa = bytes_at mem arp_spa 4 in
    elim (Bool-cases (found_entry spa table)) [
      | inl b ↦ rw b (ip, all)
      | inr b ↦
          rw b (spa, All-append (HasIp spa) table _ (found_entry-HasIp spa table b) (refl, tt))
    ]

Keeps-OneIp : (r r' : Router) → Keeps r r' → OneIp r.arp_table → OneIp r'.arp_table
Keeps-OneIp r r' k one = elim k.arp [
  | inl e ↦ rw e one
  | inr (mem, e) ↦ rw e (learn-OneIp mem r.arp_table one)
]

run_cons :
    (s : System) (ev : Event) (evs : List Event) (r r' : Router) (out : List Sent)
    → run s r (ev ∷ evs) ≡ ok (r', out)
    → (r1 : Router) × (out1 : List Sent) × (out2 : List Sent) × (step s r ev ≡ ok (r1, out1))
      × (run s r1 evs ≡ ok (r', out2))
unfolding run
run_cons s ev evs r r' out h = elim (Run-cases (step s r ev)) [
  | inl e ↦ absurd (ground arith)
  | inr ((r1, out1), e) ↦ elim (Run-cases (run s r1 evs)) [
    | inl e' ↦ absurd (ground arith)
    | inr ((r2, out2), e') ↦
        let same : r2 ≡ r' = ground arith in
        (r1, out1, out2, e, subst (λ x. run s r1 evs ≡ ok (x, out2)) same e')
  ]
]

-- Whatever packets come, from a table that holds entries for one address at most (the empty table
-- at the start) only tables of that kind are reached, and the routing table never changes.
pub run-OneIp :
    (s : System) (evs : List Event) (r r' : Router) (out : List Sent)
    → OneIp r.arp_table
    → run s r evs ≡ ok (r', out)
    → OneIp r'.arp_table × (r'.rtable ≡ r.rtable) × (r'.rtable_size ≡ r.rtable_size)
unfolding run
run-OneIp s [] r r' out one h =
    let same : r ≡ r' = ground arith in
    subst (λ x. OneIp x.arp_table × (x.rtable ≡ r.rtable) × (x.rtable_size ≡ r.rtable_size)) same
      (one, refl, refl)
run-OneIp s (ev ∷ evs) r r' out one h =
    let (r1, out1, out2, e, e') = run_cons s ev evs r r' out h in
    let k = step-Keeps s r ev r1 out1 e in
    let (one', t, n) = run-OneIp s evs r1 r' out2 (Keeps-OneIp r r1 k one) e' in
    (one', t ∙ k.rtable, n ∙ k.rtable_size)
