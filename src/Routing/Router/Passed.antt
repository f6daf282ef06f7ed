-- ===== src/Routing/Router/Passed.antt =====
-- Which packets `forward` passes on, and with which header.
use communication_protocols.Base.{
  ℕ, ◌+◌, ◌-◌, ◌*◌, ◌/◌, ◌%◌, ◌<◌, ◌≡◌, ◌≢◌, refl, ap, ◌∙◌, ◌⊎◌, inl, inr, true, [], ◌==◌,
  Bool-cases, ==_iff, arith,
}
use mathlib.Core.Path.{subst}
use communication_protocols.Routing.Checksum.{htons}
use communication_protocols.Routing.Checksum.Sum.{IsBytes}
use communication_protocols.Routing.Checksum.Fold.{folded, ip_checksum_lem}
use communication_protocols.Routing.Table.{ok, get_best_route}
use communication_protocols.Routing.Packet.{
  Memory, put, put16, get16, get32, checksum_of, set_checksum, ether_size, ip_size, ttl, check,
  daddr,
}
use communication_protocols.Routing.Packet.Valid.{
  words, Verifies, IsBytes-put, IsBytes-put16, words-put16, put_self, put_other,
}
use communication_protocols.Routing.Icmp.{set_check}
use communication_protocols.Routing.Icmp.Checks.{set_check-Verifies, IsBytes-set_check}
use communication_protocols.Routing.Router.{System, Router, with_payload, send_routed, forward}

-- The check field of a header, in network order.
abbrev field : Memory → ℕ
field mem = mem check * 256 + mem (check + 1)

-- A sum that a field makes verify has this field as its complement, if the field is not all ones.
complement : (s x : ℕ) → x < 65535 → folded (s + x) ≡ 65535 → x ≡ 65535 - folded s
unfolding folded
complement s x small h = ground arith

set_check_bytes :
    (base : ℕ) (mem : Memory)
    → IsBytes mem
    → (x : ℕ) × (x ≡ 65535 - folded (words (put16 check 0 mem) ether_size ip_size))
      × (set_check base mem check ≡ htons x % 256)
      × (set_check base mem (check + 1) ≡ htons x / 256 % 256)
      × ((j : ℕ) → j ≢ check → j ≢ check + 1 → set_check base mem j ≡ mem j)
unfolding set_check set_checksum checksum_of put16 put words
set_check_bytes base mem small =
    let cleared = put16 check 0 mem in
    let value =
      ip_checksum_lem (base + ether_size) ip_size (λ k. cleared (ether_size + k))
        (λ k. IsBytes-put16 check 0 mem small (ether_size + k)) (omega arith) in
    (
      65535 - folded (words cleared ether_size ip_size),
      refl,
      ground arith,
      ground arith,
      (λ j n n'. ground arith),
    )

-- Setting the checksum leaves a header that is not all ones in its field alone exactly if it verifies.
same_bytes_there :
    (base : ℕ) (mem : Memory)
    → IsBytes mem
    → get16 (set_check base mem) check ≡ get16 mem check
    → (j : ℕ) → set_check base mem j ≡ mem j
unfolding get16
same_bytes_there base mem small e j =
    let (x, _, low, high, rest) = set_check_bytes base mem small in
    let b0 = small check in
    let b1 = small (check + 1) in
    elim (Bool-cases (j == check)) [
      | inl here ↦ let at : j ≡ check = ground arith in rw at (omega (arith, low, high, e, b0, b1))
      | inr other ↦ elim (Bool-cases (j == check + 1)) [
        | inl here ↦
            let at : j ≡ check + 1 = ground arith in rw at (omega (arith, low, high, e, b0, b1))
        | inr other' ↦ rest j (ground arith) (ground arith)
      ]
    ]

same-Verifies :
    (base : ℕ) (mem : Memory)
    → IsBytes mem
    → get16 (set_check base mem) check ≡ get16 mem check
    → Verifies mem ether_size ip_size
same-Verifies base mem small e =
    let same = same_bytes_there base mem small e in
    let whole : set_check base mem ≡ mem = λ i j. same j i in
    subst (λ m. Verifies m ether_size ip_size) whole (set_check-Verifies base mem small)

Verifies-same :
    (base : ℕ) (mem : Memory)
    → IsBytes mem
    → Verifies mem ether_size ip_size
    → get16 mem check ≢ 65535
    → get16 (set_check base mem) check ≡ get16 mem check
unfolding get16 htons
Verifies-same base mem small v ones =
    let (x, value, low, high, rest) = set_check_bytes base mem small in
    let b0 = small check in
    let b1 = small (check + 1) in
    let sum : words (put16 check 0 mem) ether_size ip_size + field mem
        ≡ words mem ether_size ip_size =
      omega (arith, words-put16 ether_size ip_size 10 0 mem (omega arith) (omega arith)) in
    let is : field mem ≡ 65535 - folded (words (put16 check 0 mem) ether_size ip_size) =
      complement (words (put16 check 0 mem) ether_size ip_size) (field mem) (ground arith)
        (ap folded sum ∙ v) in
    omega (arith, low, high, value, is, b0, b1)

-- The header verifies; its time to live is one less and its checksum anew, the rest of the payload is
-- as it was, and the packet goes to the route of its destination.
pub record Passed (s : System) (r : Router) : Type 0 where
  pub payload : Memory
  pub verified : Verifies r.m.payload ether_size ip_size
  pub verifies : Verifies payload ether_size ip_size
  pub lives : payload ttl + 1 ≡ r.m.payload ttl
  pub others : (j : ℕ) → j ≢ ttl → j ≢ check → j ≢ check + 1 → payload j ≡ r.m.payload j
  pub result :
      forward s r
      ≡ send_routed s
          (with_payload r payload)
          (get_best_route r.rtable_size (get32 r.m.payload daddr) r.rtable)

-- Nothing is sent, and only the checksum is set; the header does not verify, or its checksum is all
-- ones.
pub record Dropped (s : System) (r : Router) : Type 0 where
  pub wrong : Verifies r.m.payload ether_size ip_size → get16 r.m.payload check ≡ 65535
  pub result : forward s r ≡ ok (with_payload r (set_check s.base r.m.payload), [])

forwarded :
    (s : System) (r : Router) (dest : ℕ)
    → get16 (set_check s.base r.m.payload) check ≡ get16 r.m.payload check
    → get32
        (set_check s.base
          (put ttl (set_check s.base r.m.payload ttl - 1) (set_check s.base r.m.payload)))
        daddr
      ≡ dest
    → forward s r
      ≡ send_routed s
          (with_payload r (
            set_check s.base
              (put ttl (set_check s.base r.m.payload ttl - 1) (set_check s.base r.m.payload))))
          (get_best_route r.rtable_size dest r.rtable)
unfolding forward
forwarded s r dest e to =
    let same : (get16 (set_check s.base r.m.payload) check == get16 r.m.payload check) ≡ true =
      (==_iff _ _).1 e in
    rw (same, forward) (rw to refl)

passed :
    (s : System) (r : Router)
    → IsBytes r.m.payload
    → 0 < r.m.payload ttl
    → get16 (set_check s.base r.m.payload) check ≡ get16 r.m.payload check
    → Passed s r
unfolding get32
passed s r small lives e =
    let mem = r.m.payload in
    let mem1 = set_check s.base mem in
    let same = same_bytes_there s.base mem small e in
    let mem2 = put ttl (mem1 ttl - 1) mem1 in
    let small1 = IsBytes-set_check s.base mem small in
    let low : mem1 ttl - 1 < 256 = omega (arith, small1 ttl) in
    let small2 = IsBytes-put ttl (mem1 ttl - 1) mem1 low small1 in
    let (x, _, _, _, rest) = set_check_bytes s.base mem2 small2 in
    let others : (j : ℕ) → j ≢ ttl → j ≢ check → j ≢ check + 1 → set_check s.base mem2 j ≡ mem j =
      (λ j n n' n''. rest j n' n'' ∙ put_other ttl j (mem1 ttl - 1) mem1 n ∙ same j) in
    let d : (k : ℕ) → k < 4 → set_check s.base mem2 (daddr + k) ≡ mem (daddr + k) =
      (λ k lt. others (daddr + k) (λ h. omega arith) (λ h. omega arith) (λ h. omega arith)) in
    let to : get32 (set_check s.base mem2) daddr ≡ get32 mem daddr =
      omega (arith, d 0 (omega arith), d 1 (omega arith), d 2 (omega arith), d 3 (omega arith)) in
    record {
      payload = set_check s.base mem2;
      verified = same-Verifies s.base mem small e;
      verifies = set_check-Verifies s.base mem2 small2;
      lives = omega (
        arith,
        lives,
        rest ttl (λ h. omega arith) (λ h. omega arith),
        put_self ttl (mem1 ttl - 1) mem1,
        same ttl,
      );
      others = others;
      result = forwarded s r (get32 mem daddr) e to;
    }

-- For a packet of bytes with a time to live of at least 1, `forward` either passes it on, and then its
-- header verifies, or drops it, and then the header does not verify or has a checksum of all ones. A
-- packet that is passed on has a time to live that is one less and a header that verifies again, is
-- otherwise as it came, and goes to the route that the lookup gives for its destination.
pub forward-Passed :
    (s : System) (r : Router) → IsBytes r.m.payload → 0 < r.m.payload ttl → Passed s r ⊎ Dropped s r
forward-Passed s r small lives =
    let mem = r.m.payload in
    elim (Bool-cases (get16 (set_check s.base mem) check == get16 mem check)) [
      | inl b ↦ inl (passed s r small lives ((==_iff _ _).0 b))
      | inr b ↦ inr (record {
        wrong = (λ v. elim (Bool-cases (get16 mem check == 65535)) [
          | inl ones ↦ (==_iff _ _).0 ones
          | inr other ↦
              let same = Verifies-same s.base mem small v (λ h. ground arith) in
              absurd (ground arith)
        ]);
        result = unfold forward in rw (b, forward) refl;
      })
    ]
