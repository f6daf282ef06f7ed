-- ===== src/Routing/Router/Answers.antt =====
-- What `get_packet` of skel.c receives, and what the answers of the router say.
use communication_protocols.Base.{
  ℕ, zero, suc, ◌+◌, ◌≤◌, ◌<◌, ◌≡◌, refl, ◌⊎◌, inl, inr, ap, ◌∙◌, Bool, true, false, some, [], ◌∷◌,
  Bytes, length, arith, ◌==◌, ==_iff, Bool-cases, Option-cases,
}
use mathlib.Core.Path.{subst}
use communication_protocols.Routing.Checksum.{htons}
use communication_protocols.Routing.Packet.{
  Memory, Packet, put, put_bytes, bytes_at, put16, get16, set_checksum, ether_dhost, ether_shost,
  ether_type, saddr, daddr, icmp_type, ttl,
}
use communication_protocols.Routing.Icmp.{
  swap_macs, swap_ips, set_check, set_icmp_checksum, echo_reply, unreachable, time_exceeded,
}
use communication_protocols.Routing.Arp.{arp_op, arp_sha, arp_spa, arp_tha, arp_tpa, arp_reply}
use communication_protocols.Routing.Router.{first_ready, received, get_packet}

-- The Ethernet and IP addresses of the answer are those of the packet, exchanged.
pub record Returned (mem mem' : Memory) : Type 0 where
  pub dhost : bytes_at mem' ether_dhost 6 ≡ bytes_at mem ether_shost 6
  pub shost : bytes_at mem' ether_shost 6 ≡ bytes_at mem ether_dhost 6
  pub dst : bytes_at mem' daddr 4 ≡ bytes_at mem saddr 4
  pub src : bytes_at mem' saddr 4 ≡ bytes_at mem daddr 4
  pub kind : get16 mem' ether_type ≡ get16 mem ether_type

-- Each ICMP answer goes back to the sender, with its own ICMP type and a time to live of 64, on the
-- interface that the packet came from.
pub icmp-Returned :
    (base : ℕ) (m : Packet)
    → (Returned m.payload (echo_reply base m).payload
        × ((echo_reply base m).payload icmp_type ≡ 0)
        × ((echo_reply base m).payload ttl ≡ 64)
        × ((echo_reply base m).interface ≡ m.interface)
        × ((echo_reply base m).len ≡ m.len))
      × (Returned m.payload (unreachable base m).payload
          × ((unreachable base m).payload icmp_type ≡ 3)
          × ((unreachable base m).payload ttl ≡ 64)
          × ((unreachable base m).interface ≡ m.interface)
          × ((unreachable base m).len ≡ 42))
      × (Returned m.payload (time_exceeded base m).payload
          × ((time_exceeded base m).payload icmp_type ≡ 11)
          × ((time_exceeded base m).payload ttl ≡ 64)
          × ((time_exceeded base m).interface ≡ m.interface)
          × ((time_exceeded base m).len ≡ 42))
unfolding echo_reply unreachable time_exceeded set_check set_icmp_checksum set_checksum swap_macs
    swap_ips put_bytes put16 put bytes_at get16
icmp-Returned base m = (
  (
    record { dhost = refl; shost = refl; dst = refl; src = refl; kind = refl },
    refl,
    refl,
    refl,
    refl,
  ),
  (
    record { dhost = refl; shost = refl; dst = refl; src = refl; kind = refl },
    refl,
    refl,
    refl,
    refl,
  ),
  (
    record { dhost = refl; shost = refl; dst = refl; src = refl; kind = refl },
    refl,
    refl,
    refl,
    refl,
  ),
)

-- The answer to an ARP request gives the hardware address asked for to the one who asked.
pub record AnswersArp (mac : Bytes) (mem mem' : Memory) : Type 0 where
  pub dhost : bytes_at mem' ether_dhost 6 ≡ bytes_at mem ether_shost 6
  pub shost : bytes_at mem' ether_shost 6 ≡ mac
  pub op : get16 mem' arp_op ≡ htons 2
  pub sha : bytes_at mem' arp_sha 6 ≡ mac
  pub spa : bytes_at mem' arp_spa 4 ≡ bytes_at mem arp_tpa 4
  pub tha : bytes_at mem' arp_tha 6 ≡ bytes_at mem arp_sha 6
  pub tpa : bytes_at mem' arp_tpa 4 ≡ bytes_at mem arp_spa 4

-- For any request and any six bytes of the interface's address: see `AnswersArp`.
pub arp_reply-AnswersArp :
    (hwaddr : ℕ → ℕ) (m : Packet)
    → AnswersArp (bytes_at hwaddr 0 6) m.payload (arp_reply (bytes_at hwaddr 0 6) m).payload
unfolding arp_reply put_bytes put16 put bytes_at get16 htons
arp_reply-AnswersArp hwaddr m = record {
  dhost = refl;
  shost = refl;
  op = refl;
  sha = refl;
  spa = refl;
  tha = refl;
  tpa = refl;
}

put_bytes_out :
    (p j : ℕ) (bs : Bytes) (mem : Memory)
    → (j < p) ⊎ (p + length bs ≤ j)
    → put_bytes p bs mem j ≡ mem j
unfolding put_bytes put
put_bytes_out p j [] mem h = refl
put_bytes_out p j (b ∷ bs) mem h = ground (arith, put_bytes_out (p + 1) j bs (put p b mem))

bytes_at-put_bytes :
    (p : ℕ) (bs : Bytes) (mem : Memory) → bytes_at (put_bytes p bs mem) p (length bs) ≡ bs
unfolding bytes_at put_bytes put
bytes_at-put_bytes p [] mem = refl
bytes_at-put_bytes p (b ∷ bs) mem =
    ground
      (arith, bytes_at-put_bytes (p + 1) bs (put p b mem), put_bytes_out (p + 1) p bs (put p b mem))

-- k is the first interface from i on that is ready.
abbrev pub IsFirst : ℕ → ℕ → (ℕ → Bool) → Type 0
IsFirst i k ready = (i ≤ k) × (ready k ≡ true) × ((j : ℕ) → i ≤ j → j < k → ready j ≡ false)

IsFirst-later :
    (i k : ℕ) (ready : ℕ → Bool) → ready i ≡ false → IsFirst (i + 1) k ready → IsFirst i k ready
IsFirst-later i k ready b (lo, now, none_before) = (
  omega arith,
  now,
  λ j h1 h2. elim (Bool-cases (j == i)) [
    | inl e ↦ ap ready ((==_iff j i).0 e) ∙ b
    | inr e ↦ none_before j (ground arith) h2
  ],
)

first_ready-IsFirst :
    (left i k : ℕ) (ready : ℕ → Bool)
    → first_ready left i ready ≡ some k
    → (k < i + left) × IsFirst i k ready
unfolding first_ready
first_ready-IsFirst zero i k ready h = absurd (ground arith)
first_ready-IsFirst (suc left) i k ready h = elim (Bool-cases (ready i)) [
  | inl b ↦
      let same : i ≡ k = ground arith in
      subst (λ x. (x < i + suc left) × IsFirst i x ready) same
        (omega arith, (omega arith, b, λ j h1 h2. absurd (omega arith)))
  | inr b ↦
      let (hi, first) = first_ready-IsFirst left (i + 1) k ready (rw (b, first_ready) at h) in
      (omega arith, IsFirst-later i k ready b first)
]

-- A packet that is received comes from the first of the four interfaces that is ready. Its length
-- is what was read, its payload begins with those bytes, and the bytes behind them are still those
-- of the packet before.
pub get_packet_lem :
    (ready : ℕ → Bool) (input : ℕ → Bytes) (m m' : Packet)
    → get_packet ready input m ≡ some m'
    → (m'.interface < 4)
      × IsFirst 0 m'.interface ready
      × (bytes_at m'.payload 0 m'.len ≡ input m'.interface)
      × ((j : ℕ) → m'.len ≤ j → m'.payload j ≡ m.payload j)
unfolding get_packet
get_packet_lem ready input m m' h = elim (Option-cases (first_ready 4 0 ready)) [
  | inl e ↦ absurd (ground arith)
  | inr (i, e) ↦
      let (hi, first) = first_ready-IsFirst 4 0 i ready e in
      let got : received input m i ≡ m' = ground arith in
      subst
        (λ x.
          (x.interface < 4)
          × IsFirst 0 x.interface ready
          × (bytes_at x.payload 0 x.len ≡ input x.interface)
          × ((j : ℕ) → x.len ≤ j → x.payload j ≡ m.payload j))
        got
        (
          omega arith,
          first,
          bytes_at-put_bytes 0 (input i) m.payload,
          λ j le. put_bytes_out 0 j (input i) m.payload (inr (omega arith)),
        )
]
