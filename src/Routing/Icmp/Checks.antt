-- ===== src/Routing/Icmp/Checks.antt =====
-- The answers leave the router with both checksums right.
use communication_protocols.Base.{ℕ, ◌+◌, ◌≤◌, ◌≡◌, ◌∙◌, inr, arith, ap}
use communication_protocols.Routing.Checksum.Sum.{IsBytes, sum16, weight}
use communication_protocols.Routing.Checksum.Fold.{folded}
use communication_protocols.Routing.Packet.{
  Memory, Packet, put, put16, put_bytes, bytes_at, ether_size, ip_size, icmp_start, icmp_size,
  icmp_checksum, icmp_type, icmp_code, ttl, protocol, tot_len,
}
use communication_protocols.Routing.Packet.Valid.{
  words, Verifies, IsBytes-put, IsBytes-put16, IsBytes-put_bytes, All-bytes_at, words-put_out,
  words-set_checksum, IsBytes-set_checksum, set_checksum-Verifies,
}
use communication_protocols.Routing.Icmp.{
  swap_macs, swap_ips, set_check, set_icmp_checksum, echo_reply, unreachable, time_exceeded,
  answer_tot_len,
}

-- The IP header and the ICMP header of a payload verify.
pub record BothVerify (mem : Memory) : Type 0 where
  pub ip : Verifies mem ether_size ip_size
  pub icmp : Verifies mem icmp_start icmp_size

IsBytes-swap_macs : (mem : Memory) → IsBytes mem → IsBytes (swap_macs mem)
unfolding swap_macs
IsBytes-swap_macs mem small =
    IsBytes-put_bytes 6 _ _ (All-bytes_at mem 0 6 small)
      (IsBytes-put_bytes 0 _ mem (All-bytes_at mem 6 6 small) small)

IsBytes-swap_ips : (mem : Memory) → IsBytes mem → IsBytes (swap_ips mem)
unfolding swap_ips
IsBytes-swap_ips mem small =
    IsBytes-put_bytes 26 _ _ (All-bytes_at mem 30 4 small)
      (IsBytes-put_bytes 30 _ mem (All-bytes_at mem 26 4 small) small)

-- Exchanging the addresses does not change the sum of the header.
words-swap_ips :
    (mem : Memory) → words (swap_ips mem) ether_size ip_size ≡ words mem ether_size ip_size
unfolding words sum16 weight swap_ips put_bytes put bytes_at
words-swap_ips mem = omega arith

pub set_check-Verifies :
    (base : ℕ) (mem : Memory) → IsBytes mem → Verifies (set_check base mem) ether_size ip_size
unfolding set_check
set_check-Verifies base mem small =
    set_checksum-Verifies base 10 ether_size ip_size mem (omega arith) (omega arith) (omega arith)
      small

-- The last step of an answer keeps the IP header and sets the ICMP checksum.
finish :
    (base : ℕ) (mem : Memory)
    → IsBytes mem
    → Verifies mem ether_size ip_size
    → BothVerify (set_icmp_checksum base mem)
unfolding set_icmp_checksum
finish base mem small v = record {
  ip =
      ap folded (
        words-set_checksum base icmp_checksum icmp_start icmp_size ether_size ip_size mem
          (inr (omega arith)))
      ∙ v;
  icmp =
      set_checksum-Verifies base 2 icmp_start icmp_size mem (omega arith) (omega arith)
        (omega arith) small;
}

pub IsBytes-set_check : (base : ℕ) (mem : Memory) → IsBytes mem → IsBytes (set_check base mem)
unfolding set_check
IsBytes-set_check base mem = IsBytes-set_checksum base 24 ether_size ip_size mem

Verifies-put :
    (p b : ℕ) (mem : Memory)
    → ether_size + ip_size ≤ p
    → Verifies mem ether_size ip_size
    → Verifies (put p b mem) ether_size ip_size
Verifies-put p b mem h v = ap folded (words-put_out ether_size ip_size p b mem (inr h)) ∙ v

-- The answer to an echo request has a right IP checksum, and a right checksum of the eight bytes of
-- its ICMP header.
echo_reply-BothVerify :
    (base : ℕ) (m : Packet) → IsBytes m.payload → BothVerify (echo_reply base m).payload
unfolding echo_reply
echo_reply-BothVerify base m small =
    finish base (set_check base mem) (IsBytes-set_check base mem all)
      (set_check-Verifies base mem all)
  where
    marked : Memory
    marked = put ttl 64 (put icmp_type 0 m.payload)

    mem : Memory
    mem = swap_ips (swap_macs marked)

    all : IsBytes mem
    all = IsBytes-swap_ips _ (
        IsBytes-swap_macs marked
          (IsBytes-put ttl 64 _ (omega arith) (IsBytes-put icmp_type 0 _ (omega arith) small)))

-- The destination-unreachable answer has a right IP checksum, though the addresses change places
-- after it is set, and a right checksum of its eight ICMP bytes.
unreachable-BothVerify :
    (base : ℕ) (m : Packet) → IsBytes m.payload → BothVerify (unreachable base m).payload
unfolding unreachable
unreachable-BothVerify base m small =
    finish base _
      (IsBytes-put icmp_code 0 _ (omega arith) (
        IsBytes-put icmp_type 3 _ (omega arith)
          (IsBytes-swap_ips _ (IsBytes-set_check base mem all))))
      (Verifies-put icmp_code 0 _ (omega arith) (
        Verifies-put icmp_type 3 _ (omega arith)
          (ap folded (words-swap_ips (set_check base mem)) ∙ set_check-Verifies base mem all)))
  where
    mem : Memory
    mem = put protocol 1 (put ttl 64 (put16 tot_len answer_tot_len (swap_macs m.payload)))

    all : IsBytes mem
    all = IsBytes-put protocol 1 _ (omega arith) (
        IsBytes-put ttl 64 _ (omega arith)
          (IsBytes-put16 tot_len answer_tot_len _ (IsBytes-swap_macs m.payload small)))

-- The time-exceeded answer has a right IP checksum and a right checksum of its eight ICMP bytes.
time_exceeded-BothVerify :
    (base : ℕ) (m : Packet) → IsBytes m.payload → BothVerify (time_exceeded base m).payload
unfolding time_exceeded
time_exceeded-BothVerify base m small =
    finish base _ (IsBytes-put icmp_type 11 _ (omega arith) (IsBytes-set_check base mem all))
      (Verifies-put icmp_type 11 _ (omega arith) (set_check-Verifies base mem all))
  where
    marked : Memory
    marked = put16 tot_len answer_tot_len (put protocol 1 (put ttl 64 m.payload))

    mem : Memory
    mem = swap_ips (swap_macs marked)

    all : IsBytes mem
    all = IsBytes-swap_ips _ (
        IsBytes-swap_macs marked (
          IsBytes-put16 tot_len answer_tot_len _
            (IsBytes-put protocol 1 _ (omega arith) (IsBytes-put ttl 64 _ (omega arith) small))))

-- For a packet of bytes, the answer to an echo request, the destination-unreachable answer and the
-- time-exceeded answer each have a right IP checksum, though the addresses change places after it is
-- set, and a right checksum of the eight bytes of the ICMP header.
pub answers-BothVerify :
    (base : ℕ) (m : Packet)
    → IsBytes m.payload
    → BothVerify (echo_reply base m).payload
      × BothVerify (unreachable base m).payload
      × BothVerify (time_exceeded base m).payload
answers-BothVerify base m small = (
  echo_reply-BothVerify base m small,
  unreachable-BothVerify base m small,
  time_exceeded-BothVerify base m small,
)
