-- ===== src/Routing/Packet.antt =====
-- `packet` of Packet-Routing-IP-Eth/include/skel.h and the headers that lie in its payload, as bytes
-- at fixed places. A field of 16 or 32 bits is read and written as a little-endian machine does.
pub mod Valid
use communication_protocols.Base.{
  ℕ, zero, suc, ◌+◌, ◌-◌, ◌*◌, ◌/◌, ◌%◌, ◌^◌, Bool, true, false, ◌&&◌, [], ◌∷◌, Bytes, ◌==◌, ltb,
  if◌then◌else◌,
}
use communication_protocols.Routing.Checksum.{ip_checksum}

abbrev pub Memory : Type 0
Memory = ℕ → ℕ

pub record Packet : Type 0 where
  pub len : ℕ
  pub payload : Memory
  pub interface : ℕ

unfoldable pub put : ℕ → ℕ → Memory → Memory
put p b mem j = if j == p then b else mem j

unfoldable pub put_bytes : ℕ → Bytes → Memory → Memory
unfolding put
put_bytes p [] mem = mem
put_bytes p (b ∷ bs) mem = put_bytes (p + 1) bs (put p b mem)

unfoldable pub bytes_at : Memory → ℕ → ℕ → Bytes
bytes_at mem p zero = []
bytes_at mem p (suc n) = mem p ∷ bytes_at mem (p + 1) n

unfoldable pub put16 : ℕ → ℕ → Memory → Memory
unfolding put
put16 p v mem = put (p + 1) (v / 256 % 256) (put p (v % 256) mem)

unfoldable pub get16 : Memory → ℕ → ℕ
get16 mem p = mem p + mem (p + 1) * 256

unfoldable pub get32 : Memory → ℕ → ℕ
get32 mem p = mem p + mem (p + 1) * 2 ^ 8 + mem (p + 2) * 2 ^ 16 + mem (p + 3) * 2 ^ 24

-- The bytes of a 32-bit value in memory.
unfoldable pub bytes32 : ℕ → Bytes
bytes32 v = v % 256 ∷ v / 2 ^ 8 % 256 ∷ v / 2 ^ 16 % 256 ∷ v / 2 ^ 24 % 256 ∷ []

-- `struct ether_header`
abbrev pub ether_dhost : ℕ
ether_dhost = 0

abbrev pub ether_shost : ℕ
ether_shost = 6

abbrev pub ether_type : ℕ
ether_type = 12

abbrev pub ether_size : ℕ
ether_size = 14

-- `struct iphdr`, behind the Ethernet header
abbrev pub tot_len : ℕ
tot_len = 16

abbrev pub ttl : ℕ
ttl = 22

abbrev pub protocol : ℕ
protocol = 23

abbrev pub check : ℕ
check = 24

abbrev pub saddr : ℕ
saddr = 26

abbrev pub daddr : ℕ
daddr = 30

abbrev pub ip_size : ℕ
ip_size = 20

-- `struct icmphdr`, behind the IP header
abbrev pub icmp_start : ℕ
icmp_start = 34

abbrev pub icmp_type : ℕ
icmp_type = 34

abbrev pub icmp_code : ℕ
icmp_code = 35

abbrev pub icmp_checksum : ℕ
icmp_checksum = 36

abbrev pub icmp_size : ℕ
icmp_size = 8

-- `ip_checksum` of the `size` bytes at `start`, in a payload that stands at the address `base`.
unfoldable pub checksum_of : ℕ → Memory → ℕ → ℕ → ℕ
checksum_of base mem start size = ip_checksum (base + start) (λ k. mem (start + k)) size

-- Both checksum fields are set so: to 0, then to the checksum of the header with that 0.
unfoldable pub set_checksum : ℕ → ℕ → ℕ → ℕ → Memory → Memory
set_checksum base field start size mem =
    let cleared = put16 field 0 mem in put16 field (checksum_of base cleared start size) cleared
