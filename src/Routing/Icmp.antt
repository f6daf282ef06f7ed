-- ===== src/Routing/Icmp.antt =====
-- The three ICMP answers that `main` of Packet-Routing-IP-Eth/router.c builds in place.
pub mod Checks
mod Tests
use communication_protocols.Base.{ℕ, ◌+◌}
use communication_protocols.Routing.Checksum.{htons}
use communication_protocols.Routing.Packet.{
  Memory, Packet, put, put_bytes, bytes_at, put16, set_checksum, ether_dhost, ether_shost,
  ether_size, tot_len, ttl, protocol, check, saddr, daddr, ip_size, icmp_start, icmp_type,
  icmp_code, icmp_checksum, icmp_size,
}

-- `aux_eth`: the Ethernet addresses change places.
unfoldable pub swap_macs : Memory → Memory
swap_macs mem =
    let aux_eth = bytes_at mem ether_dhost 6 in
    let mem' = put_bytes ether_dhost (bytes_at mem ether_shost 6) mem in
    put_bytes ether_shost aux_eth mem'

-- The IP addresses change places.
unfoldable pub swap_ips : Memory → Memory
swap_ips mem =
    let aux = bytes_at mem daddr 4 in
    let mem' = put_bytes daddr (bytes_at mem saddr 4) mem in put_bytes saddr aux mem'

unfoldable pub set_check : ℕ → Memory → Memory
set_check base = set_checksum base check ether_size ip_size

unfoldable pub set_icmp_checksum : ℕ → Memory → Memory
set_icmp_checksum base = set_checksum base icmp_checksum icmp_start icmp_size

-- `htons(sizeof(struct icmphdr)) + htons(sizeof(struct iphdr))`
abbrev pub answer_tot_len : ℕ
answer_tot_len = htons icmp_size + htons ip_size

abbrev pub answer_len : ℕ
answer_len = ether_size + ip_size + icmp_size

-- The answer to an echo request; `base` is the address of the payload.
unfoldable pub echo_reply : ℕ → Packet → Packet
echo_reply base m =
    let mem = put ttl 64 (put icmp_type 0 m.payload) in
    let mem = swap_ips (swap_macs mem) in
    record m { payload = set_icmp_checksum base (set_check base mem) }

-- Destination unreachable: the addresses are swapped after the IP checksum is set.
unfoldable pub unreachable : ℕ → Packet → Packet
unreachable base m =
    let mem = swap_macs m.payload in
    let mem = put protocol 1 (put ttl 64 (put16 tot_len answer_tot_len mem)) in
    let mem = swap_ips (set_check base mem) in
    let mem = put icmp_code 0 (put icmp_type 3 mem) in
    record m { len = answer_len; payload = set_icmp_checksum base mem }

-- Time exceeded: the code byte stays as it came.
unfoldable pub time_exceeded : ℕ → Packet → Packet
time_exceeded base m =
    let mem = put protocol 1 (put ttl 64 m.payload) in
    let mem = swap_ips (swap_macs (put16 tot_len answer_tot_len mem)) in
    let mem = put icmp_type 11 (set_check base mem) in
    record m { len = answer_len; payload = set_icmp_checksum base mem }
