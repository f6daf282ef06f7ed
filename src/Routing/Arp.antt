-- ===== src/Routing/Arp.antt =====
-- The ARP packets that `main` of Packet-Routing-IP-Eth/router.c builds, and its ARP table.
use communication_protocols.Base.{
  same_bytes, ℕ, ◌+◌, Bool, false, ◌||◌, not, Option, none, some, List, [], ◌∷◌, ◌++◌, Bytes,
  if◌then◌else◌,
}
use communication_protocols.Routing.Checksum.{htons}
use communication_protocols.Routing.Packet.{
  Memory, Packet, put, put_bytes, bytes_at, put16, bytes32, ether_dhost, ether_shost, ether_type,
  ether_size,
}

pub record ArpEntry : Type 0 where
  pub ip : Bytes
  pub mac : Bytes

-- `struct ether_arp`, behind the Ethernet header
abbrev pub arp_hrd : ℕ
arp_hrd = 14

abbrev pub arp_pro : ℕ
arp_pro = 16

abbrev pub arp_hln : ℕ
arp_hln = 18

abbrev pub arp_pln : ℕ
arp_pln = 19

abbrev pub arp_op : ℕ
arp_op = 20

abbrev pub arp_sha : ℕ
arp_sha = 22

abbrev pub arp_spa : ℕ
arp_spa = 28

abbrev pub arp_tha : ℕ
arp_tha = 32

abbrev pub arp_tpa : ℕ
arp_tpa = 38

abbrev pub arp_size : ℕ
arp_size = 28

abbrev pub broadcast : Bytes
broadcast = 255 ∷ 255 ∷ 255 ∷ 255 ∷ 255 ∷ 255 ∷ []

-- The answer to a request for the router's own address; `mac` is that of the interface.
unfoldable pub arp_reply : Bytes → Packet → Packet
arp_reply mac m =
    let mem = put_bytes ether_dhost (bytes_at m.payload ether_shost 6) m.payload in
    let mem = put16 arp_op (htons 2) (put_bytes ether_shost mac mem) in
    let aux_ip = bytes_at mem arp_spa 4 in
    let aux_mac = bytes_at mem arp_sha 6 in
    let mem = put_bytes arp_sha mac (put_bytes arp_spa (bytes_at mem arp_tpa 4) mem) in
    record m { payload = put_bytes arp_tha aux_mac (put_bytes arp_tpa aux_ip mem) }

-- The request for the address of the next hop, in a copy of the packet to be forwarded. `mac` and
-- `ip` are those of the interface of the route.
unfoldable pub arp_request : Bytes → ℕ → ℕ → Packet → Packet
arp_request mac ip next_hop m =
    let mem = put16 ether_type (htons 0x0806) m.payload in
    let mem = put16 arp_op (htons 1) (put arp_hln 6 (put arp_pln 4 mem)) in
    let mem = put16 arp_pro (htons 0x0800) (put16 arp_hrd (htons 1) mem) in
    let mem = put_bytes arp_sha mac (put_bytes arp_tpa (bytes32 next_hop) mem) in
    let mem = put_bytes arp_tha broadcast (put_bytes arp_spa (bytes32 ip) mem) in
    record m {
      len = arp_size + ether_size;
      payload = put_bytes ether_shost mac (put_bytes ether_dhost broadcast mem);
    }

-- The loop that looks the next hop up.
unfoldable pub find_mac : Bytes → List ArpEntry → Option Bytes
find_mac ip [] = none
find_mac ip (e ∷ es) = if same_bytes e.ip ip then some e.mac else find_mac ip es

-- The loop over the table when a reply comes: it stops at an entry for which `memcmp` is not 0.
unfoldable pub found_entry : Bytes → List ArpEntry → Bool
found_entry spa [] = false
found_entry spa (e ∷ es) = not (same_bytes e.ip spa) || found_entry spa es

-- The entry is added at the end where the loop has found none.
unfoldable pub learn : Memory → List ArpEntry → List ArpEntry
learn mem table =
    if found_entry (bytes_at mem arp_spa 4) table
    then table
    else table ++ record { ip = bytes_at mem arp_spa 4; mac = bytes_at mem arp_sha 6 } ∷ []
