-- ===== src/Routing.antt =====
-- Packet-Routing-IP-Eth: the router, its table, its queue and its packet helpers.
pub mod Table
pub mod Checksum
pub mod Hwaddr
pub mod Queue
pub mod Packet
pub mod Icmp
pub mod Arp
pub mod Router
pub mod Start
