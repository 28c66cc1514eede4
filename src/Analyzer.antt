-- ===== src/Analyzer.antt =====
-- internal/analyzer: from a decoded packet to observations. gopacket, which decodes the packet, is
-- not in the repository: the records here have the fields of its layers that the code reads.
pub mod Net
pub mod Ipv6
pub mod Names
pub mod PacketCtx
pub mod Arp
pub mod Dhcp
pub mod Dhcpv4
pub mod Fingerprint
pub mod Ethernet
pub mod Mdns
pub mod Ssdp
pub mod Dhcpv6
pub mod Valid
pub mod Registry
pub mod Tests
