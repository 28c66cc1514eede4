-- ===== src/Analyzer/Tests.antt =====
-- The analyzers at concrete packets.
pub mod Packets
pub mod Announcements
use asset_discovery.Analyzer.Arp.{Arp, analyze_arp}
use asset_discovery.Analyzer.Dhcp.{Dhcpv4}
use asset_discovery.Analyzer.Dhcpv4.{analyze_dhcpv4, fingerprint, max_codes}
use asset_discovery.Analyzer.Fingerprint.{comma_list, fingerprint_decimal}
use asset_discovery.Analyzer.Valid.{Reports, analyze_arp-Reports, analyze_dhcpv4-Reports}
use asset_discovery.Asset.Tests.{laptop_mac}
use asset_discovery.Prelude.{All, [], arith, take, ◌∷◌, ◌≡◌}

abbrev arp_reply_packet : Arp
arp_reply_packet = record {
  operation = 2;
  source_hw = laptop_mac;
  source_prot = 10 ∷ 0 ∷ 0 ∷ 7 ∷ [];
  dst_hw = 2 ∷ 0 ∷ 0 ∷ 0 ∷ 0 ∷ 1 ∷ [];
  dst_prot = 10 ∷ 0 ∷ 0 ∷ 1 ∷ [];
}
