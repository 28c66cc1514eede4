-- ===== src/Analyzer/Tests/Packets.antt =====
-- The default registry, the throttle of the Ethernet analyzer and DHCPv6 at concrete packets.
use asset_discovery.Analyzer.Dhcpv6.{
  decode_dns_name, dhcpv6_analyze_ctx, iana_lifetime, join_dots, nothing, panics, unfinished,
}
use asset_discovery.Analyzer.Dhcpv6.DnsNames.{decode-wire_name, wire_name}
use asset_discovery.Analyzer.Dhcpv6.Leases.{
  address_lifetimes_unread, has_address, iana_lifetime_finishes,
}
use asset_discovery.Analyzer.Ethernet.{new_ethernet_analyzer}
use asset_discovery.Analyzer.Ethernet.Throttle.{Apart, reported_source, reported_source-Apart}
use asset_discovery.Analyzer.PacketCtx.{Dhcpv6Option, Ethernet, PacketCtx, observed_at}
use asset_discovery.Analyzer.Registry.{TimedPacket, analyze, default_registry}
use asset_discovery.Analyzer.Registry.Laws.{default_registry-Reports}
use asset_discovery.Analyzer.Ssdp.{UrlParser}
use asset_discovery.Analyzer.Tests.{arp_reply_packet}
use asset_discovery.Analyzer.Valid.{Reports}
use asset_discovery.Asset.Tests.{laptop_mac}
use asset_discovery.Prelude.{
  All, List, [], arith, Gives, none, refl, some, ℕ, ◌*◌, ◌++◌, ◌∷◌, ◌≡◌, ◌≢◌,
}
use asset_discovery.Prelude.Text.{text}
use asset_discovery.Prelude.Time.{second}

abbrev laptop_frame : Ethernet
laptop_frame = record { src_mac = laptop_mac; dst_mac = 2 ∷ 0 ∷ 0 ∷ 0 ∷ 0 ∷ 1 ∷ [] }

-- An ARP reply in an Ethernet frame.
abbrev pub arp_ctx : PacketCtx
arp_ctx = record {
  timestamp = 7;
  ethernet = some laptop_frame;
  ipv4 = none;
  ipv6 = none;
  arp = some arp_reply_packet;
  dhcpv4 = none;
  dhcpv6 = none;
  udp = none;
  tcp = none;
  dns = none;
}

-- A parser that takes no URL.
abbrev pub no_url : UrlParser
no_url s = none

-- A second frame later than the first by less than the throttle, and a third by more.
abbrev three_frames : List TimedPacket
three_frames =
    (0, arp_ctx)
    ∷ (0, record arp_ctx { timestamp = 8 })
    ∷ (0, record arp_ctx { timestamp = 90 * second })
    ∷ []

default_registry-Reports_example :
    Gives
      (λ r. All (Reports 7) r.0)
      (analyze (default_registry no_url) new_ethernet_analyzer (0, arp_ctx))
unfolding observed_at dhcpv6_analyze_ctx
default_registry-Reports_example =
    default_registry-Reports no_url new_ethernet_analyzer 0 arp_ctx (λ e. omega (arith, e))
      (λ e. cc)

reported_source-Apart_example :
    Apart (60 * second) (reported_source new_ethernet_analyzer laptop_mac three_frames)
reported_source-Apart_example =
    reported_source-Apart new_ethernet_analyzer (60 * second) laptop_mac three_frames refl

decode-wire_name_example :
    decode_dns_name (wire_name (text "host" ∷ text "example" ∷ []) ++ 7 ∷ [])
    ≡ join_dots (text "host" ∷ text "example" ∷ [])
decode-wire_name_example =
    decode-wire_name (text "host" ∷ text "example" ∷ []) (7 ∷ [])
      (
        record { some_byte = omega arith; short = omega arith },
        (record { some_byte = omega arith; short = omega arith }, tt),
      )
      (omega arith)

-- The address 2001:db8::7 with a preferred lifetime of 60 and a valid one of 120 seconds.
abbrev address_option : List ℕ
address_option =
    0 ∷ 24 ∷ 32 ∷ 1 ∷ 13 ∷ 184 ∷ 0 ∷ 0 ∷ 0 ∷ 0 ∷ 0 ∷ 0 ∷ 0 ∷ 0 ∷ 0 ∷ 0 ∷ 0 ∷ 7 ∷ 0 ∷ 0 ∷ 0 ∷ 60 ∷ 0
    ∷ 0 ∷ 0 ∷ 120 ∷ []

abbrev ia_na : List Dhcpv6Option
ia_na =
    record {
      code = 3;
      payload = 1 ∷ 2 ∷ 3 ∷ 4 ∷ 0 ∷ 0 ∷ 0 ∷ 30 ∷ 0 ∷ 0 ∷ 0 ∷ 0 ∷ 0 ∷ 5 ∷ address_option;
    }
    ∷ []

address_lifetimes_unread_example : iana_lifetime ia_na ≡ nothing
address_lifetimes_unread_example =
    address_lifetimes_unread ia_na (has_address 1 2 3 4 0 0 0 30 address_option, tt)

iana_lifetime_finishes_example : iana_lifetime ia_na ≢ unfinished
iana_lifetime_finishes_example = iana_lifetime_finishes ia_na

abbrev early_end : Dhcpv6Option
early_end = record {
  code = 3;
  payload =
      1 ∷ 2 ∷ 3 ∷ 4 ∷ 0 ∷ 0 ∷ 0 ∷ 30 ∷ 0 ∷ 0 ∷ 0 ∷ 0 ∷ 0 ∷ 0 ∷ 16 ∷ 0 ∷ 0 ∷ 0 ∷ 0 ∷ 0 ∷ 0 ∷ 0 ∷ 0
      ∷ 0 ∷ 0 ∷ 0 ∷ 0 ∷ 0 ∷ 0 ∷ 0 ∷ 0 ∷ 0 ∷ 0 ∷ 0 ∷ 0 ∷ 0 ∷ 0 ∷ 0 ∷ 0 ∷ 0 ∷ [];
}

-- The loop reads a length of 16 and a valid lifetime of 0, and then past the end of the option.
early_end_panics : iana_lifetime (early_end ∷ []) ≡ panics
unfolding iana_lifetime
early_end_panics = refl
