-- ===== src/Analyzer/PacketCtx.antt =====
-- internal/analyzer/packetctx.go: the layers of a packet, as far as the analyzers read them. A layer
-- that gopacket did not decode is missing.
use asset_discovery.Analyzer.Arp.{Arp, analyze_arp}
use asset_discovery.Analyzer.Dhcp.{Dhcpv4}
use asset_discovery.Analyzer.Dhcpv4.{analyze_dhcpv4}
use asset_discovery.Analyzer.Ipv6.{is_link_local, normalize_ipv6}
use asset_discovery.Analyzer.Net.{is_usable, normalize_ipv4}
use asset_discovery.Asset.Types.{IpEntry, Mac, Observation}
use asset_discovery.Prelude.{Bool, List, Option, [], if◌then◌else◌, none, some, true, ℕ, ◌∷◌, ◌||◌}
use asset_discovery.Prelude.Map.{Map}
use asset_discovery.Prelude.Text.{Text, is_empty}
use asset_discovery.Prelude.Time.{Duration, Time, is_zero, pos}

pub record Ethernet : Type 0 where
  pub src_mac : Mac
  pub dst_mac : Mac

-- An IPv4 or an IPv6 header; a nil address is the empty one.
pub record Ip : Type 0 where
  pub src_ip : List ℕ
  pub dst_ip : List ℕ

pub record Udp : Type 0 where
  pub src_port : ℕ
  pub dst_port : ℕ
  pub payload : List ℕ

pub record Tcp : Type 0 where
  pub dst_port : ℕ
  pub syn : Bool
  pub ack : Bool

pub record DnsRecord : Type 0 where
  pub record_type : ℕ
  pub ptr : Text
  pub srv_port : ℕ
  pub srv_name : Text

pub record Dns : Type 0 where
  pub qr : Bool
  pub answers : List DnsRecord

pub record Dhcpv6Option : Type 0 where
  pub code : ℕ
  pub payload : List ℕ

-- msg_type is what gopacket prints for the type of the message.
pub record Dhcpv6 : Type 0 where
  pub msg_type : Text
  pub options : List Dhcpv6Option

pub record PacketCtx : Type 0 where
  pub timestamp : Time
  pub ethernet : Option Ethernet
  pub ipv4 : Option Ip
  pub ipv6 : Option Ip
  pub arp : Option Arp
  pub dhcpv4 : Option Dhcpv4
  pub dhcpv6 : Option Dhcpv6
  pub udp : Option Udp
  pub tcp : Option Tcp
  pub dns : Option Dns

-- ObservedAt; `now` is what time.Now returns.
unfoldable pub observed_at : Time → PacketCtx → Time
observed_at now ctx = if is_zero ctx.timestamp then now else ctx.timestamp

abbrev pub active_entry : Time → Duration → IpEntry
active_entry at lease = record { first_seen = at; last_seen = at; lease = lease; is_active = true }

-- An entry for the IPv4 address of a layer, if it is one.
unfoldable pub ipv4_entries : (Ip → List ℕ) → Time → Option Ip → Map IpEntry
unfolding normalize_ipv4
ipv4_entries address at none = []
ipv4_entries address at (some v4) =
    let s = normalize_ipv4 (address v4) in
    if is_empty s then [] else (s, active_entry at (pos 0)) ∷ []

-- The text of the IPv6 address of a layer; empty if it is nil or of the local link.
unfoldable pub global_ipv6 : (Ip → List ℕ) → Option Ip → Text
unfolding is_link_local normalize_ipv6
global_ipv6 address none = []
global_ipv6 address (some v6) =
    let ip = address v6 in if is_empty ip || is_link_local ip then [] else normalize_ipv6 ip

-- An entry for that address, if it is not empty.
unfoldable pub ipv6_entries : (Ip → List ℕ) → Time → Duration → Option Ip → Map IpEntry
unfolding global_ipv6
ipv6_entries address at lease v6 =
    let s = global_ipv6 address v6 in if is_empty s then [] else (s, active_entry at lease) ∷ []

abbrev pub source : Ip → List ℕ
source ip = ip.src_ip

abbrev pub destination : Ip → List ℕ
destination ip = ip.dst_ip

-- fillObsIPsFromCtx
unfoldable pub fill_obs_ips : Time → PacketCtx → Observation → Observation
unfolding ipv4_entries ipv6_entries
fill_obs_ips at ctx obs = record obs {
  ipv4s = ipv4_entries source at ctx.ipv4;
  ipv6s = ipv6_entries source at (pos 0) ctx.ipv6;
}

abbrev pub usable_source : Option Ethernet → Option Mac
usable_source none = none
usable_source (some eth) = if is_usable eth.src_mac then some eth.src_mac else none

-- ethSrcMACFromCtx and dhcpv6MACFromCtx
unfoldable pub eth_src_mac : PacketCtx → Option Mac
unfolding is_usable
eth_src_mac ctx = usable_source ctx.ethernet

abbrev pub when_some {ℓ} : {A : Type ℓ} → Option A → (A → List Observation) → List Observation
when_some none f = []
when_some (some a) f = f a

-- AnalyzeCtx of the ARP analyzer
unfoldable pub arp_analyze_ctx : Time → PacketCtx → List Observation
unfolding analyze_arp observed_at
arp_analyze_ctx now ctx = when_some ctx.arp (analyze_arp (observed_at now ctx))

-- AnalyzeCtx of the DHCPv4 analyzer
unfoldable pub dhcpv4_analyze_ctx : Time → PacketCtx → List Observation
unfolding analyze_dhcpv4 observed_at
dhcpv4_analyze_ctx now ctx = when_some ctx.dhcpv4 (analyze_dhcpv4 (observed_at now ctx))
