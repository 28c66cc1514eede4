-- ===== src/Analyzer/Ethernet.antt =====
-- internal/analyzer/ethernet.go: hosts by the addresses of Ethernet frames, each at most once in a
-- while, and the services that clients connect to. A sync.Map is a Map: the packets of this analyzer
-- are taken one after the other.
pub mod Reports
pub mod Throttle
use asset_discovery.Analyzer.Net.{is_usable}
use asset_discovery.Analyzer.PacketCtx.{
  Ethernet, Ip, PacketCtx, Tcp, destination, ipv4_entries, ipv6_entries, observed_at, source,
}
use asset_discovery.Asset.Identity.{mac_string}
use asset_discovery.Asset.Types.{Mac, Observation, Service, bare_observation, valid}
use asset_discovery.Prelude.{
  Bool, List, Option, [], false, if◌then◌else◌, length, none, not, some, true, ℕ, ◌%◌, ◌&&◌, ◌*◌,
  ◌++◌, ◌==◌, ◌||◌, ◌∷◌,
}
use asset_discovery.Prelude.Map.{Map, insert, lookup}
use asset_discovery.Prelude.Text.{Text, is_empty, text}
use asset_discovery.Prelude.Time.{Duration, Time, ltb_ℤ, pos, second, sub_time}

-- commonServiceName
abbrev pub common_service_names : List (ℕ × Text)
common_service_names =
    (80, text "http")
    ∷ (443, text "https")
    ∷ (8080, text "http-alt")
    ∷ (8443, text "https-alt")
    ∷ (25, text "smtp")
    ∷ (110, text "pop3")
    ∷ (143, text "imap")
    ∷ (587, text "submission")
    ∷ (993, text "imaps")
    ∷ (995, text "pop3s")
    ∷ (445, text "smb")
    ∷ (139, text "netbios-ssn")
    ∷ (137, text "netbios-ns")
    ∷ (138, text "netbios-dgm")
    ∷ (548, text "afp")
    ∷ (2049, text "nfs")
    ∷ (22, text "ssh")
    ∷ (23, text "telnet")
    ∷ (3389, text "rdp")
    ∷ (5900, text "vnc")
    ∷ (5901, text "vnc-1")
    ∷ (53, text "dns")
    ∷ (67, text "dhcp-server")
    ∷ (68, text "dhcp-client")
    ∷ (546, text "dhcpv6-client")
    ∷ (547, text "dhcpv6-server")
    ∷ (3306, text "mysql")
    ∷ (5432, text "postgresql")
    ∷ (27017, text "mongodb")
    ∷ (6379, text "redis")
    ∷ (1433, text "mssql")
    ∷ (5222, text "xmpp")
    ∷ (1935, text "rtmp")
    ∷ (554, text "rtsp")
    ∷ (5353, text "mdns")
    ∷ (1900, text "ssdp")
    ∷ (3702, text "ws-discovery")
    ∷ (123, text "ntp")
    ∷ (389, text "ldap")
    ∷ (636, text "ldaps")
    ∷ (514, text "syslog")
    ∷ (162, text "snmp-trap")
    ∷ (161, text "snmp")
    ∷ (179, text "bgp")
    ∷ (830, text "netconf")
    ∷ (500, text "isakmp")
    ∷ (4500, text "ipsec-nat-t")
    ∷ (6443, text "kube-apiserver")
    ∷ (2379, text "etcd")
    ∷ (2380, text "etcd-peer")
    ∷ (10250, text "kubelet")
    ∷ (8472, text "flannel-vxlan")
    ∷ (3128, text "squid")
    ∷ (1080, text "socks")
    ∷ []

unfoldable pub name_of_port : ℕ → List (ℕ × Text) → Text
name_of_port port [] = []
name_of_port port ((p, name) ∷ rest) = if p == port then name else name_of_port port rest

-- guessServiceName; the protocol is not read
unfoldable pub guess_service_name : ℕ → Text
unfolding name_of_port
guess_service_name port = name_of_port port common_service_names

abbrev pub default_ethernet_throttle : Duration
default_ethernet_throttle = pos (60 * second)

pub record EthernetAnalyzer : Type 0 where
  pub last_emit : Map Time
  pub last_dst_emit : Map Time
  pub throttle_after : Duration

abbrev pub new_ethernet_analyzer : EthernetAnalyzer
new_ethernet_analyzer = record {
  last_emit = [];
  last_dst_emit = [];
  throttle_after = default_ethernet_throttle;
}

-- Reset
unfoldable pub reset : EthernetAnalyzer → EthernetAnalyzer
reset e = record e { last_emit = []; last_dst_emit = [] }

-- isUnicastMAC
unfoldable pub is_unicast : Mac → Bool
is_unicast [] = false
is_unicast (b ∷ mac) = length (b ∷ mac) == 6 && b % 2 == 0

-- The last sighting that was reported is less than the throttle ago.
abbrev pub throttled : Duration → Time → Option Time → Bool
throttled d at none = false
throttled d at (some last) = ltb_ℤ (sub_time at last) d

abbrev pub syn_service : Time → Option Tcp → Option Service
syn_service at none = none
syn_service at (some tcp) =
    let name = guess_service_name tcp.dst_port in
    if (not tcp.syn || tcp.ack) || is_empty name
    then none
    else some (record {
      protocol = text "tcp";
      port = tcp.dst_port;
      name = name;
      version = [];
      product = [];
      vendor = [];
      banner = [];
      is_active = false;
      last_seen = at;
      is_client = true;
    })

-- The service of a SYN to a known port.
unfoldable pub detect_syn : Time → PacketCtx → Option Service
unfolding guess_service_name
detect_syn at ctx = syn_service at ctx.tcp

-- A host with the addresses that the packet gives it.
unfoldable pub host_observation : (Ip → List ℕ) → Time → Mac → PacketCtx → Observation
unfolding ipv4_entries ipv6_entries bare_observation
host_observation address at mac ctx = record (bare_observation (text "ethernet") at mac) {
  ipv4s = ipv4_entries address at ctx.ipv4;
  ipv6s = ipv6_entries address at (pos 0) ctx.ipv6;
}

abbrev pub with_services : List Service → Observation → Observation
with_services svcs obs = record obs { services = svcs }

abbrev pub when_valid : Observation → List Observation
when_valid obs = if valid obs then obs ∷ [] else []

-- What is reported of the source, given whether it is throttled and the service of a SYN.
unfoldable pub source_reports : Time → Mac → PacketCtx → Bool → Option Service → List Observation
unfolding host_observation bare_observation valid
source_reports at mac ctx is_throttled (some svc) =
    let obs = host_observation source at mac ctx in
    let standalone = bare_observation (text "ethernet") at mac in
    if not is_throttled && valid obs
    then with_services (svc ∷ []) obs ∷ []
    else with_services (svc ∷ []) standalone ∷ []
source_reports at mac ctx is_throttled none =
    if is_throttled then [] else when_valid (host_observation source at mac ctx)

-- The part of AnalyzeCtx for the source address.
unfoldable pub analyze_source :
    EthernetAnalyzer → Time → PacketCtx → Mac → List Observation × EthernetAnalyzer
unfolding detect_syn source_reports is_usable
analyze_source e at ctx mac =
    let key = mac_string mac in
    let held = throttled e.throttle_after at (lookup key e.last_emit) in
    if is_usable mac
    then (
      source_reports at mac ctx held (detect_syn at ctx),
      if held then e else record e { last_emit = insert key at e.last_emit },
    )
    else ([], e)

-- The part for the destination address.
unfoldable pub analyze_destination :
    EthernetAnalyzer → Time → PacketCtx → Mac → List Observation × EthernetAnalyzer
unfolding is_unicast is_usable host_observation valid
analyze_destination e at ctx mac =
    let key = mac_string mac in
    if (is_unicast mac && is_usable mac)
      && not (throttled e.throttle_after at (lookup key e.last_dst_emit))
    then (
      when_valid (host_observation destination at mac ctx),
      record e { last_dst_emit = insert key at e.last_dst_emit },
    )
    else ([], e)

abbrev pub analyze_frame :
    EthernetAnalyzer → Time → PacketCtx → Option Ethernet → List Observation × EthernetAnalyzer
analyze_frame e at ctx none = ([], e)
analyze_frame e at ctx (some eth) =
    let (from, e') = analyze_source e at ctx eth.src_mac in
    let (to, e'') = analyze_destination e' at ctx eth.dst_mac in (from ++ to, e'')

-- AnalyzeCtx
unfoldable pub ethernet_analyze_ctx :
    EthernetAnalyzer → Time → PacketCtx → List Observation × EthernetAnalyzer
unfolding analyze_source analyze_destination observed_at
ethernet_analyze_ctx e now ctx = analyze_frame e (observed_at now ctx) ctx ctx.ethernet
