-- ===== src/Analyzer/Mdns.antt =====
-- internal/analyzer/mdns.go: host names and services that a host announces. Go leaves the order in
-- which a map is walked open; the host names stand here in the order of their first answers.
pub mod Laws
use asset_discovery.Analyzer.Names.{port_key, trim_local}
use asset_discovery.Analyzer.PacketCtx.{
  Dns, DnsRecord, PacketCtx, Udp, eth_src_mac, fill_obs_ips, observed_at, when_some,
}
use asset_discovery.Asset.Infer.{contains_any}
use asset_discovery.Asset.Merge.{merge_new, same_text}
use asset_discovery.Asset.Types.{Mac, Observation, Service, bare_observation, valid}
use asset_discovery.Prelude.{
  Bool, List, Option, [], false, if◌then◌else◌, map, none, not, some, ℕ, ◌&&◌, ◌++◌, ◌==◌, ◌||◌,
  ◌∷◌,
}
use asset_discovery.Prelude.Text.{Text, is_empty, text, to_lower}
use asset_discovery.Prelude.Time.{Time}

abbrev pub dns_type_ptr : ℕ
dns_type_ptr = 12

abbrev pub dns_type_srv : ℕ
dns_type_srv = 33

-- The names of the PTR answers, as trimLocal leaves them.
unfoldable pub ptr_names : List DnsRecord → List Text
unfolding trim_local
ptr_names [] = []
ptr_names (r ∷ rs) =
    let rest = ptr_names rs in
    if r.record_type == dns_type_ptr then trim_local r.ptr ∷ rest else rest

-- mDNSHostnames: the keys of `seen`
unfoldable pub mdns_hostnames : Dns → List Text
unfolding ptr_names merge_new
mdns_hostnames dns = (merge_new is_empty same_text [] (ptr_names dns.answers)).out

-- The answers that the loop of mDNSServices passes over, and the key that it compares by.
unfoldable pub skip_answer : DnsRecord → Bool
skip_answer r = not (r.record_type == dns_type_srv) || r.srv_port == 0

unfoldable pub service_name_key : DnsRecord → Text
unfolding port_key trim_local
service_name_key r = text "tcp:" ++ port_key r.srv_port ++ text ":" ++ trim_local r.srv_name

unfoldable pub answer_service : Time → DnsRecord → Service
unfolding trim_local
answer_service at r = record {
  protocol = text "tcp";
  port = r.srv_port;
  name = trim_local r.srv_name;
  version = [];
  product = [];
  vendor = [];
  banner = [];
  is_active = false;
  last_seen = at;
  is_client = false;
}

-- mDNSServices
unfoldable pub mdns_services : Dns → Time → List Service
unfolding merge_new skip_answer service_name_key answer_service
mdns_services dns at =
    map (answer_service at) (merge_new skip_answer service_name_key [] dns.answers).out

-- mdnsDeviceTypeFromHostname
unfoldable pub mdns_device_type : Text → Text
unfolding contains_any to_lower
mdns_device_type hostname =
    let h = to_lower hostname in
    if contains_any h (text "printer" ∷ text "officejet" ∷ text "laserjet" ∷ text "pixma" ∷ [])
    then text "printer"
    else if contains_any h
        (text "smart-tv" ∷ text "roku" ∷ text "chromecast" ∷ text "apple-tv" ∷ [])
    then text "smart-tv"
    else if contains_any h (text "nas" ∷ text "synology" ∷ text "qnap" ∷ [])
    then text "nas"
    else if contains_any h (text "router" ∷ text "gateway" ∷ text "openwrt" ∷ [])
    then text "router"
    else []

-- The first device type that a host name gives.
unfoldable pub first_device_type : List Text → Text
unfolding mdns_device_type
first_device_type [] = []
first_device_type (h ∷ hs) =
    let rest = first_device_type hs in
    let dt = mdns_device_type h in if is_empty dt then rest else dt

-- The packet is one of mDNS, to or from the port.
abbrev pub on_port : ℕ → Option Udp → Bool
on_port port none = false
on_port port (some udp) = udp.src_port == port || udp.dst_port == port

abbrev pub response : Option Dns → Option Dns
response none = none
response (some dns) = if dns.qr then some dns else none

unfoldable pub mdns_observation : Time → PacketCtx → Mac → Dns → Observation
unfolding fill_obs_ips mdns_hostnames mdns_services first_device_type bare_observation
mdns_observation at ctx mac dns =
    let names = mdns_hostnames dns in
    record (fill_obs_ips at ctx (bare_observation (text "mdns") at mac)) {
      hostnames = names;
      services = mdns_services dns at;
      device_type = first_device_type names;
    }

-- AnalyzeCtx
unfoldable pub mdns_analyze_ctx : Time → PacketCtx → List Observation
unfolding mdns_observation eth_src_mac observed_at valid
mdns_analyze_ctx now ctx =
    if on_port 5353 ctx.udp
    then when_some (response ctx.dns) (λ dns. when_some (eth_src_mac ctx) (λ mac.
      let obs = mdns_observation (observed_at now ctx) ctx mac dns in
      if valid obs then obs ∷ [] else []))
    else []
