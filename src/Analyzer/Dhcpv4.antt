-- ===== src/Analyzer/Dhcpv4.antt =====
-- internal/analyzer/dhcp.go, with dhcpMessageTypeName of util.go.
use asset_discovery.Analyzer.Arp.{ip_entries}
use asset_discovery.Analyzer.Dhcp.{
  Dhcpv4, dns_servers, opt_class_id, opt_domain_name, opt_hostname, opt_lease_time,
  opt_message_type, opt_params_request, opt_relay_info, opt_request_ip, opt_server_id, option_bytes,
  option_ipv4, option_uint16,
}
use asset_discovery.Analyzer.Net.{is_usable, normalize_ipv4}
use asset_discovery.Asset.Infer.{contains_any}
use asset_discovery.Asset.Types.{Any, Observation, bare_observation, bytes, str, strs}
use asset_discovery.Prelude.{
  Bool, List, [], if◌then◌else◌, not, suc, take, zero, ℕ, ◌%◌, ◌*◌, ◌++◌, ◌+◌, ◌/◌, ◌==◌, ◌^◌, ◌||◌,
  ◌∷◌,
}
use asset_discovery.Prelude.Map.{Map, insert}
use asset_discovery.Prelude.Text.{Text, contains, has_prefix, is_empty, text, to_lower}
use asset_discovery.Prelude.Time.{Duration, Time, pos, second}

-- dhcpv4Lease: four bytes, the highest first, as seconds
abbrev pub lease_of : List ℕ → Duration
lease_of (a ∷ b ∷ c ∷ d ∷ bs) = pos ((a * 2 ^ 24 + b * 2 ^ 16 + c * 2 ^ 8 + d) * second)
lease_of _ = pos 0

unfoldable pub dhcpv4_lease : Dhcpv4 → Duration
unfolding option_bytes
dhcpv4_lease d = lease_of (option_bytes opt_lease_time d)

-- selectDHCPv4IP
unfoldable pub select_ip : Dhcpv4 → List ℕ
unfolding normalize_ipv4 option_ipv4
select_ip d =
    let requested = option_ipv4 opt_request_ip d in
    if not (is_empty (normalize_ipv4 d.your_client_ip))
    then d.your_client_ip
    else if not (is_empty (normalize_ipv4 requested))
    then requested
    else if not (is_empty (normalize_ipv4 d.client_ip))
    then d.client_ip
    else []

unfoldable pub message_type_name : ℕ → Text
message_type_name t =
    if t == 1
    then text "discover"
    else if t == 2
    then text "offer"
    else if t == 3
    then text "request"
    else if t == 4
    then text "decline"
    else if t == 5
    then text "ack"
    else if t == 6
    then text "nak"
    else if t == 7
    then text "release"
    else if t == 8
    then text "inform"
    else text "unknown"

-- The loop of appendUint, with three bytes of room: a byte that has more digits has no room.
unfoldable pub uint_digits : ℕ → ℕ → Text → Text
uint_digits zero v out = out
uint_digits (suc room) v out =
    let rest = uint_digits room (v / 10) ((48 + v % 10) ∷ out) in if v == 0 then out else rest

unfoldable pub append_uint : Text → ℕ → Text
unfolding uint_digits
append_uint b v = if v == 0 then b ++ text "0" else b ++ uint_digits 3 v []

-- The loop of paramRequestListFingerprint after the first code.
unfoldable pub fingerprint_rest : Text → List ℕ → Text
unfolding append_uint
fingerprint_rest out [] = out
fingerprint_rest out (c ∷ cs) = fingerprint_rest (append_uint (out ++ text ",") c) cs

abbrev pub fingerprint_codes : List ℕ → Text
fingerprint_codes [] = []
fingerprint_codes (c ∷ cs) = fingerprint_rest (append_uint [] c) cs

abbrev pub max_codes : ℕ
max_codes = 16

unfoldable pub fingerprint : List ℕ → Text
unfolding fingerprint_rest append_uint
fingerprint pri = fingerprint_codes (take max_codes pri)

-- The names of the servers that are IPv4 addresses.
unfoldable pub server_names : List (List ℕ) → List Text
unfolding normalize_ipv4
server_names [] = []
server_names (ip ∷ ips) =
    let rest = server_names ips in
    let s = normalize_ipv4 ip in if is_empty s then rest else s ∷ rest

-- m[k] = v where the test holds
abbrev pub put_if : Bool → Text → Any → Map Any → Map Any
put_if c k v m = if c then insert k v m else m

unfoldable pub dhcpv4_extras : Dhcpv4 → Map Any
unfolding message_type_name option_bytes option_uint16 option_ipv4 dns_servers server_names
dhcpv4_extras d =
    let class_id = option_bytes opt_class_id d in
    let server = normalize_ipv4 (option_ipv4 opt_server_id d) in
    let names = server_names (dns_servers d) in
    let domain = option_bytes opt_domain_name d in
    let pri = option_bytes opt_params_request d in
    let relay = option_bytes opt_relay_info d in
    let m0 =
      insert (text "dhcpv4_message_type")
        (str (message_type_name (option_uint16 opt_message_type d))) [] in
    let m1 = put_if (not (is_empty class_id)) (text "dhcpv4_vendor_class") (str class_id) m0 in
    let m2 = put_if (not (is_empty server)) (text "dhcpv4_server") (str server) m1 in
    let m3 = put_if (not (is_empty names)) (text "dhcpv4_dns_servers") (strs names) m2 in
    let m4 = put_if (not (is_empty domain)) (text "dhcpv4_domain") (str domain) m3 in
    let m5 =
      put_if (not (is_empty pri)) (text "dhcpv4_param_request_list") (str (fingerprint pri)) m4 in
    put_if (not (is_empty relay)) (text "dhcpv4_relay_agent") (bytes relay) m5

-- dhcpv4DeviceTypeAndOS
unfoldable pub device_type_and_os : Text → Text → Text × Text
unfolding contains_any
device_type_and_os hostname vendor_class =
    let h = to_lower hostname in
    let vc = to_lower vendor_class in
    if has_prefix h (text "android-")
      || (contains h (text ".android") || contains h (text "android"))
    then (text "mobile", text "android")
    else if has_prefix h (text "iphone")
        || (has_prefix h (text "ipad") || has_prefix h (text "ipod"))
    then (text "mobile", text "ios")
    else if contains h (text "macbook") || contains h (text "imac")
    then (text "computer", text "macos")
    else if contains h (text "windows-")
        || (has_prefix h (text "desktop-") || has_prefix h (text "pc-"))
    then (text "computer", text "windows")
    else if contains_any vc (text "msft 5.0" ∷ text "msft 6.0" ∷ text "msft 9." ∷ [])
    then (text "computer", text "windows")
    else if contains_any vc (text "udhcpc" ∷ text "dhclient" ∷ text "dhcpcd" ∷ [])
    then ([], text "linux")
    else ([], [])

-- AnalyzeCtx of a packet that has a DHCPv4 layer, observed at the time.
unfoldable pub analyze_dhcpv4 : Time → Dhcpv4 → List Observation
unfolding select_ip dhcpv4_lease dhcpv4_extras device_type_and_os is_usable
analyze_dhcpv4 at d =
    let hostname = option_bytes opt_hostname d in
    let (dt, os_name) = device_type_and_os hostname (option_bytes opt_class_id d) in
    if is_usable d.client_hw
    then record (bare_observation (text "dhcpv4") at d.client_hw) {
      extra = dhcpv4_extras d;
      hostnames = if is_empty hostname then [] else hostname ∷ [];
      ipv4s = ip_entries at (dhcpv4_lease d) (select_ip d);
      device_type = dt;
      os = os_name;
    }
      ∷ []
    else []
