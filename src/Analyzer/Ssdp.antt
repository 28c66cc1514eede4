-- ===== src/Analyzer/Ssdp.antt =====
-- internal/analyzer/ssdp.go: what hosts say of themselves in SSDP. net/url is a parameter: the parser of
-- a URL, of which the host name, the port and the scheme are read. A payload of UDP is shorter than the
-- longest line that the scanner takes.
pub mod Colons
pub mod Laws
use asset_discovery.Analyzer.Mdns.{on_port}
use asset_discovery.Analyzer.Names.{cut_at, or_whole, split_kv}
use asset_discovery.Analyzer.PacketCtx.{
  PacketCtx, Udp, eth_src_mac, fill_obs_ips, observed_at, when_some,
}
use asset_discovery.Asset.Identity.{get_or_empty}
use asset_discovery.Asset.Merge.{has}
use asset_discovery.Asset.Types.{Any, Mac, Observation, Service, bare_observation, null, str, valid}
use asset_discovery.Prelude.{
  Bool, List, Option, [], false, if◌then◌else◌, leb, ltb, none, not, some, true, ℕ, ◌&&◌, ◌*◌, ◌+◌,
  ◌-◌, ◌==◌, ◌||◌, ◌∷◌,
}
use asset_discovery.Prelude.Map.{Map, insert, lookup}
use asset_discovery.Prelude.Text.{
  Text, contains, fields, has_prefix, is_empty, text, text_eq, to_lower, trim_space,
}
use asset_discovery.Prelude.Time.{Time}
use mathlib.Core.List.{reverse}

-- What url.Parse makes of a text that it accepts.
pub record Url : Type 0 where
  pub scheme : Text
  pub hostname : Text
  pub port : Text

abbrev pub UrlParser : Type 0
UrlParser = Text → Option Url

-- The lines of a bufio.Scanner, `word` being the current one, its last byte first.
unfoldable pub lines_from : Text → Text → List Text
lines_from word [] = if is_empty word then [] else reverse word ∷ []
lines_from word (c ∷ cs) =
    let here = lines_from [] cs in
    let on = lines_from (c ∷ word) cs in if c == 10 then reverse word ∷ here else on

unfoldable pub drop_line_ends : Text → Text
drop_line_ends [] = []
drop_line_ends (c ∷ s) = let rest = drop_line_ends s in if c == 13 || c == 10 then rest else c ∷ s

-- strings.TrimRight(line, "\r\n")
unfoldable pub trim_line : Text → Text
unfolding drop_line_ends
trim_line line = reverse (drop_line_ends (reverse line))

abbrev pub put_missing : Map Text → Text → Text → Option Text → Map Text
put_missing hs k v none = insert k v hs
put_missing hs k v (some old) = hs

abbrev pub add_pair : Map Text → Option (Text × Text) → Map Text
add_pair hs none = hs
add_pair hs (some (k, v)) =
    let key = to_lower (trim_space k) in
    if is_empty key then hs else put_missing hs key v (lookup key hs)

unfoldable pub add_header : Map Text → Text → Map Text
unfolding split_kv
add_header hs line = add_pair hs (split_kv line)

-- The loop of parseSSDPHeaders; a blank line ends it, and the first line is passed over.
unfoldable pub header_loop : Bool → Map Text → List Text → Map Text
unfolding add_header trim_line
header_loop first hs [] = hs
header_loop first hs (l ∷ ls) =
    let line = trim_line l in
    let rest = header_loop false (if first then hs else add_header hs line) ls in
    if is_empty line then hs else rest

unfoldable pub parse_ssdp_headers : List ℕ → Map Text
unfolding header_loop lines_from
parse_ssdp_headers payload = header_loop true [] (lines_from [] payload)

-- m[k] == nil
abbrev pub is_nil : Option Any → Bool
is_nil none = true
is_nil (some null) = true
is_nil (some v) = false

abbrev pub os_names : List Text
os_names = text "linux" ∷ text "freebsd" ∷ text "openbsd" ∷ text "netbsd" ∷ text "darwin" ∷ []

-- The body of the loop of applyServerScalars.
unfoldable pub apply_token : Observation → Text → Observation
unfolding cut_at has
apply_token obs tok =
    let (name, ver) = or_whole tok (cut_at 47 tok) in
    let versioned = not (is_empty ver) && is_nil (lookup (text "ssdp_os_version") obs.extra) in
    if is_empty name
    then obs
    else if has (to_lower name) os_names
    then (if is_empty obs.os
        then record obs {
          os = name;
          extra =
              if versioned then insert (text "ssdp_os_version") (str ver) obs.extra else obs.extra;
        }
        else obs)
    else if text_eq (to_lower name) (text "upnp")
    then obs
    else if is_empty obs.model && not (is_empty ver)
    then record obs { model = name }
    else obs

unfoldable pub apply_tokens : Observation → List Text → Observation
unfolding apply_token
apply_tokens obs [] = obs
apply_tokens obs (t ∷ ts) = apply_tokens (apply_token obs t) ts

unfoldable pub apply_server_scalars : Observation → Text → Observation
unfolding apply_tokens fields
apply_server_scalars obs server = if is_empty server then obs else apply_tokens obs (fields server)

unfoldable pub ssdp_device_type : Text → Text → Text
ssdp_device_type st nt =
    let v = if is_empty st then nt else st in
    let lower = to_lower v in
    if is_empty v
    then []
    else if contains lower (text "internetgateway")
    then text "router"
    else if contains lower (text "mediaserver")
    then text "nas"
    else if contains lower (text "mediarenderer")
    then text "smart-tv"
    else if contains lower (text "printer")
    then text "printer"
    else if contains lower (text "basic")
    then text "upnp-device"
    else []

-- The number that decimal digits are, the ones before them being acc.
unfoldable pub digits_value : ℕ → Text → Option ℕ
digits_value acc [] = some acc
digits_value acc (c ∷ cs) =
    let rest = digits_value (acc * 10 + (c - 48)) cs in if leb 48 c && leb c 57 then rest else none

abbrev pub unsigned_value : Text → Option ℕ
unsigned_value s = if is_empty s then none else digits_value 0 s

abbrev pub port_in_range : Option ℕ → Option ℕ
port_in_range none = none
port_in_range (some n) = if n == 0 || ltb 65535 n then none else some n

-- strconv.Atoi and the test of its result: with a minus sign it is an error or not positive.
unfoldable pub port_number : Text → Option ℕ
unfolding digits_value
port_number [] = none
port_number (c ∷ cs) = port_in_range (unsigned_value (if c == b'+' then cs else c ∷ cs))

abbrev pub upnp_service : Time → Url → Option ℕ → Option Service
upnp_service at u none = none
upnp_service at u (some n) = some (record {
  protocol = text "tcp";
  port = n;
  name = if is_empty u.scheme then text "upnp" else u.scheme;
  version = [];
  product = [];
  vendor = [];
  banner = [];
  is_active = false;
  last_seen = at;
  is_client = false;
})

abbrev pub located_service : Time → Option Url → Option Service
located_service at none = none
located_service at (some u) =
    if is_empty u.hostname then none else upnp_service at u (port_number u.port)

unfoldable pub ssdp_service : UrlParser → Map Text → Time → Option Service
unfolding port_number
ssdp_service parse_url headers at =
    let loc = get_or_empty (lookup (text "location") headers) in
    if is_empty loc then none else located_service at (parse_url loc)

abbrev pub one_service : Option Service → List Service
one_service none = []
one_service (some svc) = svc ∷ []

unfoldable pub ssdp_observation : UrlParser → Time → PacketCtx → Mac → Map Text → Observation
unfolding apply_server_scalars ssdp_device_type ssdp_service fill_obs_ips bare_observation
ssdp_observation parse_url at ctx mac headers =
    let obs = fill_obs_ips at ctx (bare_observation (text "ssdp") at mac) in
    let header = λ (k : Text). get_or_empty (lookup k headers) in
    record (apply_server_scalars obs (header (text "server"))) {
      device_type = ssdp_device_type (header (text "st")) (header (text "nt"));
      services = one_service (ssdp_service parse_url headers at);
    }

abbrev pub payload_of : Option Udp → List ℕ
payload_of none = []
payload_of (some udp) = udp.payload

abbrev pub is_ssdp_like : List ℕ → Bool
is_ssdp_like payload =
    (has_prefix payload (text "NOTIFY ") || has_prefix payload (text "HTTP/"))
    && not (has_prefix payload (text "M-SEARCH "))

-- AnalyzeCtx
unfoldable pub ssdp_analyze_ctx : UrlParser → Time → PacketCtx → List Observation
unfolding parse_ssdp_headers ssdp_observation eth_src_mac observed_at valid
ssdp_analyze_ctx parse_url now ctx =
    let payload = payload_of ctx.udp in
    let headers = parse_ssdp_headers payload in
    if (on_port 1900 ctx.udp && is_ssdp_like payload) && not (is_empty headers)
    then when_some (eth_src_mac ctx) (λ mac.
      let obs = ssdp_observation parse_url (observed_at now ctx) ctx mac headers in
      if valid obs then obs ∷ [] else [])
    else []
