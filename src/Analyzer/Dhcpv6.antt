-- ===== src/Analyzer/Dhcpv6.antt =====
-- internal/analyzer/dhcpv6.go: what a client says of itself in DHCPv6. An index out of range, which
-- panics in Go, is a value here.
pub mod DnsNames
pub mod Leases
pub mod Reports
use asset_discovery.Analyzer.Ipv6.{byte_at}
use asset_discovery.Analyzer.Names.{trim_local}
use asset_discovery.Analyzer.PacketCtx.{
  Dhcpv6, Dhcpv6Option, PacketCtx, active_entry, eth_src_mac, global_ipv6, observed_at, source,
}
use asset_discovery.Asset.Types.{Any, IpEntry, Mac, Observation, bare_observation, str, valid}
use Prim.Native.Nat.{bit_or}
use asset_discovery.Prelude.{
  All, Bool, Bool-cases, List, Option, Option-cases, [], ap, arith, drop, false, get_elem?,
  if◌then◌else◌, inl, inr, leb, leb→le, length, length-append, length-drop, length-take, lt→ltb,
  ltb, ltb→lt, map, none, not, refl, some, suc, sym, take, take-append-drop, true, zero, ==_iff, ℕ,
  ◌%◌, ◌&&◌, ◌*◌, ◌++◌, ◌+◌, ◌-◌, ◌/◌, ◌<◌, ◌==◌, ◌^◌, ◌||◌, ◌↔◌, ◌∙◌, ◌∷◌, ◌≡◌, ◌≢◌, ◌≤◌, ◌⊎◌,
}
use asset_discovery.Prelude.Map.{Map, insert}
use asset_discovery.Prelude.Text.{Text, is_empty, text}
use asset_discovery.Prelude.Time.{Duration, Time, pos, second}

-- The loop of decodeDNSName after `count` labels. The fuel is enough where it exceeds the length.
unfoldable pub decode_labels : ℕ → ℕ → List ℕ → List Text
decode_labels zero count b = []
decode_labels (suc fuel) count [] = []
decode_labels (suc fuel) count (n ∷ b) =
    let rest = decode_labels fuel (suc count) (drop n b) in
    if (n == 0 || leb 64 n) || (ltb 255 (1 + count + n) || ltb (length b) n)
    then []
    else take n b ∷ rest

unfoldable pub dotted : List Text → Text
dotted [] = []
dotted (l ∷ ls) = 46 ∷ l ++ dotted ls

-- The labels with dots between them.
unfoldable pub join_dots : List Text → Text
unfolding dotted
join_dots [] = []
join_dots (l ∷ ls) = l ++ dotted ls

-- decodeDNSName
unfoldable pub decode_dns_name : List ℕ → Text
unfolding decode_labels join_dots
decode_dns_name b = join_dots (decode_labels (suc (length b)) 0 b)

-- The codes of RFC 8415, RFC 3646 and RFC 4704 that the layer's constants have.
abbrev pub opt_ia_na : ℕ
opt_ia_na = 3

abbrev pub opt_domain_list : ℕ
opt_domain_list = 24

abbrev pub opt_client_fqdn : ℕ
opt_client_fqdn = 39

-- dhcpv6Hostname
unfoldable pub dhcpv6_hostname : List Dhcpv6Option → Text
unfolding decode_dns_name trim_local
dhcpv6_hostname [] = []
dhcpv6_hostname (o ∷ os) =
    let rest = dhcpv6_hostname os in
    if o.code == opt_client_fqdn && ltb 1 (length o.payload)
    then trim_local (decode_dns_name (drop 1 o.payload))
    else rest

-- The loop of dhcpv6Extras
unfoldable pub add_domains : Map Any → List Dhcpv6Option → Map Any
unfolding decode_dns_name trim_local
add_domains extra [] = extra
add_domains extra (o ∷ os) =
    let name = str (trim_local (decode_dns_name o.payload)) in
    add_domains
      (if o.code == opt_domain_list then insert (text "dhcpv6_domain") name extra else extra) os

-- dhcpv6Extras
unfoldable pub dhcpv6_extras : Dhcpv6 → Map Any
unfolding add_domains
dhcpv6_extras d = add_domains ((text "dhcpv6_message_type", str d.msg_type) ∷ []) d.options

-- The number of four bytes from place i on.
abbrev pub uint32_at : ℕ → List ℕ → ℕ
uint32_at i b =
    byte_at i b * 2 ^ 24
    + byte_at (i + 1) b * 2 ^ 16
    + byte_at (i + 2) b * 2 ^ 8
    + byte_at (i + 3) b

-- What a walk over sub-options or options comes to: a number of seconds above zero, nothing, or an
-- index that is out of range. `unfinished` is a walk whose fuel runs out.
pub data Walk : Type 0 where
  found : ℕ → Walk
  nothing : Walk
  panics : Walk
  unfinished : Walk

-- 4 + addrLen + 8 + hi << 8 | lo where addrLen is 16: the shift binds first and the sum before the or.
abbrev pub option_length : List ℕ → ℕ
option_length sub = bit_or (28 + byte_at 28 sub * 256) (byte_at 29 sub)

-- The loop over the sub-options of an IA_NA. The fuel is enough where it exceeds the length.
unfoldable pub address_lifetime : ℕ → List ℕ → Walk
address_lifetime zero sub = unfinished
address_lifetime (suc fuel) sub =
    let rest = address_lifetime fuel (drop (28 + option_length sub) sub) in
    if ltb (length sub) 24
      || (not (byte_at 1 sub * 256 + byte_at 2 sub == 16) || ltb (length sub) 28)
    then nothing
    else if ltb 0 (uint32_at 24 sub)
    then found (uint32_at 24 sub)
    else if ltb (length sub) 30
    then panics
    else if ltb (length sub) (28 + option_length sub)
    then nothing
    else rest

-- The lifetime that one IA_NA option has.
unfoldable pub option_lifetime : List ℕ → Walk
unfolding address_lifetime
option_lifetime payload =
    let sub = drop 12 payload in
    if ltb 0 (uint32_at 8 payload)
    then found (uint32_at 8 payload)
    else address_lifetime (suc (length sub)) sub

abbrev pub or_next : Walk → Walk → Walk
or_next nothing next = next
or_next w next = w

-- dhcpv6IANALifetime, in seconds
unfoldable pub iana_lifetime : List Dhcpv6Option → Walk
unfolding option_lifetime
iana_lifetime [] = nothing
iana_lifetime (o ∷ os) =
    let rest = iana_lifetime os in
    if not (o.code == opt_ia_na) || ltb (length o.payload) 12
    then rest
    else or_next (option_lifetime o.payload) rest

-- The lease; none for a panic.
abbrev pub lease_of : Walk → Option Duration
lease_of (found n) = some (pos (n * second))
lease_of nothing = some (pos 0)
lease_of panics = none
lease_of unfinished = none

abbrev pub active_address : Text → Time → Duration → Map IpEntry
active_address ip at lease = if is_empty ip then [] else (ip, active_entry at lease) ∷ []

abbrev pub one_text : Text → List Text
one_text h = if is_empty h then [] else h ∷ []

unfoldable pub dhcpv6_observation : Time → PacketCtx → Mac → Dhcpv6 → Duration → Observation
unfolding dhcpv6_extras dhcpv6_hostname global_ipv6 bare_observation
dhcpv6_observation at ctx mac d lease = record (bare_observation (text "dhcpv6") at mac) {
  ipv6s = active_address (global_ipv6 source ctx.ipv6) at lease;
  hostnames = one_text (dhcpv6_hostname d.options);
  extra = dhcpv6_extras d;
}

abbrev pub report_lease :
    Time → PacketCtx → Mac → Dhcpv6 → Option Duration → Option (List Observation)
report_lease at ctx mac d none = none
report_lease at ctx mac d (some lease) =
    let obs = dhcpv6_observation at ctx mac d lease in some (if valid obs then obs ∷ [] else [])

abbrev pub report_client : Time → PacketCtx → Option Dhcpv6 → Option Mac → Option (List Observation)
report_client at ctx none mac = some []
report_client at ctx (some d) none = some []
report_client at ctx (some d) (some mac) =
    report_lease at ctx mac d (lease_of (iana_lifetime d.options))

-- AnalyzeCtx; none for a panic
unfoldable pub dhcpv6_analyze_ctx : Time → PacketCtx → Option (List Observation)
unfolding dhcpv6_observation iana_lifetime eth_src_mac observed_at valid
dhcpv6_analyze_ctx now ctx = report_client (observed_at now ctx) ctx ctx.dhcpv6 (eth_src_mac ctx)
