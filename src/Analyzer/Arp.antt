-- ===== src/Analyzer/Arp.antt =====
-- internal/analyzer/arp.go, with arpOperationName of util.go.

use asset_discovery.Analyzer.Net.{
  bytes_eq, is_broadcast, is_locally_administered, is_unspecified, is_usable, normalize_ipv4, to4,
}
use asset_discovery.Asset.Types.{IpEntry, Mac, Observation, bare_observation, bool, str}
use asset_discovery.Prelude.{
  Bool, List, Option, [], if◌then◌else◌, not, some, true, ℕ, ◌&&◌, ◌++◌, ◌==◌, ◌∷◌,
}
use asset_discovery.Prelude.Map.{Map}
use asset_discovery.Prelude.Text.{Text, is_empty, text, text_eq}
use asset_discovery.Prelude.Time.{Duration, Time, pos}

pub record Arp : Type 0 where
  pub operation : ℕ
  pub source_hw : Mac
  pub source_prot : List ℕ
  pub dst_hw : Mac
  pub dst_prot : List ℕ

abbrev pub arp_request : ℕ
arp_request = 1

abbrev pub arp_reply : ℕ
arp_reply = 2

-- ip.Equal for addresses of four bytes, which the decoder makes of ARP over IPv4. In general an
-- address equals its IPv4-mapped form; `to4` brings both to four bytes.
abbrev pub same_four : Option (List ℕ) → Option (List ℕ) → Bool → Bool
same_four (some a) (some b) other = text_eq a b
same_four _ _ same = same

unfoldable pub ip_equal : List ℕ → List ℕ → Bool
unfolding to4
ip_equal a b = same_four (to4 a) (to4 b) (text_eq a b)

unfoldable pub arp_operation_name : Arp → Text
unfolding ip_equal is_unspecified
arp_operation_name arp =
    let unspecified = is_unspecified arp.source_prot in
    let same_sender = ip_equal arp.source_prot arp.dst_prot && not unspecified in
    if arp.operation == arp_request
    then (if unspecified
        then text "probe"
        else if same_sender
        then text "announce"
        else text "request")
    else if arp.operation == arp_reply
    then (if same_sender then text "gratuitous-reply" else text "reply")
    else text "unknown"

-- An entry for the address, if it is one of IPv4.
abbrev pub ip_entries : Time → Duration → List ℕ → Map IpEntry
ip_entries at lease ip =
    let ip4 = normalize_ipv4 ip in
    if is_empty ip4
    then []
    else (ip4, record { first_seen = at; last_seen = at; lease = lease; is_active = true }) ∷ []

-- newARPObservation
unfoldable pub arp_observation : Time → Text → Mac → List ℕ → Observation
unfolding normalize_ipv4 is_locally_administered
arp_observation at op mac ip = record (bare_observation (text "arp") at mac) {
  ipv4s = ip_entries at (pos 0) ip;
  extra =
      (text "arp_operation", str op)
      ∷ (text "arp_mac_randomized", bool (is_locally_administered mac))
      ∷ [];
}

-- AnalyzeCtx of a packet that has an ARP layer, observed at the time.
unfoldable pub analyze_arp : Time → Arp → List Observation
unfolding arp_operation_name arp_observation is_usable is_broadcast bytes_eq
analyze_arp at arp =
    let op = arp_operation_name arp in
    let source =
      if is_usable arp.source_hw
      then arp_observation at op arp.source_hw arp.source_prot ∷ []
      else [] in
    let target =
      if ((arp.operation == arp_reply && is_usable arp.dst_hw) && not (is_broadcast arp.dst_hw))
        && not (bytes_eq arp.source_hw arp.dst_hw)
      then arp_observation at op arp.dst_hw arp.dst_prot ∷ []
      else [] in
    source ++ target
