-- ===== src/Analyzer/Registry.antt =====
-- internal/analyzer/registry.go: the analyzers of a registry, one after the other on each packet. An
-- analyzer may keep a state and may panic.
pub mod Laws
use asset_discovery.Analyzer.Dhcpv6.{dhcpv6_analyze_ctx}
use asset_discovery.Analyzer.Ethernet.{EthernetAnalyzer, ethernet_analyze_ctx}
use asset_discovery.Analyzer.Mdns.{mdns_analyze_ctx}
use asset_discovery.Analyzer.PacketCtx.{PacketCtx, arp_analyze_ctx, dhcpv4_analyze_ctx}
use asset_discovery.Analyzer.Ssdp.{UrlParser, ssdp_analyze_ctx}
use asset_discovery.Asset.Types.{Observation}
use asset_discovery.Prelude.{
  All, Bool, Bool-cases, List, Option, Option-cases, [], ap, arith, drop, false, get_elem?,
  if◌then◌else◌, inl, inr, leb, leb→le, length, length-append, length-drop, length-take, lt→ltb,
  ltb, ltb→lt, map, none, not, refl, some, suc, sym, take, take-append-drop, true, zero, ==_iff, ℕ,
  ◌%◌, ◌&&◌, ◌*◌, ◌++◌, ◌+◌, ◌-◌, ◌/◌, ◌<◌, ◌==◌, ◌^◌, ◌||◌, ◌↔◌, ◌∙◌, ◌∷◌, ◌≡◌, ◌≢◌, ◌≤◌, ◌⊎◌,
}
use asset_discovery.Prelude.Time.{Time}

-- What an analyzer makes of a packet of a type P with the state of all analyzers; none for a panic.
abbrev pub Analyzer {ℓ κ} : Type ℓ → Type κ → Type (ℓ ⊔ κ)
Analyzer S P = S → P → Option (List Observation × S)

abbrev pub append_reports {ℓ} :
    {S : Type ℓ} → List Observation → Option (List Observation × S) → Option (List Observation × S)
append_reports obs none = none
append_reports obs (some (rest, s)) = some (obs ++ rest, s)

abbrev pub then_analyze {ℓ} :
    {S : Type ℓ}
    → Option (List Observation × S)
    → (S → Option (List Observation × S))
    → Option (List Observation × S)
then_analyze none k = none
then_analyze (some (obs, s)) k = append_reports obs (k s)

-- AnalyzeCtx
unfoldable pub analyze {ℓ κ} :
    {S : Type ℓ} {P : Type κ} → List (Analyzer S P) → S → P → Option (List Observation × S)
analyze [] s p = some ([], s)
analyze (a ∷ rs) s p = then_analyze (a s p) (λ s'. analyze rs s' p)

-- A packet, and what time.Now returns when it is analyzed.
abbrev pub TimedPacket : Type 0
TimedPacket = Time × PacketCtx

abbrev pub with_state {ℓ} :
    {S : Type ℓ} → S → Option (List Observation) → Option (List Observation × S)
with_state s none = none
with_state s (some obs) = some (obs, s)

-- DefaultRegistry; only the Ethernet analyzer has a state.
unfoldable pub default_registry : UrlParser → List (Analyzer EthernetAnalyzer TimedPacket)
unfolding ethernet_analyze_ctx arp_analyze_ctx dhcpv4_analyze_ctx mdns_analyze_ctx ssdp_analyze_ctx
    dhcpv6_analyze_ctx
default_registry parse_url =
    (λ e p. some (ethernet_analyze_ctx e p.0 p.1))
    ∷ (λ e p. some (arp_analyze_ctx p.0 p.1, e))
    ∷ (λ e p. some (dhcpv4_analyze_ctx p.0 p.1, e))
    ∷ (λ e p. some (mdns_analyze_ctx p.0 p.1, e))
    ∷ (λ e p. some (ssdp_analyze_ctx parse_url p.0 p.1, e))
    ∷ (λ e p. with_state e (dhcpv6_analyze_ctx p.0 p.1))
    ∷ []
