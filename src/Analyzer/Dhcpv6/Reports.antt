-- ===== src/Analyzer/Dhcpv6/Reports.antt =====
-- What the DHCPv6 analyzer reports.
use asset_discovery.Analyzer.Dhcpv6.{
  dhcpv6_analyze_ctx, dhcpv6_observation, report_client, report_lease,
}
use asset_discovery.Analyzer.Mdns.Laws.{eth_src_mac-usable}
use asset_discovery.Analyzer.PacketCtx.{Dhcpv6, PacketCtx, eth_src_mac, observed_at}
use asset_discovery.Analyzer.Valid.{Reports, when_valid-Reports}
use asset_discovery.Asset.Types.{Mac, Observation, bare_observation}
use asset_discovery.Prelude.{All, List, Option, [], arith, none, refl, some, ◌≡◌}
use asset_discovery.Prelude.Time.{Duration, Time}

report_lease-Reports :
    (at : Time) (ctx : PacketCtx) (mac : Mac) (d : Dhcpv6) (lease : Option Duration)
    (obs : List Observation)
    → eth_src_mac ctx ≡ some mac
    → report_lease at ctx mac d lease ≡ some obs
    → All (Reports at) obs
unfolding dhcpv6_observation bare_observation
report_lease-Reports at ctx mac d none obs m e = cc
report_lease-Reports at ctx mac d (some lease) obs m e =
    mathlib.Core.Path.subst (All (Reports at)) (ground (arith, e)) (
      when_valid-Reports at (dhcpv6_observation at ctx mac d lease) (eth_src_mac-usable ctx mac m)
        refl)

-- Where the DHCPv6 analyzer returns, the manager takes each observation.
pub dhcpv6_analyze_ctx-Reports :
    (now : Time) (ctx : PacketCtx) (obs : List Observation)
    → dhcpv6_analyze_ctx now ctx ≡ some obs
    → All (Reports (observed_at now ctx)) obs
unfolding dhcpv6_analyze_ctx
dhcpv6_analyze_ctx-Reports now ctx obs e = go ctx.dhcpv6 (eth_src_mac ctx) refl e
  where
    go :
        (d : Option Dhcpv6) (mac : Option Mac)
        → eth_src_mac ctx ≡ mac
        → report_client (observed_at now ctx) ctx d mac ≡ some obs
        → All (Reports (observed_at now ctx)) obs
    go none mac m e =
        mathlib.Core.Path.subst (All (Reports (observed_at now ctx))) {x = []} (ground (arith, e))
          tt
    go (some d) none m e =
        mathlib.Core.Path.subst (All (Reports (observed_at now ctx))) {x = []} (ground (arith, e))
          tt
    go (some d) (some mac) m e = report_lease-Reports (observed_at now ctx) ctx mac d _ obs m e
