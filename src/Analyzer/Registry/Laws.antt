-- ===== src/Analyzer/Registry/Laws.antt =====
-- What the analyzers of the default registry report together.
use asset_discovery.Analyzer.Dhcpv6.{dhcpv6_analyze_ctx}
use asset_discovery.Analyzer.Dhcpv6.Reports.{dhcpv6_analyze_ctx-Reports}
use asset_discovery.Analyzer.Ethernet.{EthernetAnalyzer, ethernet_analyze_ctx}
use asset_discovery.Analyzer.Ethernet.Reports.{ethernet_analyze_ctx-Reports}
use asset_discovery.Analyzer.Mdns.{mdns_analyze_ctx}
use asset_discovery.Analyzer.Mdns.Laws.{All-when_some, mdns_analyze_ctx-Reports}
use asset_discovery.Analyzer.PacketCtx.{PacketCtx, arp_analyze_ctx, dhcpv4_analyze_ctx, observed_at}
use asset_discovery.Analyzer.Registry.{analyze, default_registry}
use asset_discovery.Analyzer.Ssdp.{UrlParser, ssdp_analyze_ctx}
use asset_discovery.Analyzer.Ssdp.Laws.{ssdp_analyze_ctx-Reports}
use asset_discovery.Analyzer.Valid.{Reports, analyze_arp-Reports, analyze_dhcpv4-Reports}
use asset_discovery.Prelude.{All-append, All, Option-cases, [], Gives, inl, inr, none, ◌≢◌}
use asset_discovery.Prelude.Time.{Time}

arp_analyze_ctx-Reports :
    (now : Time) (ctx : PacketCtx)
    → observed_at now ctx ≢ 0
    → All (Reports (observed_at now ctx)) (arp_analyze_ctx now ctx)
unfolding arp_analyze_ctx
arp_analyze_ctx-Reports now ctx t =
    All-when_some (Reports (observed_at now ctx)) ctx.arp _
      (λ a e. analyze_arp-Reports (observed_at now ctx) a t)

dhcpv4_analyze_ctx-Reports :
    (now : Time) (ctx : PacketCtx)
    → observed_at now ctx ≢ 0
    → All (Reports (observed_at now ctx)) (dhcpv4_analyze_ctx now ctx)
unfolding dhcpv4_analyze_ctx
dhcpv4_analyze_ctx-Reports now ctx t =
    All-when_some (Reports (observed_at now ctx)) ctx.dhcpv4 _
      (λ d e. analyze_dhcpv4-Reports (observed_at now ctx) d t)

-- For a packet with a time, the default registry returns, in whatever state the Ethernet analyzer is, unless
-- the DHCPv6 analyzer panics; each observation of all its analyzers is then one that the manager takes, of
-- a hardware address of six bytes and of the packet's time.
pub default_registry-Reports :
    (parse_url : UrlParser) (e : EthernetAnalyzer) (now : Time) (ctx : PacketCtx)
    → observed_at now ctx ≢ 0
    → dhcpv6_analyze_ctx now ctx ≢ none
    → Gives
        (λ r. All (Reports (observed_at now ctx)) r.0)
        (analyze (default_registry parse_url) e (now, ctx))
unfolding analyze default_registry
default_registry-Reports parse_url e now ctx t returns =
    elim (Option-cases (dhcpv6_analyze_ctx now ctx)) [
      | inl none_there ↦ absurd (returns none_there)
      | inr (last, eq) ↦
          let R = Reports (observed_at now ctx) in
          rw eq (
            All-append R (ethernet_analyze_ctx e now ctx).0 _
              (ethernet_analyze_ctx-Reports e now ctx t)
              (All-append R (arp_analyze_ctx now ctx) _ (arp_analyze_ctx-Reports now ctx t) (
                All-append R (dhcpv4_analyze_ctx now ctx) _ (dhcpv4_analyze_ctx-Reports now ctx t) (
                  All-append R (mdns_analyze_ctx now ctx) _ (mdns_analyze_ctx-Reports now ctx) (
                    All-append R (ssdp_analyze_ctx parse_url now ctx) _
                      (ssdp_analyze_ctx-Reports parse_url now ctx)
                      (All-append R last [] (dhcpv6_analyze_ctx-Reports now ctx last eq) tt))))))
    ]
