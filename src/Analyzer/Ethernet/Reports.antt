-- ===== src/Analyzer/Ethernet/Reports.antt =====
-- What the Ethernet analyzer reports, the manager takes.
use asset_discovery.Analyzer.Ethernet.{
  EthernetAnalyzer, analyze_destination, analyze_frame, analyze_source, detect_syn,
  ethernet_analyze_ctx, host_observation, is_unicast, source_reports, throttled, when_valid,
}
use asset_discovery.Analyzer.Net.{is_usable}
use asset_discovery.Analyzer.PacketCtx.{Ethernet, Ip, PacketCtx, observed_at, source}
use asset_discovery.Analyzer.Valid.{Reports, usable_length, usable_nonempty}
use asset_discovery.Asset.Identity.{mac_string}
use asset_discovery.Asset.Types.{Mac, Observation, Service, bare_observation, valid}
use asset_discovery.Prelude.{
  All-append, All, Bool, Bool-cases, List, Option, arith, inl, inr, none, not, refl, some, true,
  false, ℕ, ◌&&◌, ◌≡◌, ◌≢◌,
}
use asset_discovery.Prelude.Map.{lookup}
use asset_discovery.Prelude.Text.{is_empty, text}
use asset_discovery.Prelude.Time.{Time}

module _ (at : Time) (mac : Mac) (ctx : PacketCtx) (stamped : at ≢ 0)
    (usable : is_usable mac ≡ true) where
  host_observation-Reports :
      (address : Ip → List ℕ) → Reports at (host_observation address at mac ctx)
  unfolding host_observation valid bare_observation is_empty
  host_observation-Reports address = record {
    taken = ground (arith, usable_nonempty mac usable);
    address = usable_length mac usable;
    time = refl;
  }

  bare-Reports : Reports at (bare_observation (text "ethernet") at mac)
  unfolding valid bare_observation is_empty
  bare-Reports = record {
    taken = ground (arith, usable_nonempty mac usable);
    address = usable_length mac usable;
    time = refl;
  }

  when_valid-Reports :
      (address : Ip → List ℕ) → All (Reports at) (when_valid (host_observation address at mac ctx))
  when_valid-Reports address = let h = host_observation-Reports address in rw h.taken (h, tt)

  -- Services do not matter to the manager's test.
  with_services-Reports :
      (svcs : List Service) (o : Observation)
      → Reports at o
      → Reports at (record o { services = svcs })
  unfolding valid
  with_services-Reports svcs o h = record { taken = h.taken; address = h.address; time = h.time }

  source_reports-Reports :
      (held : Bool) (svc : Option Service) → All (Reports at) (source_reports at mac ctx held svc)
  unfolding source_reports
  source_reports-Reports held (some svc) =
      elim (Bool-cases (not held && valid (host_observation source at mac ctx))) [
        | inl e ↦ rw e (with_services-Reports _ _ (host_observation-Reports source), tt)
        | inr e ↦ rw e (with_services-Reports _ _ bare-Reports, tt)
      ]
  source_reports-Reports true none = tt
  source_reports-Reports false none = when_valid-Reports source

module _ (at : Time) (ctx : PacketCtx) (stamped : at ≢ 0) where
  analyze_source-Reports :
      (e : EthernetAnalyzer) (mac : Mac) → All (Reports at) (analyze_source e at ctx mac).0
  unfolding analyze_source
  analyze_source-Reports e mac = elim (Bool-cases (is_usable mac)) [
    | inl u ↦ rw u (
        source_reports-Reports at mac ctx stamped u
          (throttled e.throttle_after at (lookup (mac_string mac) e.last_emit)) (detect_syn at ctx))
    | inr u ↦ rw u tt
  ]

  analyze_destination-Reports :
      (e : EthernetAnalyzer) (mac : Mac) → All (Reports at) (analyze_destination e at ctx mac).0
  unfolding analyze_destination
  analyze_destination-Reports e mac =
      elim (Bool-cases (
        (is_unicast mac && is_usable mac)
        && not (throttled e.throttle_after at (lookup (mac_string mac) e.last_dst_emit)))) [
          | inl u ↦ rw u (
              when_valid-Reports at mac ctx stamped (ground (arith, u))
                asset_discovery.Analyzer.PacketCtx.destination)
          | inr u ↦ rw u tt
        ]

  analyze_frame-Reports :
      (e : EthernetAnalyzer) (frame : Option Ethernet)
      → All (Reports at) (analyze_frame e at ctx frame).0
  analyze_frame-Reports e none = tt
  analyze_frame-Reports e (some eth) =
      let (from, e') = analyze_source e at ctx eth.src_mac in
      All-append (Reports at) from _ (analyze_source-Reports e eth.src_mac)
        (analyze_destination-Reports e' eth.dst_mac)

pub ethernet_analyze_ctx-Reports :
    (e : EthernetAnalyzer) (now : Time) (ctx : PacketCtx)
    → observed_at now ctx ≢ 0
    → All (Reports (observed_at now ctx)) (ethernet_analyze_ctx e now ctx).0
unfolding ethernet_analyze_ctx
ethernet_analyze_ctx-Reports e now ctx h =
    analyze_frame-Reports (observed_at now ctx) ctx h e ctx.ethernet
