-- ===== src/Pipeline/Tests.antt =====
-- The pipeline at two packets.
use asset_discovery.Analyzer.Ethernet.{EthernetAnalyzer, new_ethernet_analyzer}
use asset_discovery.Analyzer.Registry.{TimedPacket, analyze, default_registry}
use asset_discovery.Analyzer.Tests.Packets.{arp_ctx, no_url}
use asset_discovery.Asset.Manager.{new_manager}
use asset_discovery.Asset.Manager.Run.{new_manager-Sound}
use asset_discovery.Pipeline.{Progress, new_counters, run_pipeline}
use asset_discovery.Pipeline.Counts.{Ran, observations, run_pipeline-Counted}
use asset_discovery.Prelude.{
  All, Bool, Bool-cases, List, Option, Option-cases, [], ap, arith, drop, false, get_elem?, Gives,
  if◌then◌else◌, inl, inr, leb, leb→le, length, length-append, length-drop, length-take, lt→ltb,
  ltb, ltb→lt, map, none, not, refl, some, suc, sym, take, take-append-drop, true, zero, ==_iff, ℕ,
  ◌%◌, ◌&&◌, ◌*◌, ◌++◌, ◌+◌, ◌-◌, ◌/◌, ◌<◌, ◌==◌, ◌^◌, ◌||◌, ◌↔◌, ◌∙◌, ◌∷◌, ◌≡◌, ◌≢◌, ◌≤◌, ◌⊎◌,
}

abbrev start : Progress EthernetAnalyzer
start = record {
  manager = new_manager none;
  counters = new_counters;
  analyzers = new_ethernet_analyzer;
}

abbrev packets : List TimedPacket
packets = (0, arp_ctx) ∷ (0, arp_ctx) ∷ []

six_reports : observations (default_registry no_url) new_ethernet_analyzer packets ≡ some 6
unfolding analyze default_registry asset_discovery.Prelude.Map.lookup
    asset_discovery.Prelude.Map.insert asset_discovery.Asset.Identity.mac_string
    asset_discovery.Prelude.Time.sub_time
six_reports = refl

run_pipeline-Counted_example :
    Gives (Ran new_counters 2 6) (run_pipeline (default_registry no_url) start packets)
run_pipeline-Counted_example =
    run_pipeline-Counted (default_registry no_url) packets start 6 (new_manager-Sound none)
      (omega arith) (omega arith) six_reports
