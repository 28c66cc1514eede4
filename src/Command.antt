-- ===== src/Command.antt =====
-- cmd/discovery/main.go: what `run` makes of the database and the configuration before the first
-- packet, with the manager, and the choice of the source.
pub mod Restart
mod Tests
use asset_discovery.Asset.Manager.{
  Manager, load, new_manager, set_hydrator, set_initial_counters, sweep,
}
use asset_discovery.Asset.Shard.{VendorResolver}
use asset_discovery.Asset.Types.{AssetSnapshot}
use asset_discovery.Prelude.{
  All, All-append, All-take, Bool, Bool-cases, Gives, List, Option, Option-cases, [], ap, arith,
  drop, false, get_elem?, if◌then◌else◌, inl, inr, leb, leb→le, length, length-append, length-drop,
  length-take, lt→ltb, ltb, ltb→lt, map, none, not, refl, some, suc, sym, take, take-append-drop,
  true, zero, ==_iff, ℕ, ◌%◌, ◌&&◌, ◌*◌, ◌++◌, ◌+◌, ◌-◌, ◌/◌, ◌<◌, ◌==◌, ◌^◌, ◌||◌, ◌↔◌, ◌∙◌, ◌∷◌,
  ◌≡◌, ◌≢◌, ◌≤◌, ◌⊎◌,
}
use asset_discovery.Prelude.Map.{Map}
use asset_discovery.Prelude.Time.{Duration, Time, neg_part, pos_part, sub_ℕ, wrap_int64}
use asset_discovery.Storage.{Codec, Tables}
use asset_discovery.Storage.Load.{LoadOptions, load_asset_by_mac, load_assets}
use asset_discovery.Storage.Statistics.{Statistics, StatisticsRow, load_last_statistics}

-- What `run` reads of the configuration, the clock and the database: the calls of the driver that
-- fail in LoadAssets, in LoadLastStatistics and in a later LoadAssetByMAC.
pub record Startup : Type 0 where
  pub load_limit : ℕ
  pub load_window : Duration
  pub offline_after : Duration
  pub now : Time
  pub load_fails : ℕ → Bool
  pub statistics_fails : Bool
  pub row_fails : ℕ → Bool

-- The loaded assets are swept at once.
unfoldable pub load_existing : Time → Duration → Manager → Option (List AssetSnapshot) → Manager
unfolding load sweep
load_existing now offline_after m none = m
load_existing now offline_after m (some existing) =
    let (m', n) = load m existing in if ltb 0 n then (sweep m' now offline_after).0 else m'

abbrev pub with_baseline : {F : Type 0} → Manager → Option (Statistics F) → Manager
with_baseline m none = m
with_baseline m (some s) = set_initial_counters m s.packets_received

-- The manager at the first packet, where a database is configured. A window that reaches before the
-- zero time starts there; Validate refuses windows that are not positive.
unfoldable pub start_up :
    {F : Type 0}
    → Option VendorResolver
    → Codec
    → Startup
    → Tables
    → Map (StatisticsRow F)
    → Manager
unfolding load_existing load_assets load_asset_by_mac load_last_statistics set_hydrator
    set_initial_counters
start_up vendor cx st t statistics =
    let opts : LoadOptions = record {
      since = st.now - pos_part st.load_window;
      limit = st.load_limit;
    } in
    let m =
      load_existing st.now st.offline_after (new_manager vendor)
        (load_assets cx st.load_fails opts t) in
    let m' = set_hydrator m (load_asset_by_mac cx st.row_fails t) in
    with_baseline m' (load_last_statistics cx st.statistics_fails statistics)

-- evictAfter: seven times the window where none is configured; the product wraps.
unfoldable pub evict_after_of : Duration → Duration → Duration
unfolding wrap_int64
evict_after_of evict_after load_window =
    if pos_part evict_after == 0 && neg_part evict_after == 0
    then wrap_int64 (sub_ℕ (7 * pos_part load_window) (7 * neg_part load_window))
    else evict_after
