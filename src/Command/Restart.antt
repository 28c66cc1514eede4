-- ===== src/Command/Restart.antt =====
-- The manager that `run` starts with.
use asset_discovery.Asset.Lifecycle.Load.{SnapshotLaw}
use asset_discovery.Asset.Manager.{Manager, load, new_manager, set_initial_counters, sweep}
use asset_discovery.Asset.Manager.Run.{
  Call, CallLaw, Sound, hydrates_by, loads, new_manager-Sound, run, run-Sound, step-Sound, sweeps,
}
use asset_discovery.Asset.Shard.{VendorResolver}
use asset_discovery.Asset.Shard.Apply.{Returns}
use asset_discovery.Asset.Types.{AssetSnapshot}
use asset_discovery.Command.{Startup, load_existing, start_up, with_baseline}
use asset_discovery.Prelude.{All, Bool-cases, List, Option, inl, inr, ltb, none, some, ◌-◌}
use asset_discovery.Prelude.Map.{Map}
use asset_discovery.Prelude.Time.{Duration, Time, pos_part}
use asset_discovery.Storage.{Codec, Tables}
use asset_discovery.Storage.Laws.{DbLaw}
use asset_discovery.Storage.Laws.Hydrate.{
  IfSome, load_asset_by_mac-HydratorLaw, load_assets-SnapshotLaw,
}
use asset_discovery.Storage.Load.{LoadOptions, load_asset_by_mac}
use asset_discovery.Storage.Statistics.{Statistics, StatisticsRow}

load_existing-Sound :
    (now : Time) (d : Duration) (m : Manager) (o : Option (List AssetSnapshot))
    → Sound m
    → IfSome (All SnapshotLaw) o
    → Sound (load_existing now d m o)
unfolding load_existing asset_discovery.Asset.Manager.Run.step
load_existing-Sound now d m none s l = s
load_existing-Sound now d m (some ss) s l =
    let m' = (load m ss).0 in
    let s' = step-Sound m (loads ss) l s in
    elim (Bool-cases (ltb 0 (load m ss).1)) [
      | inl e ↦ rw e (step-Sound m' (sweeps now d) tt s')
      | inr e ↦ rw e s'
    ]

with_baseline-Sound :
    {F : Type 0} (m : Manager) (o : Option (Statistics F)) → Sound m → Sound (with_baseline m o)
unfolding set_initial_counters
with_baseline-Sound m none s = s
with_baseline-Sound m (some x) s = record { inv = s.inv; law = s.law }

start_up-Sound :
    {F : Type 0} (vendor : Option VendorResolver) (cx : Codec) (st : Startup) (t : Tables)
    (statistics : Map (StatisticsRow F))
    → DbLaw t
    → Sound (start_up vendor cx st t statistics)
unfolding start_up asset_discovery.Asset.Manager.Run.step
start_up-Sound vendor cx st t statistics d =
    let opts : LoadOptions = record {
      since = st.now - pos_part st.load_window;
      limit = st.load_limit;
    } in
    let loaded =
      load_existing-Sound st.now st.offline_after (new_manager vendor) _ (new_manager-Sound vendor)
        (load_assets-SnapshotLaw cx st.load_fails opts t d) in
    let hydrating =
      step-Sound _ (hydrates_by (load_asset_by_mac cx st.row_fails t))
        (load_asset_by_mac-HydratorLaw cx st.row_fails t d) loaded in
    with_baseline-Sound _ _ hydrating

-- After a start on a database whose rows are lawful, as every batch leaves them, whichever of its
-- queries fail, no sequence of lawful calls panics the manager, and its shards, indices and hydrator
-- satisfy the invariant of a new manager.
pub run-start_up-Sound :
    {F : Type 0} (vendor : Option VendorResolver) (cx : Codec) (st : Startup) (t : Tables)
    (statistics : Map (StatisticsRow F)) (cs : List Call)
    → DbLaw t
    → All CallLaw cs
    → Returns Sound (run (start_up vendor cx st t statistics) cs)
run-start_up-Sound vendor cx st t statistics cs d l =
    run-Sound cs _ l (start_up-Sound vendor cx st t statistics d)
