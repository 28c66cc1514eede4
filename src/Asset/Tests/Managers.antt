-- ===== src/Asset/Tests/Managers.antt =====
-- The calls of the manager at concrete states.
use asset_discovery.Asset.Interleaved.{Event, calls, locks, resolves, run_schedule}
use asset_discovery.Asset.Interleaved.Safety.{Safe, run_schedule-new_manager-Safe}
use asset_discovery.Asset.Identity.{resolve}
use asset_discovery.Asset.Identity.{generate_asset_id}
use asset_discovery.Asset.Lifecycle.{is_stale}
use asset_discovery.Asset.Types.{asset_from_snapshot, valid}
use asset_discovery.Prelude.Map.{insert}
use asset_discovery.Prelude.Text.{is_empty, text_eq, to_lower}
use asset_discovery.Asset.Identity.{mac_key, sharded_resolve}
use asset_discovery.Asset.Lifecycle.{count_status, drain_shard, evict_cell, sweep_shard}
use asset_discovery.Asset.Lifecycle.Evict.{evict_loses_dirty}
use asset_discovery.Asset.Lifecycle.Sweep.{sweep_shard_counts}
use asset_discovery.Asset.Manager.{apply_resolved, cell, evict_stale}
use asset_discovery.Asset.Merge.{has}
use asset_discovery.Asset.Race.{create_during_apply, evict_during_apply}
use asset_discovery.Asset.Race.Calls.{asset_of, overlapping, one_by_one}
use asset_discovery.Asset.Shard.{Cell, is_offline, is_online, nil_dereference}
use asset_discovery.Asset.Shard.Apply.{CellInv-same}
use asset_discovery.Asset.Types.{Asset, Observation}
use asset_discovery.Prelude.{Gives, List, All, some, true, ◌+◌, ◌≡◌, ◌≢◌}
use asset_discovery.Prelude.Map.{lookup}
use asset_discovery.Prelude.Time.{sub_time}
use mathlib.Core.List.{Mem}
use asset_discovery.Asset.Identity.{shard_index}
use asset_discovery.Asset.Manager.{Manager, apply, load, new_manager}
use asset_discovery.Asset.Manager.Apply.{AppliedTo, ManagerInv, apply-AppliedTo}
use asset_discovery.Asset.Manager.Run.{
  Sound, new_manager-Sound, applies, drains, loads, run, run-new_manager-Sound, step, sweeps,
}
use asset_discovery.Asset.Shard.Apply.{Returns}
use asset_discovery.Asset.Tests.{laptop, laptop_mac, laptop_seen}
use asset_discovery.Asset.Types.{AssetSnapshot, offline, snapshot}
use asset_discovery.Prelude.{[], none, refl, ◌∷◌}
use asset_discovery.Prelude.Time.{pos}

abbrev laptop_row : AssetSnapshot
laptop_row = snapshot laptop

-- A manager that has loaded one asset.
abbrev loaded : Manager
loaded = (load (new_manager none) (laptop_row ∷ [])).0

abbrev offline_row : AssetSnapshot
offline_row = record laptop_row { status = offline }

-- One that has loaded it offline.
abbrev loaded_offline : Manager
loaded_offline = (load (new_manager none) (offline_row ∷ [])).0

run-new_manager-Sound_example : Returns Sound (
    run
      (new_manager none)
      (loads (laptop_row ∷ []) ∷ applies laptop_seen ∷ sweeps 100 (pos 50) ∷ drains ∷ []))
unfolding generate_asset_id snapshot
run-new_manager-Sound_example =
    run-new_manager-Sound none
      (loads (laptop_row ∷ []) ∷ applies laptop_seen ∷ sweeps 100 (pos 50) ∷ drains ∷ [])
      ((refl, tt), (tt, (tt, (tt, tt))))

loaded-ManagerInv : ManagerInv loaded
unfolding run step generate_asset_id snapshot
loaded-ManagerInv = (run-new_manager-Sound none (loads (laptop_row ∷ []) ∷ []) ((refl, tt), tt)).inv

loaded_offline-ManagerInv : ManagerInv loaded_offline
unfolding run step generate_asset_id snapshot
loaded_offline-ManagerInv =
    (run-new_manager-Sound none (loads (offline_row ∷ []) ∷ []) ((refl, tt), tt)).inv

apply-AppliedTo_example : Returns (AppliedTo loaded laptop_seen) (apply loaded laptop_seen)
unfolding load valid is_empty
apply-AppliedTo_example = apply-AppliedTo loaded laptop_seen loaded-ManagerInv tt refl

-- The laptop's shard of a manager.
abbrev laptop_cell : Manager → Cell
laptop_cell m = cell m (shard_index laptop_mac)

sweep_shard_counts_example :
    let (sh', n) = sweep_shard 100 (pos 50) (laptop_cell loaded).shard in
    (count_status is_offline sh'.assets
      ≡ count_status is_offline (laptop_cell loaded).shard.assets + n)
    × (count_status is_online sh'.assets + n
        ≡ count_status is_online (laptop_cell loaded).shard.assets)
sweep_shard_counts_example = sweep_shard_counts 100 (pos 50) (laptop_cell loaded).shard

-- The manager, and the laptop in it, after the laptop came in offline and was marked dirty.
abbrev dirty_cell : Cell
dirty_cell = record (laptop_cell loaded_offline) {
  shard = record (laptop_cell loaded_offline).shard { dirty = laptop.id ∷ [] };
}

evict_loses_dirty_example :
    Mem (snapshot (record laptop { status = offline })) (drain_shard dirty_cell.shard).0
    × All (λ s. s.id ≢ laptop.id) (drain_shard (evict_cell 100 (pos 50) dirty_cell).0.shard).0
    × (has laptop.id (evict_cell 100 (pos 50) dirty_cell).0.shard.dirty ≡ true)
unfolding lookup load is_empty snapshot generate_asset_id mac_key insert text_eq asset_from_snapshot
    to_lower has is_stale sub_time
evict_loses_dirty_example =
    evict_loses_dirty (shard_index laptop_mac) 100 (pos 50) dirty_cell laptop.id
      (record laptop { status = offline })
      (CellInv-same (shard_index laptop_mac) (laptop_cell loaded_offline) dirty_cell refl refl
        (loaded_offline-ManagerInv (shard_index laptop_mac)))
      refl refl refl

evict_during_apply_example :
    apply_resolved
      (evict_stale loaded_offline 100 (pos 50)).0
      laptop_seen
      (sharded_resolve loaded_offline.resolver laptop_mac)
    ≡ nil_dereference
unfolding sharded_resolve resolve lookup load is_empty snapshot generate_asset_id mac_key
    asset_from_snapshot insert text_eq to_lower is_stale sub_time
evict_during_apply_example =
    evict_during_apply loaded_offline laptop_seen 100 (pos 50) laptop.id
      (record laptop { status = offline }) loaded_offline-ManagerInv refl refl refl

abbrev seen_later : Observation
seen_later = record laptop_seen { observed_at = laptop_seen.observed_at + 1 }

create_during_apply_example :
    ((a : Asset) × (a.seen_count ≡ 1)
      × Returns (λ r. asset_of r.0 laptop_mac ≡ some a) (apply (new_manager none) seen_later)
      × Returns
          (λ r. asset_of r.0 laptop_mac ≡ some a)
          (overlapping (new_manager none) laptop_seen seen_later))
    × Returns
        (λ r. Gives (λ b. b.seen_count ≡ 2) (asset_of r.0 laptop_mac))
        (one_by_one (new_manager none) laptop_seen seen_later)
unfolding valid is_empty lookup
create_during_apply_example =
    create_during_apply (new_manager none) laptop_seen seen_later (new_manager-Sound none).inv refl
      refl refl refl refl

-- Two callers of Apply resolve one address before either takes the lock, and a sweep runs between.
abbrev two_callers : List Event
two_callers =
    calls (loads (laptop_row ∷ []))
    ∷ resolves laptop_seen
    ∷ resolves laptop_seen
    ∷ calls (sweeps 100 (pos 50))
    ∷ locks 1
    ∷ locks 0
    ∷ []

run_schedule-new_manager-Safe_example :
    Returns Safe (run_schedule (record { manager = new_manager none; pending = [] }) two_callers)
unfolding generate_asset_id snapshot
run_schedule-new_manager-Safe_example =
    run_schedule-new_manager-Safe none two_callers
      ((tt, (refl, tt)), (tt, (tt, ((tt, tt), (tt, (tt, tt))))))
