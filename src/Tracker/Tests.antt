-- ===== src/Tracker/Tests.antt =====
-- The tracker at a manager that has loaded one asset.
use asset_discovery.Asset.Identity.{generate_asset_id, mac_key, shard_index}
use asset_discovery.Asset.Lifecycle.{is_stale, sweep_asset}
use asset_discovery.Asset.Manager.{Manager, load, new_manager}
use asset_discovery.Asset.Manager.Run.{Sound, loads, run, run-new_manager-Sound, step}
use asset_discovery.Asset.Tests.{laptop, laptop_mac}
use asset_discovery.Asset.Types.{Asset, offline, snapshot, asset_from_snapshot}
use asset_discovery.Prelude.{Gives, Option, [], none, refl, some, ◌+◌, ◌∷◌, ◌≡◌}
use asset_discovery.Prelude.Map.{lookup, delete, insert}
use asset_discovery.Prelude.Text.{is_empty, text_eq, to_lower}
use asset_discovery.Prelude.Time.{pos, sub_time}
use asset_discovery.Tracker.{Tracker, done, new_tracker, run_tracker, ticks}
use asset_discovery.Tracker.Tidy.{Tidied, run_tracker-Tidied, asset_at}
use mathlib.Core.Option.{map as map_option}

abbrev loaded : Manager
loaded = (load (new_manager none) (snapshot laptop ∷ [])).0

loaded-Sound : Sound loaded
unfolding run step generate_asset_id snapshot
loaded-Sound = run-new_manager-Sound none (loads (snapshot laptop ∷ []) ∷ []) ((refl, tt), tt)

abbrev tracker : Tracker
tracker = new_tracker (pos 30) (pos 50) (pos 200)

abbrev laptop_in : Option Manager → Option Asset
laptop_in none = none
laptop_in (some m) = asset_at m (shard_index laptop_mac) (generate_asset_id laptop_mac)

-- The laptop goes offline, and is evicted later.
goes_offline :
    (map_option
      (λ a. a.status)
      (laptop_in (run_tracker tracker loaded (ticks (laptop.last_seen + 60) ∷ done ∷ []))))
    ≡ some offline
unfolding run_tracker generate_asset_id lookup sweep_asset is_stale sub_time shard_index snapshot
    load is_empty mac_key insert asset_from_snapshot text_eq to_lower
goes_offline = refl

is_evicted :
    laptop_in (
      run_tracker tracker loaded
        (ticks (laptop.last_seen + 60) ∷ ticks (laptop.last_seen + 201) ∷ done ∷ []))
    ≡ none
unfolding run_tracker generate_asset_id lookup delete sweep_asset is_stale sub_time shard_index
    snapshot load is_empty mac_key insert asset_from_snapshot text_eq to_lower
is_evicted = refl

run_tracker-Tidied_example :
    Gives
      (Tidied tracker loaded (60 ∷ 90 ∷ []) 90)
      (run_tracker tracker loaded (ticks 60 ∷ ticks 90 ∷ done ∷ []))
run_tracker-Tidied_example = run_tracker-Tidied tracker loaded (60 ∷ []) 90 [] refl loaded-Sound
