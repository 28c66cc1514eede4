-- ===== src/Asset/Manager.antt =====
-- The Manager of internal/asset/manager.go: 16 shards and the resolver. Each definition is one call
-- that runs by itself; Asset/Race has Apply with other calls between its two steps.
pub mod Apply
pub mod Run
use asset_discovery.Asset.Identity.{
  ShardedResolver, new_sharded_resolver, shard_count, sharded_resolve, update,
}
use asset_discovery.Asset.Lifecycle.{
  by_shard, count_status, drain_shard, evict_cell, load_snapshots, sweep_shard,
}
use asset_discovery.Asset.Shard.{
  ApplyResult, Cell, Hydrator, Outcome, Shard, VendorResolver, apply_locked, is_offline, is_online,
  nil_dereference, no_action, returned,
}
use asset_discovery.Asset.Types.{Asset, AssetId, AssetSnapshot, Observation, snapshot, valid}
use asset_discovery.Prelude.{
  List, Option, [], if◌then◌else◌, length, map, none, some, suc, zero, ℕ, ◌%◌, ◌++◌, ◌+◌,
}
use asset_discovery.Prelude.Map.{Map, lookup}
use asset_discovery.Prelude.Time.{Duration, Time, second}
use asset_discovery.Stats.{PacketRate, counter_mod, inc, new_packet_rate}

pub record Manager : Type 0 where
  pub shards : ℕ → Shard
  pub resolver : ShardedResolver
  pub vendor : Option VendorResolver
  pub hydrator : Option Hydrator
  pub packets_recv : ℕ
  pub dropped : ℕ
  pub packet_rate : PacketRate

abbrev pub new_manager : Option VendorResolver → Manager
new_manager vendor = record {
  shards = λ i. record { assets = []; dirty = [] };
  resolver = new_sharded_resolver;
  vendor = vendor;
  hydrator = none;
  packets_recv = 0;
  dropped = 0;
  packet_rate = new_packet_rate second 60;
}

abbrev pub cell : Manager → ℕ → Cell
cell m i = record { shard = m.shards i; index = m.resolver i }

abbrev pub put_cell : Manager → ℕ → Cell → Manager
put_cell m i c = record m {
  shards = update m.shards i c.shard;
  resolver = update m.resolver i c.index;
}

unfoldable pub set_hydrator : Manager → Hydrator → Manager
set_hydrator m h = record m { hydrator = some h }

unfoldable pub record_packet : Manager → Manager
unfolding inc
record_packet m = record m {
  packets_recv = (m.packets_recv + 1) % counter_mod;
  packet_rate = inc m.packet_rate;
}

unfoldable pub record_drop : Manager → Manager
record_drop m = record m { dropped = (m.dropped + 1) % counter_mod }

unfoldable pub set_initial_counters : Manager → ℕ → Manager
set_initial_counters m packets = record m { packets_recv = packets }

abbrev pub finish_apply :
    Manager → ℕ → Outcome (Cell × ApplyResult) → Outcome (Manager × ApplyResult)
finish_apply m idx nil_dereference = nil_dereference
finish_apply m idx (returned (c, r)) = returned (put_cell m idx c, r)

-- The part of Apply under the lock of shard `idx`.
unfoldable pub apply_resolved :
    Manager → Observation → Option AssetId × ℕ → Outcome (Manager × ApplyResult)
unfolding apply_locked
apply_resolved m obs (existing, idx) =
    finish_apply m idx (apply_locked m.vendor m.hydrator (cell m idx) obs existing)

-- Apply; the error that it returns is always nil.
unfoldable pub apply : Manager → Observation → Outcome (Manager × ApplyResult)
unfolding apply_resolved sharded_resolve
apply m obs =
    if valid obs
    then apply_resolved m obs (sharded_resolve m.resolver obs.mac)
    else returned (m, record { asset_id = []; action = no_action })

-- f 0 + … + f (n - 1)
unfoldable pub sum_below : ℕ → (ℕ → ℕ) → ℕ
sum_below zero f = 0
sum_below (suc n) f = sum_below n f + f n

-- f 0 ++ … ++ f (n - 1)
unfoldable pub join_below {ℓ} : {A : Type ℓ} → ℕ → (ℕ → List A) → List A
join_below zero f = []
join_below (suc n) f = join_below n f ++ f n

-- The new manager and the number of transitions. The shards, which Go locks one after the other, are
-- one step.
unfoldable pub sweep : Manager → Time → Duration → Manager × ℕ
unfolding sweep_shard sum_below
sweep m now offline_after = (
  record m { shards = λ i. (sweep_shard now offline_after (m.shards i)).0 },
  sum_below shard_count (λ i. (sweep_shard now offline_after (m.shards i)).1),
)

-- The new manager and the number of evicted assets, all shards in one step again.
unfoldable pub evict_stale : Manager → Time → Duration → Manager × ℕ
unfolding evict_cell sum_below
evict_stale m now evict_after = (
  record m {
    shards = λ i. (evict_cell now evict_after (cell m i)).0.shard;
    resolver = λ i. (evict_cell now evict_after (cell m i)).0.index;
  },
  sum_below shard_count (λ i. (evict_cell now evict_after (cell m i)).1),
)

unfoldable pub drain_dirty : Manager → List AssetSnapshot × Manager
unfolding drain_shard join_below
drain_dirty m = (
  join_below shard_count (λ i. (drain_shard (m.shards i)).0),
  record m { shards = λ i. (drain_shard (m.shards i)).1 },
)

-- The new manager and the number of snapshots that were loaded.
unfoldable pub load : Manager → List AssetSnapshot → Manager × ℕ
unfolding load_snapshots by_shard sum_below
load m snapshots = (
  record m {
    shards = λ i. (load_snapshots (cell m i, 0) (by_shard i snapshots)).0.shard;
    resolver = λ i. (load_snapshots (cell m i, 0) (by_shard i snapshots)).0.index;
  },
  sum_below shard_count (λ i. (load_snapshots (cell m i, 0) (by_shard i snapshots)).1),
)

abbrev pub or_snapshot : Option AssetSnapshot → Option Asset → Option AssetSnapshot
or_snapshot found none = found
or_snapshot none (some a) = some (snapshot a)
or_snapshot (some s) (some a) = some s

unfoldable pub get_below : ℕ → Manager → AssetId → Option AssetSnapshot
get_below zero m id = none
get_below (suc n) m id = or_snapshot (get_below n m id) (lookup id (m.shards n).assets)

-- Get: the asset of the first shard that has the id.
unfoldable pub get : Manager → AssetId → Option AssetSnapshot
unfolding get_below
get = get_below shard_count

abbrev pub snapshots_of : Map Asset → List AssetSnapshot
snapshots_of = map λ e. snapshot e.1

unfoldable pub snapshots : Manager → List AssetSnapshot
unfolding join_below
snapshots m = join_below shard_count (λ i. snapshots_of (m.shards i).assets)

unfoldable pub assets_count : Manager → ℕ
unfolding sum_below
assets_count m = sum_below shard_count (λ i. length (m.shards i).assets)

-- (online, offline)
unfoldable pub status_counts : Manager → ℕ × ℕ
unfolding sum_below count_status
status_counts m = (
  sum_below shard_count (λ i. count_status is_online (m.shards i).assets),
  sum_below shard_count (λ i. count_status is_offline (m.shards i).assets),
)
