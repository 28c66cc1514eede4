-- ===== src/Asset/Lifecycle.antt =====
-- What Sweep, EvictStale, DrainDirty and LoadSnapshots of internal/asset/manager.go do in one shard.
pub mod Sweep
pub mod Load
pub mod Evict
use asset_discovery.Asset.Identity.{bind, shard_index, unbind}
use asset_discovery.Asset.Shard.{Cell, Shard, is_offline, is_online, mark_dirty, mark_if}
use asset_discovery.Asset.Types.{
  Asset, AssetId, AssetSnapshot, IpEntry, Status, asset_from_snapshot, offline, snapshot,
}
use asset_discovery.Prelude.{
  Bool, List, Option, [], false, if◌then◌else◌, none, not, some, true, ℕ, ◌&&◌, ◌*◌, ◌+◌, ◌==◌,
  ◌||◌, ◌∷◌,
}
use asset_discovery.Prelude.Map.{Map, delete, insert, lookup}
use asset_discovery.Prelude.Text.{is_empty}
use asset_discovery.Prelude.Time.{Duration, Time, add_duration, after, ltb_ℤ, minute, pos, sub_time}

-- config.IpGrace
abbrev pub ip_grace : Duration
ip_grace = pos (5 * minute)

-- One entry of sweepIPMap: the entry afterwards, and whether it changed.
unfoldable pub sweep_entry : Time → IpEntry → IpEntry × Bool
sweep_entry now e =
    if not (ltb_ℤ (pos 0) e.lease)
    then (e, false)
    else if ltb_ℤ (add_duration e.lease ip_grace) (sub_time now e.last_seen) && e.is_active
    then (record e { is_active = false }, true)
    else (e, false)

unfoldable pub sweep_ip_map : Time → Map IpEntry → Map IpEntry × Bool
unfolding sweep_entry
sweep_ip_map now [] = ([], false)
sweep_ip_map now ((ip, e) ∷ m) =
    let (e', c) = sweep_entry now e in let (m', cs) = sweep_ip_map now m in ((ip, e') ∷ m', c || cs)

-- The body of the loop of Sweep: the asset afterwards, whether it changed, and the transitions.
unfoldable pub sweep_asset : Time → Duration → Asset → Asset × Bool × ℕ
unfolding sweep_ip_map
sweep_asset now offline_after a =
    let (v4, c4) = sweep_ip_map now a.ipv4s in
    let (v6, c6) = sweep_ip_map now a.ipv6s in
    let b = record a { ipv4s = v4; ipv6s = v6 } in
    if is_online a.status && ltb_ℤ offline_after (sub_time now a.last_seen)
    then (record b { status = offline }, true, 1)
    else (b, c6 || c4, 0)

-- The loop of Sweep over the assets that are left: those assets afterwards, the shard with its dirty
-- set, and the transitions.
unfoldable pub sweep_assets : Time → Duration → Shard → Map Asset → Map Asset × Shard × ℕ
unfolding sweep_asset mark_dirty
sweep_assets now offline_after sh [] = ([], sh, 0)
sweep_assets now offline_after sh ((id, a) ∷ rest) =
    let (b, changed, n) = sweep_asset now offline_after a in
    let (assets', sh', k) = sweep_assets now offline_after (mark_if changed sh b.id) rest in
    ((id, b) ∷ assets', sh', n + k)

-- The shard afterwards and the number of its assets that went offline.
unfoldable pub sweep_shard : Time → Duration → Shard → Shard × ℕ
unfolding sweep_assets
sweep_shard now offline_after sh =
    let (assets', sh', n) = sweep_assets now offline_after sh sh.assets in
    (record sh' { assets = assets' }, n)

-- The test of EvictStale.
unfoldable pub is_stale : Time → Duration → Asset → Bool
is_stale now evict_after a = is_offline a.status && ltb_ℤ evict_after (sub_time now a.last_seen)

unfoldable pub evict_assets : Time → Duration → Cell → Map Asset → Cell × ℕ
unfolding is_stale unbind
evict_assets now evict_after c [] = (c, 0)
evict_assets now evict_after c ((id, a) ∷ rest) =
    let stale = is_stale now evict_after a in
    let c' : Cell = record {
      shard = record c.shard { assets = delete id c.shard.assets };
      index = unbind c.index a.id;
    } in
    let (c'', k) = evict_assets now evict_after (if stale then c' else c) rest in
    (c'', if stale then 1 + k else k)

-- The cell afterwards and the number of its assets that were evicted.
unfoldable pub evict_cell : Time → Duration → Cell → Cell × ℕ
unfolding evict_assets
evict_cell now evict_after c = evict_assets now evict_after c c.shard.assets

abbrev pub cons_present : Option Asset → List AssetSnapshot → List AssetSnapshot
cons_present none out = out
cons_present (some a) out = snapshot a ∷ out

unfoldable pub drain_ids : Map Asset → List AssetId → List AssetSnapshot
drain_ids assets [] = []
drain_ids assets (id ∷ ids) = cons_present (lookup id assets) (drain_ids assets ids)

-- The snapshots of the dirty assets, and the shard with an empty dirty set.
unfoldable pub drain_shard : Shard → List AssetSnapshot × Shard
unfolding drain_ids
drain_shard sh = (drain_ids sh.assets sh.dirty, record sh { dirty = [] })

-- The existing asset is at least as new as the loaded one.
abbrev pub is_newer : Option Asset → Asset → Bool
is_newer none a = true
is_newer (some existing) a = after a.last_seen existing.last_seen

unfoldable pub load_snapshot : Cell × ℕ → AssetSnapshot → Cell × ℕ
unfolding bind
load_snapshot (c, loaded) s =
    let a = asset_from_snapshot s in
    if is_newer (lookup a.id c.shard.assets) a
    then (
      record {
        shard = record c.shard { assets = insert a.id a c.shard.assets };
        index = bind c.index a.id a.mac;
      },
      loaded + 1,
    )
    else (c, loaded)

unfoldable pub load_snapshots : Cell × ℕ → List AssetSnapshot → Cell × ℕ
unfolding load_snapshot
load_snapshots s [] = s
load_snapshots s (x ∷ xs) = load_snapshots (load_snapshot s x) xs

-- The snapshots that LoadSnapshots puts into `byShard[idx]`.
unfoldable pub by_shard : ℕ → List AssetSnapshot → List AssetSnapshot
unfolding shard_index
by_shard idx [] = []
by_shard idx (s ∷ ss) =
    let rest = by_shard idx ss in
    if is_empty s.id || is_empty s.mac
    then rest
    else if shard_index s.mac == idx
    then s ∷ rest
    else rest

-- The number of assets with a status, as StatusCounts counts them.
unfoldable pub count_status : (Status → Bool) → Map Asset → ℕ
count_status test [] = 0
count_status test ((id, a) ∷ m) = (if test a.status then 1 else 0) + count_status test m
