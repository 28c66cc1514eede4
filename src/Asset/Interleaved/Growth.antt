-- ===== src/Asset/Interleaved/Growth.antt =====
-- No call but an eviction loses an asset.
use asset_discovery.Asset.Identity.{sharded_resolve}
use asset_discovery.Asset.Lifecycle.{
  by_shard, drain_shard, load_snapshot, load_snapshots, sweep_shard, is_newer,
}
use asset_discovery.Asset.Lifecycle.Sweep.{lookup-sweep_assets, swept}
use asset_discovery.Asset.Manager.{
  Manager, apply_resolved, cell, apply, drain_dirty, load, record_drop, record_packet, set_hydrator,
  sweep,
}
use asset_discovery.Asset.Manager.Run.{
  Call, Sound, ignore_result, step, applies, drains, evicts, hydrates_by, loads, records_drop,
  records_packet, sweeps,
}
use asset_discovery.Asset.Shard.{Cell, Outcome, nil_dereference, returned}
use asset_discovery.Asset.Shard.Apply.{Returns}
use asset_discovery.Asset.Types.{Asset, AssetSnapshot, Observation, asset_from_snapshot, valid}
use asset_discovery.Prelude.{
  Bool-cases, List, Option, [], arith, inl, inr, none, refl, some, true, ℕ, ◌∷◌, ◌≡◌,
}
use asset_discovery.Prelude.Map.{lookup, lookup-insert}
use asset_discovery.Prelude.Time.{Duration, Time}
use asset_discovery.Asset.Interleaved.Held.{
  CellGrows, Grows, Held-Kept, Kept, present, resolve-Held,
}

sweep-CellGrows :
    (now : Time) (d : Duration) (c : Cell)
    → CellGrows c (record c { shard = (sweep_shard now d c.shard).0 })
unfolding sweep_shard
sweep-CellGrows now d c k h =
    rw (lookup-sweep_assets now d c.shard c.shard.assets k) (go (lookup k c.shard.assets) h)
  where
    go : (o : Option Asset) → present o ≡ true → present (swept now d o) ≡ true
    go none e = e
    go (some a) e = refl

load_snapshot-CellGrows :
    (c : Cell) (n : ℕ) (s : AssetSnapshot) → CellGrows c (load_snapshot (c, n) s).0
unfolding load_snapshot
load_snapshot-CellGrows c n s k h =
    let a = asset_from_snapshot s in
    elim (Bool-cases (is_newer (lookup a.id c.shard.assets) a)) [
      | inl e ↦ rw (e, lookup-insert a.id k a c.shard.assets) (ground (arith, h))
      | inr e ↦ rw e h
    ]

load_snapshots-CellGrows :
    (ss : List AssetSnapshot) (c : Cell) (n : ℕ) → CellGrows c (load_snapshots (c, n) ss).0
unfolding load_snapshots
load_snapshots-CellGrows [] c n k h = h
load_snapshots-CellGrows (s ∷ ss) c n k h =
    let (d, j) = load_snapshot (c, n) s in
    load_snapshots-CellGrows ss d j k (load_snapshot-CellGrows c n s k h)

-- Every call but an eviction.
abbrev pub NoEviction : Call → Type 0
NoEviction (evicts now d) = ⊥
NoEviction c = Unit

apply-Grows :
    (m : Manager) (obs : Observation) → Sound m → Returns (Grows m) (ignore_result (apply m obs))
unfolding apply
apply-Grows m obs s = elim (Bool-cases (valid obs)) [
  | inl e ↦ rw e (
      grows-of (ignore_result (apply_resolved m obs (sharded_resolve m.resolver obs.mac))) (
        Held-Kept m (record { obs = obs; target = sharded_resolve m.resolver obs.mac }) s
          (resolve-Held m obs s.inv e)))
  | inr e ↦ rw e (λ i k h. h)
]
  where
    grows-of : (o : Outcome Manager) → Returns (Kept m) o → Returns (Grows m) o
    grows-of nil_dereference p = p
    grows-of (returned m') p = p.grows

pub step-Grows : (m : Manager) (c : Call) → NoEviction c → Sound m → Returns (Grows m) (step m c)
unfolding step sweep drain_dirty load set_hydrator record_packet record_drop drain_shard
step-Grows m (applies obs) l s = apply-Grows m obs s
step-Grows m (sweeps now d) l s = λ i k h. sweep-CellGrows now d (cell m i) k h
step-Grows m (evicts now d) l s = absurd l
step-Grows m drains l s = λ i k h. h
step-Grows m (loads ss) l s = λ i k h. load_snapshots-CellGrows (by_shard i ss) (cell m i) 0 k h
step-Grows m (hydrates_by x) l s = λ i k h. h
step-Grows m records_packet l s = λ i k h. h
step-Grows m records_drop l s = λ i k h. h
