-- ===== src/Asset/Lifecycle/Load.antt =====
-- LoadSnapshots in one shard.
use asset_discovery.Asset.Identity.{generate_asset_id, mac_key, shard_index}
use asset_discovery.Asset.Lifecycle.{by_shard, is_newer, load_snapshot, load_snapshots}
use asset_discovery.Asset.Shard.{Cell}
use asset_discovery.Asset.Shard.Invariant.{CellInv, store-CellInv}
use asset_discovery.Asset.Types.{Asset, AssetSnapshot, asset_from_snapshot}
use asset_discovery.Prelude.{
  ==_iff, All, Bool-cases, List, Option, [], arith, false, inl, inr, none, refl, some, sym, ℕ, ◌==◌,
  ◌||◌, ◌∷◌, ◌≡◌,
}
use asset_discovery.Prelude.Map.{lookup}
use asset_discovery.Prelude.Text.{is_empty}
use asset_discovery.Prelude.Time.{Time}

-- What a stored snapshot is: one that the program saved, so its id is the one of its address.
abbrev pub SnapshotLaw : AssetSnapshot → Type 0
SnapshotLaw s = s.id ≡ generate_asset_id s.mac

-- A snapshot that belongs to the shard.
abbrev pub ForShard : ℕ → AssetSnapshot → Type 0
ForShard i s = (s.id ≡ mac_key s.mac) × (shard_index s.mac ≡ i) × (is_empty s.mac ≡ false)

pub by_shard-ForShard :
    (i : ℕ) (ss : List AssetSnapshot) → All SnapshotLaw ss → All (ForShard i) (by_shard i ss)
unfolding by_shard generate_asset_id
by_shard-ForShard i [] h = tt
by_shard-ForShard i (s ∷ ss) h = elim (Bool-cases (is_empty s.id || is_empty s.mac)) [
  | inl e ↦ rw e (by_shard-ForShard i ss h.1)
  | inr e ↦ rw e (elim (Bool-cases (shard_index s.mac == i)) [
    | inl f ↦ rw f ((h.0, (==_iff _ _).0 f, ground arith), by_shard-ForShard i ss h.1)
    | inr f ↦ rw f (by_shard-ForShard i ss h.1)
  ])
]

load_snapshot-CellInv :
    (i : ℕ) (c : Cell) (n : ℕ) (s : AssetSnapshot)
    → ForShard i s
    → CellInv i c
    → CellInv i (load_snapshot (c, n) s).0
unfolding load_snapshot asset_from_snapshot
load_snapshot-CellInv i c n s (e, here, named) v =
    elim (Bool-cases (is_newer (lookup s.id c.shard.assets) (asset_from_snapshot s))) [
      | inl f ↦ rw f (
          store-CellInv i c s.id (asset_from_snapshot s) s.mac c.shard.dirty v
            (refl, sym e, here, named) named (sym e))
      | inr f ↦ rw f v
    ]

pub load_snapshots-CellInv :
    (i : ℕ) (c : Cell) (n : ℕ) (ss : List AssetSnapshot)
    → All (ForShard i) ss
    → CellInv i c
    → CellInv i (load_snapshots (c, n) ss).0
unfolding load_snapshots
load_snapshots-CellInv i c n [] h v = v
load_snapshots-CellInv i c n (s ∷ ss) h v =
    let (c', n') = load_snapshot (c, n) s in
    load_snapshots-CellInv i c' n' ss h.1 (load_snapshot-CellInv i c n s h.0 v)

-- The last sighting that a map has of an id, 0 where it has none.
abbrev pub sighting : Option Asset → Time
sighting none = 0
sighting (some a) = a.last_seen
