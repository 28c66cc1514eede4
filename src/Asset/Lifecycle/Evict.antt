-- ===== src/Asset/Lifecycle/Evict.antt =====
-- EvictStale and DrainDirty.
use mathlib.Core.List.{Mem, mem-cons_self, mem-cons_of_mem}
use asset_discovery.Asset.Lifecycle.{cons_present, drain_ids, drain_shard}
use asset_discovery.Asset.Merge.{has}
use asset_discovery.Asset.Types.{snapshot}
use asset_discovery.Prelude.{All, List, Option-cases, ap, arith, sym, true, ◌≢◌}
use asset_discovery.Prelude.Map.{lookup-delete}
use asset_discovery.Prelude.Map.Laws.{Entries-lookup}
use asset_discovery.Prelude.Text.{text_eq, text_eq_iff, text_eq→eq}
use asset_discovery.Asset.Identity.{unbind}
use asset_discovery.Asset.Lifecycle.{evict_assets, evict_cell, is_stale}
use asset_discovery.Asset.Shard.{Cell}
use asset_discovery.Asset.Shard.Invariant.{CellInv, Owned, drop-CellInv}
use asset_discovery.Asset.Types.{Asset, AssetId}
use asset_discovery.Prelude.{
  Bool-cases, Option, [], if◌then◌else◌, inl, inr, none, refl, some, ℕ, ◌∙◌, ◌∷◌, ◌≡◌,
}
use asset_discovery.Prelude.Map.{Map, delete, lookup}
use asset_discovery.Prelude.Map.Laws.{Entries, IsMap}
use asset_discovery.Prelude.Time.{Duration, Time}

abbrev pub evicted : Time → Duration → Option Asset → Option Asset → Option Asset
evicted now d none x = x
evicted now d (some a) x = if is_stale now d a then none else x

abbrev drop_asset : Cell → AssetId → AssetId → Cell
drop_asset c id bound = record {
  shard = record c.shard { assets = delete id c.shard.assets };
  index = unbind c.index bound;
}

-- The loop removes the stale assets that it is still to visit, and no other.
lookup-evict_assets :
    (now : Time) (d : Duration) (c : Cell) (m : Map Asset) (k : AssetId)
    → IsMap m
    → lookup k (evict_assets now d c m).0.shard.assets
      ≡ evicted now d (lookup k m) (lookup k c.shard.assets)
unfolding evict_assets lookup
lookup-evict_assets now d c [] k h = refl
lookup-evict_assets now d c ((id, a) ∷ m) k h = elim (Bool-cases (is_stale now d a)) [
  | inl s ↦ rw s (
      lookup-evict_assets now d (drop_asset c id a.id) m k h.1
      ∙ rw lookup-delete (ground (arith, text_eq_iff id k, h.0)))
  | inr s ↦ rw s (lookup-evict_assets now d c m k h.1 ∙ ground (arith, text_eq_iff id k, h.0))
]

evict_assets-CellInv :
    (i : ℕ) (now : Time) (d : Duration) (c : Cell) (m : Map Asset)
    → Entries (Owned i) m
    → CellInv i c
    → CellInv i (evict_assets now d c m).0
unfolding evict_assets
evict_assets-CellInv i now d c [] o v = v
evict_assets-CellInv i now d c ((id, a) ∷ m) o v = elim (Bool-cases (is_stale now d a)) [
  | inl s ↦ rw s (
      evict_assets-CellInv i now d (drop_asset c id a.id) m o.1
        (rw o.0.0 (drop-CellInv i c id c.shard.dirty v)))
  | inr s ↦ rw s (evict_assets-CellInv i now d c m o.1 v)
]

pub evict_cell-CellInv :
    (i : ℕ) (now : Time) (d : Duration) (c : Cell) → CellInv i c → CellInv i (evict_cell now d c).0
unfolding evict_cell
evict_cell-CellInv i now d c v = evict_assets-CellInv i now d c c.shard.assets v.owned v

-- Eviction keeps exactly the assets that are not stale.
pub lookup-evict_cell :
    (i : ℕ) (now : Time) (d : Duration) (c : Cell) (k : AssetId)
    → CellInv i c
    → lookup k (evict_cell now d c).0.shard.assets
      ≡ evicted now d (lookup k c.shard.assets) (lookup k c.shard.assets)
unfolding evict_cell
lookup-evict_cell i now d c k v = lookup-evict_assets now d c c.shard.assets k v.distinct

dirty-evict_assets :
    (now : Time) (d : Duration) (c : Cell) (m : Map Asset)
    → (evict_assets now d c m).0.shard.dirty ≡ c.shard.dirty
unfolding evict_assets
dirty-evict_assets now d c [] = refl
dirty-evict_assets now d c ((id, a) ∷ m) = elim (Bool-cases (is_stale now d a)) [
  | inl s ↦ rw s (dirty-evict_assets now d (drop_asset c id a.id) m)
  | inr s ↦ rw s (dirty-evict_assets now d c m)
]

snapshot-id : (a : Asset) → (snapshot a).id ≡ a.id
unfolding snapshot
snapshot-id a = refl

-- An asset that is not there is in no list that is drained.
drain_ids_absent :
    (i : ℕ) (assets : Map Asset) (id : AssetId) (ids : List AssetId)
    → Entries (Owned i) assets
    → lookup id assets ≡ none
    → All (λ s. s.id ≢ id) (drain_ids assets ids)
unfolding drain_ids
drain_ids_absent i assets id [] o h = tt
drain_ids_absent i assets id (k ∷ ids) o h = elim (Option-cases (lookup k assets)) [
  | inl e ↦ rw e (drain_ids_absent i assets id ids o h)
  | inr (a, e) ↦
      let own = Entries-lookup (Owned i) k a assets o e in
      rw e (
        λ p. cc (e, h, ap (λ j. lookup j assets) (sym own.0 ∙ sym (snapshot-id a) ∙ p)),
        drain_ids_absent i assets id ids o h,
      )
]

-- A dirty asset that is there is drained.
pub drain_ids_present :
    (assets : Map Asset) (id : AssetId) (a : Asset) (ids : List AssetId)
    → has id ids ≡ true
    → lookup id assets ≡ some a
    → Mem (snapshot a) (drain_ids assets ids)
unfolding drain_ids has
drain_ids_present assets id a [] h e = cc
drain_ids_present assets id a (k ∷ ids) h e = elim (Bool-cases (text_eq k id)) [
  | inl same ↦ rw (text_eq→eq k id same, e) mem-cons_self
  | inr differs ↦ go (lookup k assets) (drain_ids_present assets id a ids (rw differs at h) e)
]
  where
    go :
        (o : Option Asset)
        → Mem (snapshot a) (drain_ids assets ids)
        → Mem (snapshot a) (cons_present o (drain_ids assets ids))
    go none m = m
    go (some b) m = mem-cons_of_mem _ m

-- An asset that is dirty would be saved by a drain; when it is stale, eviction removes it although
-- it is dirty, keeps its dirty mark, and a drain right after that has no snapshot of it.
pub evict_loses_dirty :
    (i : ℕ) (now : Time) (d : Duration) (c : Cell) (id : AssetId) (a : Asset)
    → CellInv i c
    → lookup id c.shard.assets ≡ some a
    → has id c.shard.dirty ≡ true
    → is_stale now d a ≡ true
    → Mem (snapshot a) (drain_shard c.shard).0
      × All (λ s. s.id ≢ id) (drain_shard (evict_cell now d c).0.shard).0
      × (has id (evict_cell now d c).0.shard.dirty ≡ true)
unfolding drain_shard
evict_loses_dirty i now d c id a v e h s = (
  drain_ids_present c.shard.assets id a c.shard.dirty h e,
  drain_ids_absent i _ id _ (evict_cell-CellInv i now d c v).owned
      (lookup-evict_cell i now d c id v ∙ rw (e, s)),
  unfold evict_cell in rw (dirty-evict_assets now d c c.shard.assets) h,
)
