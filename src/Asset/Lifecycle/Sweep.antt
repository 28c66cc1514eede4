-- ===== src/Asset/Lifecycle/Sweep.antt =====
-- Sweep: what it does to the assets of a shard, and what it counts.
use asset_discovery.Asset.Lifecycle.{count_status, sweep_asset, sweep_assets, sweep_shard}
use asset_discovery.Asset.Shard.{Cell, Shard, is_offline, is_online, mark_if}
use asset_discovery.Asset.Shard.Apply.{Owned-same, SameIdentity}
use asset_discovery.Asset.Shard.Invariant.{CellInv, Owned, binding}
use asset_discovery.Asset.Types.{Asset, AssetId, offline}
use asset_discovery.Prelude.{
  Option, [], ap, arith, if◌then◌else◌, none, refl, some, sym, true, ℕ, ◌&&◌, ◌+◌, ◌∙◌, ◌∷◌, ◌≡◌,
}
use asset_discovery.Prelude.Map.{Map, lookup}
use asset_discovery.Prelude.Map.Laws.{Entries, IsMap}
use asset_discovery.Prelude.Time.{Duration, Time, ltb_ℤ, sub_time}

abbrev pub swept : Time → Duration → Option Asset → Option Asset
swept now d none = none
swept now d (some a) = some (sweep_asset now d a).0

-- Every asset is swept, under the id that it had.
pub lookup-sweep_assets :
    (now : Time) (d : Duration) (sh : Shard) (m : Map Asset) (k : AssetId)
    → lookup k (sweep_assets now d sh m).0 ≡ swept now d (lookup k m)
unfolding sweep_assets lookup
lookup-sweep_assets now d sh [] k = refl
lookup-sweep_assets now d sh ((id, a) ∷ m) k =
    let (b, changed, n) = sweep_asset now d a in
    ground (arith, lookup-sweep_assets now d (mark_if changed sh b.id) m k)

sweep_asset_identity :
    (now : Time) (d : Duration) (a : Asset) → SameIdentity a (sweep_asset now d a).0
unfolding sweep_asset
sweep_asset_identity now d a = (ground arith, ground arith)

Owned-sweep_assets :
    (i : ℕ) (now : Time) (d : Duration) (sh : Shard) (m : Map Asset)
    → Entries (Owned i) m
    → Entries (Owned i) (sweep_assets now d sh m).0
unfolding sweep_assets
Owned-sweep_assets i now d sh [] h = tt
Owned-sweep_assets i now d sh ((id, a) ∷ m) h =
    let (b, changed, n) = sweep_asset now d a in
    (
      Owned-same i id a b (sweep_asset_identity now d a) h.0,
      Owned-sweep_assets i now d (mark_if changed sh b.id) m h.1,
    )

swept-none : (now : Time) (d : Duration) (o : Option Asset) → o ≡ none → swept now d o ≡ none
swept-none now d o e = rw e

distinct-sweep_assets :
    (now : Time) (d : Duration) (sh : Shard) (m : Map Asset)
    → IsMap m
    → IsMap (sweep_assets now d sh m).0
unfolding sweep_assets
distinct-sweep_assets now d sh [] h = tt
distinct-sweep_assets now d sh ((id, a) ∷ m) h =
    let (b, changed, n) = sweep_asset now d a in
    let sh' = mark_if changed sh b.id in
    (
      lookup-sweep_assets now d sh' m id ∙ swept-none now d _ h.0,
      distinct-sweep_assets now d sh' m h.1,
    )

binding-swept :
    (now : Time) (d : Duration) (k : AssetId) (o : Option Asset)
    → binding k (swept now d o) ≡ binding k o
binding-swept now d k none = refl
binding-swept now d k (some a) = refl

pub sweep_shard-CellInv :
    (i : ℕ) (now : Time) (d : Duration) (c : Cell)
    → CellInv i c
    → CellInv i (record c { shard = (sweep_shard now d c.shard).0 })
unfolding sweep_shard
sweep_shard-CellInv i now d c v =
    let m = c.shard.assets in
    record {
      owned = Owned-sweep_assets i now d c.shard m v.owned;
      distinct = distinct-sweep_assets now d c.shard m v.distinct;
      by_key = λ k.
          v.by_key k
          ∙ sym (
              ap (binding k) (lookup-sweep_assets now d c.shard m k)
              ∙ binding-swept now d k (lookup k m));
      by_id = λ k.
          v.by_id k
          ∙ sym (
              ap (binding k) (lookup-sweep_assets now d c.shard m k)
              ∙ binding-swept now d k (lookup k m));
    }

-- An asset goes offline exactly when it is online and was last seen more than the threshold ago, and
-- then it is one transition, which counts as a change; its last sighting stays.
pub sweep_asset_status :
    (now : Time) (d : Duration) (a : Asset)
    → let (b, changed, n) = sweep_asset now d a in
      (b.status
        ≡ (if is_online a.status && ltb_ℤ d (sub_time now a.last_seen) then offline else a.status))
      × (n ≡ (if is_online a.status && ltb_ℤ d (sub_time now a.last_seen) then 1 else 0))
      × (b.last_seen ≡ a.last_seen)
      × (n ≡ 1 → changed ≡ true)
unfolding sweep_asset
sweep_asset_status now d a = (ground arith, ground arith, ground arith, λ e. ground arith)

count_one :
    (now : Time) (d : Duration) (a : Asset)
    → let (b, changed, n) = sweep_asset now d a in
      ((if is_offline b.status then 1 else 0) ≡ (if is_offline a.status then 1 else 0) + n)
      × ((if is_online b.status then 1 else 0) + n ≡ (if is_online a.status then 1 else 0))
count_one now d a =
    let s = sweep_asset_status now d a in (ground (arith, s.0, s.1), ground (arith, s.0, s.1))

sweep_assets_counts :
    (now : Time) (d : Duration) (s : Shard) (m : Map Asset)
    → let (m', s', n) = sweep_assets now d s m in
      (count_status is_offline m' ≡ count_status is_offline m + n)
      × (count_status is_online m' + n ≡ count_status is_online m)
unfolding sweep_assets count_status
sweep_assets_counts now d s [] = (refl, refl)
sweep_assets_counts now d s ((id, a) ∷ m) =
    let (b, changed, n) = sweep_asset now d a in
    let rest = sweep_assets_counts now d (mark_if changed s b.id) m in
    let first = count_one now d a in
    (omega (arith, rest.0, first.0), omega (arith, rest.1, first.1))

-- The transitions are the assets by which the offline ones have grown and the online ones shrunk.
pub sweep_shard_counts :
    (now : Time) (d : Duration) (sh : Shard)
    → let (sh', n) = sweep_shard now d sh in
      (count_status is_offline sh'.assets ≡ count_status is_offline sh.assets + n)
      × (count_status is_online sh'.assets + n ≡ count_status is_online sh.assets)
unfolding sweep_shard
sweep_shard_counts now d sh = sweep_assets_counts now d sh sh.assets
