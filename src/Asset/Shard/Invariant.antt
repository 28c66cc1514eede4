-- ===== src/Asset/Shard/Invariant.antt =====
-- The invariant of one shard: its assets stand under their own ids in the shard of their MAC
-- address, and the resolver binds exactly the keys of the assets that are there.
use asset_discovery.Prelude.Text.{text_eq_refl}
use asset_discovery.Asset.Identity.{IdentityIndex, bind, mac_key, shard_index, unbind, unbind_key}
use asset_discovery.Asset.Shard.{Cell, empty_cell}
use asset_discovery.Asset.Types.{Asset, AssetId, Mac}
use asset_discovery.Prelude.{
  List, Option, arith, false, if◌then◌else◌, none, refl, some, ℕ, ◌∙◌, ◌≡◌,
}
use asset_discovery.Prelude.Map.{delete, insert, lookup, lookup-delete, lookup-insert}
use asset_discovery.Prelude.Map.Laws.{
  Entries, Entries-delete, Entries-insert, IsMap, IsMap-delete, IsMap-insert,
}
use asset_discovery.Prelude.Text.{Text, is_empty, text_eq, text_eq_iff}

abbrev pub Owned : ℕ → AssetId → Asset → Type 0
Owned i id a =
    (a.id ≡ id) × (mac_key a.mac ≡ id) × (shard_index a.mac ≡ i) × (is_empty a.mac ≡ false)

-- The binding that an asset calls for.
abbrev pub binding : AssetId → Option Asset → Option AssetId
binding id none = none
binding id (some a) = some id

pub record CellInv (i : ℕ) (c : Cell) : Type 0 where
  pub owned : Entries (Owned i) c.shard.assets
  pub distinct : IsMap c.shard.assets
  pub by_key : (k : AssetId) → lookup k c.index.by_key ≡ binding k (lookup k c.shard.assets)
  pub by_id : (k : AssetId) → lookup k c.index.by_id ≡ binding k (lookup k c.shard.assets)

pub empty_cell-CellInv : (i : ℕ) → CellInv i empty_cell
unfolding lookup
empty_cell-CellInv i = record { owned = tt; distinct = tt; by_key = λ k. refl; by_id = λ k. refl }

lookup-bind :
    (x : IdentityIndex) (id : AssetId) (mac : Mac) (k : Text)
    → is_empty mac ≡ false
    → mac_key mac ≡ id
    → (lookup k (bind x id mac).by_key ≡ (if text_eq id k then some id else lookup k x.by_key))
      × (lookup k (bind x id mac).by_id ≡ (if text_eq id k then some id else lookup k x.by_id))
unfolding bind
lookup-bind x id mac k h e =
    rw (h, e) (lookup-insert id k id x.by_key, lookup-insert id k id x.by_id)

-- Storing an asset under its id and binding its address keeps the invariant.
pub store-CellInv :
    (i : ℕ) (c : Cell) (id : AssetId) (a : Asset) (mac : Mac) (d : List AssetId)
    → CellInv i c
    → Owned i id a
    → is_empty mac ≡ false
    → mac_key mac ≡ id
    → CellInv i (record {
      shard = record { assets = insert id a c.shard.assets; dirty = d };
      index = bind c.index id mac;
    })
store-CellInv i c id a mac d v o h e = record {
  owned = Entries-insert (Owned i) id a c.shard.assets o v.owned;
  distinct = IsMap-insert id a c.shard.assets v.distinct;
  by_key = λ k.
      (lookup-bind c.index id mac k h e).0
      ∙ rw lookup-insert (ground (arith, v.by_key k, text_eq_iff id k));
  by_id = λ k.
      (lookup-bind c.index id mac k h e).1
      ∙ rw lookup-insert (ground (arith, v.by_id k, text_eq_iff id k));
}

lookup-unbind :
    (x : IdentityIndex) (id k : AssetId) (o : Option Asset)
    → lookup id x.by_id ≡ binding id o
    → lookup id x.by_key ≡ binding id o
    → (lookup k (unbind x id).by_key ≡ (if text_eq id k then none else lookup k x.by_key))
      × (lookup k (unbind x id).by_id ≡ (if text_eq id k then none else lookup k x.by_id))
unfolding unbind unbind_key
lookup-unbind x id k none p q = ground (arith, text_eq_iff id k)
lookup-unbind x id k (some a) p q =
    ground (arith, text_eq_refl id, lookup-delete id k x.by_key, lookup-delete id k x.by_id)

-- Dropping an asset and its binding keeps the invariant.
pub drop-CellInv :
    (i : ℕ) (c : Cell) (id : AssetId) (d : List AssetId)
    → CellInv i c
    → CellInv i (record {
      shard = record { assets = delete id c.shard.assets; dirty = d };
      index = unbind c.index id;
    })
drop-CellInv i c id d v = record {
  owned = Entries-delete (Owned i) id c.shard.assets v.owned;
  distinct = IsMap-delete id c.shard.assets v.distinct;
  by_key = λ k.
      (lookup-unbind c.index id k (lookup id c.shard.assets) (v.by_id id) (v.by_key id)).0
      ∙ rw lookup-delete (ground (arith, v.by_key k, text_eq_iff id k));
  by_id = λ k.
      (lookup-unbind c.index id k (lookup id c.shard.assets) (v.by_id id) (v.by_key id)).1
      ∙ rw lookup-delete (ground (arith, v.by_id k, text_eq_iff id k));
}
