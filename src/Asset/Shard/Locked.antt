-- ===== src/Asset/Shard/Locked.antt =====
-- What Apply does under the lock of a shard, branch by branch.
use mathlib.Core.Path.{subst₂}
use asset_discovery.Asset.Shard.{hydrate_row}
use asset_discovery.Prelude.Map.{lookup-insert_self}
use asset_discovery.Asset.Identity.{mac_string}
use asset_discovery.Asset.Identity.Keys.{mac_string_inj}
use asset_discovery.Asset.Merge.{has}
use asset_discovery.Asset.Shard.{
  ApplyResult, Hydrator, Outcome, apply_found, apply_locked, hydrate, nil_dereference, returned,
}
use asset_discovery.Asset.Shard.Invariant.{store-CellInv}
use asset_discovery.Asset.Types.{AssetId, AssetSnapshot, Mac, asset_from_snapshot}
use asset_discovery.Prelude.{Option-cases, inl, inr}
use asset_discovery.Prelude.Map.{lookup, lookup-insert}
use asset_discovery.Prelude.Map.Laws.{Entries-lookup}
use asset_discovery.Prelude.Text.{Text, text_eq}
use asset_discovery.Asset.Identity.{bind, generate_asset_id, mac_key, shard_index}
use asset_discovery.Asset.Identity.Keys.{is_empty-mac_key}
use asset_discovery.Asset.Shard.{
  Cell, VendorResolver, create_asset, mark_if, merge_into, new_asset, revive, update_asset, updated,
}
use asset_discovery.Asset.Shard.Apply.{
  Applied, Owned-same, Returns, merge_into_identity, revive_identity, stored-Applied,
}
use asset_discovery.Asset.Shard.Invariant.{CellInv, Owned}
use asset_discovery.Asset.Types.{Asset, Observation}
use asset_discovery.Prelude.{Option, ap, false, none, refl, some, sym, true, ℕ, ◌∙◌, ◌≡◌}
use asset_discovery.Prelude.Map.{insert}
use asset_discovery.Prelude.Text.{is_empty}
use mathlib.Core.Path.{subst}

module _ (v : Option VendorResolver) (i : ℕ) (c : Cell) (obs : Observation) (inv : CellInv i c)
    (named : is_empty obs.mac ≡ false) where
  pub update_asset-Applied :
      (a0 : Asset)
      → Owned i (mac_key obs.mac) a0
      → Returns (Applied v i c (some a0) obs) (update_asset v c (mac_key obs.mac) obs (some a0))
  unfolding update_asset
  update_asset-Applied a0 o =
      let (a1, changed) = merge_into v a0 obs in
      let (a, changed') = revive (a1, changed) in
      let p = merge_into_identity v a0 obs in
      let q = revive_identity a1 changed in
      let key = mac_key obs.mac in
      let own : Owned i key a = Owned-same i key a0 a (q.0 ∙ p.0, q.1 ∙ p.1) o in
      subst
        (λ k. Applied v i c (some a0) obs (
          record {
            shard = mark_if changed' (record c.shard { assets = insert key a c.shard.assets }) k;
            index = bind c.index k obs.mac;
          },
          record { asset_id = k; action = updated },
        ))
        (sym own.0) (stored-Applied v i c (some a0) obs a changed' inv own named refl)

  create_asset-Applied :
      shard_index obs.mac ≡ i → Returns (Applied v i c none obs) (create_asset v c obs)
  unfolding create_asset generate_asset_id
  create_asset-Applied here =
      let key = mac_key obs.mac in
      let p = merge_into_identity v (new_asset key obs.mac) obs in
      let a = (merge_into v (new_asset key obs.mac) obs).0 in
      let own : Owned i key a =
        (p.0, ap mac_key p.1, ap shard_index p.1 ∙ here, ap is_empty p.1 ∙ named) in
      rw (is_empty-mac_key obs.mac ∙ named)
        (stored-Applied v i c none obs a true inv own named refl)

-- What the database is known to hold of an address.
abbrev pub from_row : Option AssetSnapshot → Option Asset
from_row none = none
from_row (some s) = some (asset_from_snapshot s)

abbrev pub hydrated : Option Hydrator → Mac → Option Asset
hydrated none mac = none
hydrated (some h) mac = from_row (h (mac_string mac))

-- What LoadAssetByMAC documents: the row that it loads has the address that was asked for, under
-- the id that the program derives from it.
abbrev pub HydratorLaw : Option Hydrator → Type 0
HydratorLaw none = Unit
HydratorLaw (some h) =
    (t : Text) (s : AssetSnapshot)
    → h t ≡ some s
    → (mac_string s.mac ≡ t) × (s.id ≡ generate_asset_id s.mac)

-- The asset that Apply starts from: the one in memory, or else the one in the database.
abbrev pub known : Option Asset → Option Asset → Option Asset
known none o = o
known (some a) o = some a

Applied-from :
    (v : Option VendorResolver) (i : ℕ) (c d : Cell) (b : Option Asset) (obs : Observation)
    (o : Outcome (Cell × ApplyResult))
    → ((k : AssetId)
        → text_eq (mac_key obs.mac) k ≡ false
        → lookup k d.shard.assets ≡ lookup k c.shard.assets)
    → d.shard.dirty ≡ c.shard.dirty
    → Returns (Applied v i d b obs) o
    → Returns (Applied v i c b obs) o
Applied-from v i c d b obs nil_dereference f e r = absurd r
Applied-from v i c d b obs (returned r) f e p = record {
  inv = p.inv;
  stored = p.stored;
  status = p.status;
  others = λ k h. p.others k h ∙ f k h;
  saved = p.saved;
  back_saved = p.back_saved;
  kept_dirty = λ k h. p.kept_dirty k (ap (has k) e ∙ h);
  result = p.result;
}

module _ (v : Option VendorResolver) (i : ℕ) (c : Cell) (obs : Observation) (inv : CellInv i c)
    (named : is_empty obs.mac ≡ false) (here : shard_index obs.mac ≡ i) where
  hydrated-Applied :
      (a : Asset)
      → a.mac ≡ obs.mac
      → a.id ≡ mac_key obs.mac
      → Returns (Applied v i c (some a) obs) (
          apply_found v
            (record {
              shard = record c.shard { assets = insert a.id a c.shard.assets };
              index = bind c.index a.id a.mac;
            })
            obs
            (some a.id))
  unfolding apply_found
  hydrated-Applied a m e =
      let key = mac_key obs.mac in
      let own : Owned i key a = (e, ap mac_key m, ap shard_index m ∙ here, ap is_empty m ∙ named) in
      let d : Cell = record {
        shard = record c.shard { assets = insert key a c.shard.assets };
        index = bind c.index key obs.mac;
      } in
      subst₂
        (λ id mac. Returns (Applied v i c (some a) obs) (
          apply_found v
            (record {
              shard = record c.shard { assets = insert id a c.shard.assets };
              index = bind c.index id mac;
            })
            obs (some id)))
        (sym e) (sym m)
        (rw (lookup-insert_self key a c.shard.assets) (
          Applied-from v i c d (some a) obs (update_asset v d key obs (some a))
            (λ k h. lookup-insert key k a c.shard.assets ∙ rw h) refl
            (update_asset-Applied v i d obs
              (store-CellInv i c key a obs.mac c.shard.dirty inv own named refl) named a own)))

  hydrate_row-Applied :
      (o : Option AssetSnapshot)
      → ((s : AssetSnapshot) → o ≡ some s → (s.mac ≡ obs.mac) × (s.id ≡ generate_asset_id s.mac))
      → Returns
          (Applied v i c (from_row o) obs)
          (apply_found v (hydrate_row c o).0 obs (hydrate_row c o).1)
  unfolding apply_found generate_asset_id asset_from_snapshot
  hydrate_row-Applied none law = create_asset-Applied v i c obs inv named here
  hydrate_row-Applied (some s) law =
      let (m, e) = law s refl in hydrated-Applied (asset_from_snapshot s) m (e ∙ ap mac_key m)

  pub hydrate-Applied :
      (h : Option Hydrator)
      → HydratorLaw h
      → Returns (Applied v i c (hydrated h obs.mac) obs) (apply_locked v h c obs none)
  unfolding apply_locked hydrate apply_found
  hydrate-Applied none law = create_asset-Applied v i c obs inv named here
  hydrate-Applied (some h) law =
      hydrate_row-Applied (h (mac_string obs.mac))
        (λ s e. let (t, j) = law (mac_string obs.mac) s e in (mac_string_inj s.mac obs.mac t, j))

  -- Under the lock, with the id that the resolver holds, Apply returns and does what it promises.
  pub apply_locked-Applied :
      (h : Option Hydrator)
      → HydratorLaw h
      → Returns
          (Applied v i c (known (lookup (mac_key obs.mac) c.shard.assets) (hydrated h obs.mac)) obs)
          (apply_locked v h c obs (lookup (mac_key obs.mac) c.index.by_key))
  unfolding apply_locked apply_found
  apply_locked-Applied h law =
      let key = mac_key obs.mac in
      rw (inv.by_key key) (elim (Option-cases (lookup key c.shard.assets)) [
        | inl e ↦ rw e (hydrate-Applied h law)
        | inr (a, e) ↦
            rw (e, e)
              (update_asset-Applied v i c obs inv named a
                (Entries-lookup (Owned i) key a c.shard.assets inv.owned e))
      ])
