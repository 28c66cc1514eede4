-- ===== src/Asset/Race/Calls.antt =====
-- internal/asset/manager.go: an Apply that resolved its address when it was not known, and two calls of
-- Apply, overlapping or one by one.
use asset_discovery.Asset.Shard.{Hydrator}
use asset_discovery.Asset.Identity.Keys.{is_empty-mac_key}
use asset_discovery.Asset.Manager.{apply, finish_apply}
use asset_discovery.Asset.Manager.Apply.{update_self}
use asset_discovery.Asset.Shard.{ApplyResult, Outcome, hydrate, returned}
use asset_discovery.Asset.Shard.Apply.{assets-mark_if, merge_into_counts}
use asset_discovery.Prelude.{ap, none, ℕ, ◌∙◌}
use asset_discovery.Prelude.Map.{insert}
use asset_discovery.Prelude.Map.{lookup-insert_self}
use asset_discovery.Asset.Identity.{
  resolve, generate_asset_id, mac_key, shard_index, sharded_resolve,
}
use asset_discovery.Asset.Manager.{Manager, apply_resolved, cell}
use asset_discovery.Asset.Manager.Apply.{ManagerInv}
use asset_discovery.Asset.Shard.{
  Cell, VendorResolver, apply_found, apply_locked, create_asset, merge_into, new_asset,
  nil_dereference,
}
use asset_discovery.Asset.Shard.Apply.{Returns}
use asset_discovery.Asset.Types.{Asset, AssetId, Mac, Observation, valid}
use asset_discovery.Prelude.{Option, false, refl, some, true, ◌≡◌}
use asset_discovery.Prelude.Map.{lookup}
use asset_discovery.Prelude.Text.{is_empty}

create_asset_stores :
    (v : Option VendorResolver) (c : Cell) (obs : Observation)
    → is_empty obs.mac ≡ false
    → Returns
        (λ r.
          lookup (mac_key obs.mac) r.0.shard.assets
          ≡ some (merge_into v (new_asset (mac_key obs.mac) obs.mac) obs).0)
        (create_asset v c obs)
unfolding create_asset generate_asset_id
create_asset_stores v c obs h =
    let key = mac_key obs.mac in
    let a = (merge_into v (new_asset key obs.mac) obs).0 in
    rw (is_empty-mac_key obs.mac ∙ h) (
      ap (lookup key)
        (assets-mark_if true (record c.shard { assets = insert key a c.shard.assets }) key)
      ∙ lookup-insert_self key a c.shard.assets)

finish_stores :
    (m : Manager) (i : ℕ) (k : AssetId) (a : Asset) (o : Outcome (Cell × ApplyResult))
    → Returns (λ r. lookup k r.0.shard.assets ≡ some a) o
    → Returns
        (λ r.
          (lookup k (r.0.shards i).assets ≡ some a)
          × (r.0.hydrator ≡ m.hydrator)
          × (r.0.vendor ≡ m.vendor))
        (finish_apply m i o)
finish_stores m i k a nil_dereference p = p
finish_stores m i k a (returned (c, r)) p = (rw (update_self m.shards i c.shard) p, refl, refl)

apply_locked_stores :
    (v : Option VendorResolver) (h : Option Hydrator) (c : Cell) (obs : Observation)
    → h ≡ none
    → is_empty obs.mac ≡ false
    → Returns
        (λ r.
          lookup (mac_key obs.mac) r.0.shard.assets
          ≡ some (merge_into v (new_asset (mac_key obs.mac) obs.mac) obs).0)
        (apply_locked v h c obs none)
unfolding apply_locked hydrate apply_found
apply_locked_stores v h c obs e nonempty = rw e (create_asset_stores v c obs nonempty)

-- The asset under an address.
abbrev pub asset_of : Manager → Mac → Option Asset
asset_of m mac = lookup (mac_key mac) (m.shards (shard_index mac)).assets

-- The asset that Apply makes of an observation alone.
abbrev pub fresh_asset : Option VendorResolver → Observation → Asset
fresh_asset v obs = (merge_into v (new_asset (mac_key obs.mac) obs.mac) obs).0

pub counted_once :
    (v : Option VendorResolver) (obs : Observation) → (fresh_asset v obs).seen_count ≡ 1
unfolding new_asset
counted_once v obs = merge_into_counts v _ obs

-- The asset is the one of the observation alone, and the interfaces are the same.
abbrev pub Made : Manager → Observation → Manager × ApplyResult → Type 0
Made m obs r =
    (asset_of r.0 obs.mac ≡ some (fresh_asset m.vendor obs))
    × (r.0.hydrator ≡ m.hydrator)
    × (r.0.vendor ≡ m.vendor)

pub apply_unresolved_stores :
    (m : Manager) (obs : Observation)
    → m.hydrator ≡ none
    → is_empty obs.mac ≡ false
    → Returns (Made m obs) (apply_resolved m obs (none, shard_index obs.mac))
unfolding apply_resolved
apply_unresolved_stores m obs h e =
    finish_stores m (shard_index obs.mac) (mac_key obs.mac) _ _
      (apply_locked_stores m.vendor m.hydrator (cell m (shard_index obs.mac)) obs h e)

abbrev pub then_call :
    Outcome (Manager × ApplyResult)
    → (Manager → Outcome (Manager × ApplyResult))
    → Outcome (Manager × ApplyResult)
then_call nil_dereference f = nil_dereference
then_call (returned (m, r)) f = f m

pub then_call-Returns :
    (P Q : Manager × ApplyResult → Type 0) (o : Outcome (Manager × ApplyResult))
    (f : Manager → Outcome (Manager × ApplyResult))
    → Returns P o
    → ((m : Manager) (r : ApplyResult) → P (m, r) → Returns Q (f m))
    → Returns Q (then_call o f)
then_call-Returns P Q nil_dereference f p k = p
then_call-Returns P Q (returned (m, r)) f p k = k m r p

-- Two calls of Apply that both resolve before either takes the lock, and two that do not overlap.
abbrev pub overlapping : Manager → Observation → Observation → Outcome (Manager × ApplyResult)
overlapping m obs1 obs2 =
    then_call (apply_resolved m obs1 (sharded_resolve m.resolver obs1.mac))
      (λ m1. apply_resolved m1 obs2 (sharded_resolve m.resolver obs2.mac))

abbrev pub one_by_one : Manager → Observation → Observation → Outcome (Manager × ApplyResult)
one_by_one m obs1 obs2 = then_call (apply m obs1) (λ m1. apply m1 obs2)

pub weaken :
    (P Q : Manager × ApplyResult → Type 0) (o : Outcome (Manager × ApplyResult))
    → ((r : Manager × ApplyResult) → P r → Q r)
    → Returns P o
    → Returns Q o
weaken P Q nil_dereference f p = p
weaken P Q (returned r) f p = f r p

pub unresolved :
    (m : Manager) (mac : Mac)
    → ManagerInv m
    → asset_of m mac ≡ none
    → sharded_resolve m.resolver mac ≡ (none, shard_index mac)
unfolding sharded_resolve resolve
unresolved m mac inv e = rw ((inv (shard_index mac)).by_key (mac_key mac)) (rw e refl)

pub apply_unknown :
    (m : Manager) (obs : Observation)
    → ManagerInv m
    → valid obs ≡ true
    → asset_of m obs.mac ≡ none
    → apply m obs ≡ apply_resolved m obs (none, shard_index obs.mac)
unfolding apply
apply_unknown m obs inv ok e = rw ok (ap (apply_resolved m obs) (unresolved m obs.mac inv e))
