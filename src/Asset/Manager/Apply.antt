-- ===== src/Asset/Manager/Apply.antt =====
-- Apply on the whole manager, run by itself.
use native.Mathlib.Decide.{ℕ_discrete}
use asset_discovery.Asset.Identity.{mac_key, resolve, shard_index, sharded_resolve, update}
use asset_discovery.Asset.Manager.{Manager, apply, apply_resolved, cell, finish_apply, put_cell}
use asset_discovery.Asset.Shard.{ApplyResult, Cell, Outcome, nil_dereference, returned}
use asset_discovery.Asset.Shard.Apply.{Applied, Returns}
use asset_discovery.Asset.Shard.Invariant.{CellInv}
use asset_discovery.Asset.Shard.Locked.{HydratorLaw, apply_locked-Applied, hydrated, known}
use asset_discovery.Asset.Types.{Observation, valid}
use asset_discovery.Prelude.{arith, false, refl, true, ℕ, ◌≡◌, ◌≢◌}
use asset_discovery.Prelude.Map.{lookup}
use asset_discovery.Prelude.Text.{is_empty}
use mathlib.Core.Path.{subst}

-- Every shard holds its invariant.
abbrev pub ManagerInv : Manager → Type 0
ManagerInv m = (i : ℕ) → CellInv i (cell m i)

-- What Apply promises of the manager.
pub record AppliedTo (m : Manager) (obs : Observation) (r : Manager × ApplyResult) : Type 0 where
  pub inv : ManagerInv r.0
  pub here :
      Applied m.vendor
        (shard_index obs.mac)
        (cell m (shard_index obs.mac))
        (known
          (lookup (mac_key obs.mac) (m.shards (shard_index obs.mac)).assets)
          (hydrated m.hydrator obs.mac))
        obs
        (cell r.0 (shard_index obs.mac), r.1)
  pub interfaces : (r.0.hydrator ≡ m.hydrator) × (r.0.vendor ≡ m.vendor)
  pub elsewhere : (j : ℕ) → shard_index obs.mac ≢ j → cell r.0 j ≡ cell m j

pub update_self {ℓ} : {A : Type ℓ} (f : ℕ → A) (i : ℕ) (v : A) → update f i v i ≡ v
update_self f i v = ground arith

pub update_ne {ℓ} : {A : Type ℓ} (f : ℕ → A) (i j : ℕ) (v : A) → i ≢ j → update f i v j ≡ f j
update_ne f i j v h = ground arith

cell-put_cell_self : (m : Manager) (i : ℕ) (c : Cell) → cell (put_cell m i c) i ≡ c
cell-put_cell_self m i c = rw (update_self m.shards i c.shard, update_self m.resolver i c.index)

cell-put_cell_ne : (m : Manager) (i j : ℕ) (c : Cell) → i ≢ j → cell (put_cell m i c) j ≡ cell m j
cell-put_cell_ne m i j c h =
    rw (update_ne m.shards i j c.shard h, update_ne m.resolver i j c.index h)

pub put_cell-ManagerInv :
    (m : Manager) (i : ℕ) (c : Cell) → ManagerInv m → CellInv i c → ManagerInv (put_cell m i c)
put_cell-ManagerInv m i c inv v j = elim (ℕ_discrete i j) [
  | yes e ↦ subst (λ k. CellInv k (cell (put_cell m i c) k)) e (rw (cell-put_cell_self m i c) v)
  | no e ↦ rw (cell-put_cell_ne m i j c e) (inv j)
]

finish-AppliedTo :
    (m : Manager) (obs : Observation) (o : Outcome (Cell × ApplyResult))
    → ManagerInv m
    → Returns
        (Applied m.vendor
          (shard_index obs.mac)
          (cell m (shard_index obs.mac))
          (known
            (lookup (mac_key obs.mac) (m.shards (shard_index obs.mac)).assets)
            (hydrated m.hydrator obs.mac))
          obs)
        o
    → Returns (AppliedTo m obs) (finish_apply m (shard_index obs.mac) o)
finish-AppliedTo m obs nil_dereference inv p = absurd p
finish-AppliedTo m obs (returned (c, r)) inv p = record {
  inv = put_cell-ManagerInv m (shard_index obs.mac) c inv p.inv;
  here = rw (cell-put_cell_self m (shard_index obs.mac) c) p;
  interfaces = (refl, refl);
  elsewhere = λ j h. cell-put_cell_ne m (shard_index obs.mac) j c h;
}

pub valid-mac : (obs : Observation) → valid obs ≡ true → is_empty obs.mac ≡ false
unfolding valid
valid-mac obs h = ground arith

-- On a manager whose shards are in order, whose hydrator returns rows of the address that was asked
-- for under its id, Apply of a valid observation returns, without a panic. It starts from the asset in
-- memory, or else from the one in the database, or else from a new one; it stores that asset merged
-- with the observation, and online if it was online, offline or new (a status that the program does
-- not know stays); it marks it dirty whenever it was created, was offline, or the merge reports a
-- change, touches no other asset and no other shard, keeps every dirty mark, and leaves the shards in
-- order.
pub apply-AppliedTo :
    (m : Manager) (obs : Observation)
    → ManagerInv m
    → HydratorLaw m.hydrator
    → valid obs ≡ true
    → Returns (AppliedTo m obs) (apply m obs)
unfolding apply apply_resolved sharded_resolve resolve
apply-AppliedTo m obs inv law ok = rw ok (
    finish-AppliedTo m obs _ inv (
      apply_locked-Applied m.vendor (shard_index obs.mac) (cell m (shard_index obs.mac)) obs
        (inv (shard_index obs.mac)) (valid-mac obs ok) refl m.hydrator law))
