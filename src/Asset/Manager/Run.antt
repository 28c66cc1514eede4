-- ===== src/Asset/Manager/Run.antt =====
-- The manager under any sequence of its calls, each run by itself.
use asset_discovery.Asset.Lifecycle.{by_shard, drain_shard}
use asset_discovery.Asset.Lifecycle.Evict.{evict_cell-CellInv}
use asset_discovery.Asset.Lifecycle.Load.{by_shard-ForShard, load_snapshots-CellInv}
use asset_discovery.Asset.Lifecycle.Sweep.{sweep_shard-CellInv}
use asset_discovery.Asset.Manager.{cell}
use asset_discovery.Asset.Manager.Apply.{AppliedTo, apply-AppliedTo}
use asset_discovery.Asset.Shard.Apply.{CellInv-same}
use asset_discovery.Asset.Types.{valid}
use asset_discovery.Prelude.{Bool-cases, inl, inr, sym}
use mathlib.Core.Path.{subst}
use asset_discovery.Asset.Lifecycle.Load.{SnapshotLaw}
use asset_discovery.Asset.Manager.{
  Manager, apply, drain_dirty, evict_stale, load, new_manager, record_drop, record_packet,
  set_hydrator, sweep,
}
use asset_discovery.Asset.Manager.Apply.{ManagerInv}
use asset_discovery.Asset.Shard.{
  ApplyResult, Hydrator, Outcome, VendorResolver, nil_dereference, returned,
}
use asset_discovery.Asset.Shard.Apply.{Returns}
use asset_discovery.Asset.Shard.Invariant.{empty_cell-CellInv}
use asset_discovery.Asset.Shard.Locked.{HydratorLaw}
use asset_discovery.Asset.Types.{AssetSnapshot, Observation}
use asset_discovery.Prelude.{All, List, Option, [], refl, some, ◌∷◌}
use asset_discovery.Prelude.Time.{Duration, Time}

pub data Call : Type 0 where
  applies : Observation → Call
  sweeps : Time → Duration → Call
  evicts : Time → Duration → Call
  drains : Call
  loads : List AssetSnapshot → Call
  hydrates_by : Hydrator → Call
  records_packet : Call
  records_drop : Call

abbrev pub ignore_result : Outcome (Manager × ApplyResult) → Outcome Manager
ignore_result nil_dereference = nil_dereference
ignore_result (returned (m, r)) = returned m

unfoldable pub step : Manager → Call → Outcome Manager
step m (applies obs) = ignore_result (apply m obs)
step m (sweeps now d) = returned (sweep m now d).0
step m (evicts now d) = returned (evict_stale m now d).0
step m drains = returned (drain_dirty m).1
step m (loads ss) = returned (load m ss).0
step m (hydrates_by h) = returned (set_hydrator m h)
step m records_packet = returned (record_packet m)
step m records_drop = returned (record_drop m)

abbrev pub then_run : Outcome Manager → (Manager → Outcome Manager) → Outcome Manager
then_run nil_dereference f = nil_dereference
then_run (returned m) f = f m

unfoldable pub run : Manager → List Call → Outcome Manager
unfolding step
run m [] = returned m
run m (c ∷ cs) = then_run (step m c) (λ m'. run m' cs)

-- What the database promises in a call.
abbrev pub CallLaw : Call → Type 0
CallLaw (loads ss) = All SnapshotLaw ss
CallLaw (hydrates_by h) = HydratorLaw (some h)
CallLaw _ = Unit

pub record Sound (m : Manager) : Type 0 where
  pub inv : ManagerInv m
  pub law : HydratorLaw m.hydrator

pub new_manager-Sound : (v : Option VendorResolver) → Sound (new_manager v)
new_manager-Sound v = record { inv = λ i. empty_cell-CellInv i; law = tt }

ignore-Sound :
    (m : Manager) (obs : Observation) (o : Outcome (Manager × ApplyResult))
    → HydratorLaw m.hydrator
    → Returns (AppliedTo m obs) o
    → Returns Sound (ignore_result o)
ignore-Sound m obs nil_dereference law p = p
ignore-Sound m obs (returned (m', r)) law p = record {
  inv = p.inv;
  law = subst HydratorLaw (sym p.interfaces.0) law;
}

pub apply-Sound :
    (m : Manager) (obs : Observation) → Sound m → Returns Sound (ignore_result (apply m obs))
apply-Sound m obs s = elim (Bool-cases (valid obs)) [
  | inl e ↦ ignore-Sound m obs (apply m obs) s.law (apply-AppliedTo m obs s.inv s.law e)
  | inr e ↦ unfold apply in rw e s
]

pub step-Sound : (m : Manager) (c : Call) → CallLaw c → Sound m → Returns Sound (step m c)
unfolding step sweep evict_stale drain_dirty load set_hydrator record_packet record_drop drain_shard
step-Sound m (applies obs) l s = apply-Sound m obs s
step-Sound m (sweeps now d) l s = record {
  inv = λ i. sweep_shard-CellInv i now d (cell m i) (s.inv i);
  law = s.law;
}
step-Sound m (evicts now d) l s = record {
  inv = λ i. evict_cell-CellInv i now d (cell m i) (s.inv i);
  law = s.law;
}
step-Sound m drains l s = record {
  inv = λ i. CellInv-same i (cell m i) _ refl refl (s.inv i);
  law = s.law;
}
step-Sound m (loads ss) l s = record {
  inv = λ i.
      load_snapshots-CellInv i (cell m i) 0 (by_shard i ss) (by_shard-ForShard i ss l) (s.inv i);
  law = s.law;
}
step-Sound m (hydrates_by h) l s = record { inv = s.inv; law = l }
step-Sound m records_packet l s = record { inv = s.inv; law = s.law }
step-Sound m records_drop l s = record { inv = s.inv; law = s.law }

then_run-Sound :
    (o : Outcome Manager) (f : Manager → Outcome Manager)
    → Returns Sound o
    → ((m : Manager) → Sound m → Returns Sound (f m))
    → Returns Sound (then_run o f)
then_run-Sound nil_dereference f s k = s
then_run-Sound (returned m) f s k = k m s

pub run-Sound : (cs : List Call) (m : Manager) → All CallLaw cs → Sound m → Returns Sound (run m cs)
unfolding run
run-Sound [] m l s = s
run-Sound (c ∷ cs) m l s =
    then_run-Sound (step m c) _ (step-Sound m c l.0 s) (λ m' s'. run-Sound cs m' l.1 s')

-- From a new manager, whatever sequence of whole calls is made, none panics, and afterwards every
-- shard has its assets under their own ids, in the shard of their address, with exactly those ids
-- bound in the resolver; provided that the rows which the database returns carry the address that
-- was asked for and the id that belongs to it.
pub run-new_manager-Sound :
    (v : Option VendorResolver) (cs : List Call)
    → All CallLaw cs
    → Returns Sound (run (new_manager v) cs)
run-new_manager-Sound v cs l = run-Sound cs (new_manager v) l (new_manager-Sound v)
