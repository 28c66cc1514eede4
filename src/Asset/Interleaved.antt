-- ===== src/Asset/Interleaved.antt =====
-- internal/asset/manager.go under several callers: Apply is two steps, one that resolves the address
-- and one under the lock of a shard, and steps of other callers run between them. A schedule is the
-- order in which the steps run; the callers that have resolved wait in a list.
pub mod Held
pub mod Growth
pub mod Safety
use asset_discovery.Asset.Identity.{sharded_resolve}
use asset_discovery.Asset.Manager.{Manager, apply_resolved}
use asset_discovery.Asset.Manager.Run.{Call, ignore_result, step}
use asset_discovery.Asset.Shard.{Outcome, nil_dereference, returned}
use asset_discovery.Asset.Types.{AssetId, Observation, valid}
use asset_discovery.Prelude.{
  All, Bool, Bool-cases, List, Option, Option-cases, [], ap, arith, drop, false, get_elem?, Gives,
  if◌then◌else◌, inl, inr, leb, leb→le, length, length-append, length-drop, length-take, lt→ltb,
  ltb, ltb→lt, map, none, not, refl, some, suc, sym, take, take-append-drop, true, zero, ==_iff, ℕ,
  ◌%◌, ◌&&◌, ◌*◌, ◌++◌, ◌+◌, ◌-◌, ◌/◌, ◌<◌, ◌==◌, ◌^◌, ◌||◌, ◌↔◌, ◌∙◌, ◌∷◌, ◌≡◌, ◌≢◌, ◌≤◌, ◌⊎◌,
}

-- A call of Apply that has resolved its address: the observation, the id if there was one, and the
-- shard.
pub record Pending : Type 0 where
  pub obs : Observation
  pub target : Option AssetId × ℕ

pub record Callers : Type 0 where
  pub manager : Manager
  pub pending : List Pending

pub data Event : Type 0 where
  -- A call that is one step here.
  calls : Call → Event
  -- A caller of Apply resolves the address of its observation.
  resolves : Observation → Event
  -- The caller at that place of the list takes the lock and ends its Apply.
  locks : ℕ → Event

unfoldable pub drop_at {ℓ} : {A : Type ℓ} → ℕ → List A → List A
drop_at n [] = []
drop_at zero (x ∷ xs) = xs
drop_at (suc n) (x ∷ xs) = x ∷ drop_at n xs

abbrev pub with_manager : List Pending → Outcome Manager → Outcome Callers
with_manager ps nil_dereference = nil_dereference
with_manager ps (returned m) = returned (record { manager = m; pending = ps })

abbrev pub finish_at : Callers → ℕ → Option Pending → Outcome Callers
finish_at s n none = returned s
finish_at s n (some p) =
    with_manager (drop_at n s.pending) (ignore_result (apply_resolved s.manager p.obs p.target))

unfoldable pub run_event : Callers → Event → Outcome Callers
unfolding step sharded_resolve apply_resolved drop_at valid
run_event s (calls c) = with_manager s.pending (step s.manager c)
run_event s (resolves obs) =
    let p : Pending = record { obs = obs; target = sharded_resolve s.manager.resolver obs.mac } in
    if valid obs then returned (record s { pending = p ∷ s.pending }) else returned s
run_event s (locks n) = finish_at s n (get_elem? s.pending n)

abbrev pub then_run_schedule : Outcome Callers → (Callers → Outcome Callers) → Outcome Callers
then_run_schedule nil_dereference f = nil_dereference
then_run_schedule (returned s) f = f s

unfoldable pub run_schedule : Callers → List Event → Outcome Callers
unfolding run_event
run_schedule s [] = returned s
run_schedule s (e ∷ es) = then_run_schedule (run_event s e) (λ s'. run_schedule s' es)
