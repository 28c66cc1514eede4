-- ===== src/Asset/Interleaved/Safety.antt =====
-- Without evictions, no order of the steps of Apply makes one panic.
use asset_discovery.Asset.Interleaved.{
  Callers, Event, Pending, calls, drop_at, finish_at, locks, resolves, run_event, run_schedule,
  then_run_schedule, with_manager,
}
use asset_discovery.Asset.Manager.{Manager, apply_resolved, new_manager}
use asset_discovery.Asset.Manager.Run.{
  CallLaw, Sound, ignore_result, new_manager-Sound, step, step-Sound,
}
use asset_discovery.Asset.Shard.{Outcome, VendorResolver, nil_dereference, returned}
use asset_discovery.Asset.Shard.Apply.{Returns}
use asset_discovery.Asset.Types.{valid}
use asset_discovery.Prelude.{
  All, Bool-cases, List, Option, [], arith, get_elem?, inl, inr, none, refl, some, suc, zero, ℕ,
  ◌∷◌, ◌≡◌,
}
use asset_discovery.Asset.Interleaved.Growth.{NoEviction, step-Grows}
use asset_discovery.Asset.Interleaved.Held.{All-Grows, Grows, Held, Held-Kept, Kept, resolve-Held}

-- The manager is in order and all callers are held.
pub record Safe (s : Callers) : Type 0 where
  pub sound : Sound s.manager
  pub held : All (Held s.manager) s.pending

-- A call is no eviction, and the database keeps what it promises in it.
abbrev pub EventLaw : Event → Type 0
EventLaw (calls c) = NoEviction c × CallLaw c
EventLaw (resolves obs) = Unit
EventLaw (locks n) = Unit

with_manager-Safe :
    (m : Manager) (ps : List Pending) (o : Outcome Manager)
    → All (Held m) ps
    → Returns Sound o
    → Returns (Grows m) o
    → Returns Safe (with_manager ps o)
with_manager-Safe m ps nil_dereference h s g = s
with_manager-Safe m ps (returned m') h s g = record { sound = s; held = All-Grows m m' ps g h }

All-drop_at : (P : Pending → Type 0) (n : ℕ) (ps : List Pending) → All P ps → All P (drop_at n ps)
unfolding drop_at
All-drop_at P n [] a = tt
All-drop_at P zero (p ∷ ps) a = a.1
All-drop_at P (suc n) (p ∷ ps) a = (a.0, All-drop_at P n ps a.1)

All-get_elem? :
    (P : Pending → Type 0) (n : ℕ) (ps : List Pending) (p : Pending)
    → All P ps
    → get_elem? ps n ≡ some p
    → P p
All-get_elem? P n [] p a e = cc
All-get_elem? P zero (q ∷ ps) p a e = mathlib.Core.Path.subst P (ground (arith, e)) a.0
All-get_elem? P (suc n) (q ∷ ps) p a e = All-get_elem? P n ps p a.1 e

finish_at-Safe :
    (s : Callers) (n : ℕ) (o : Option Pending)
    → get_elem? s.pending n ≡ o
    → Safe s
    → Returns Safe (finish_at s n o)
finish_at-Safe s n none e h = h
finish_at-Safe s n (some p) e h =
    go (ignore_result (apply_resolved s.manager p.obs p.target))
      (Held-Kept s.manager p h.sound (All-get_elem? (Held s.manager) n s.pending p h.held e))
  where
    go :
        (o : Outcome Manager)
        → Returns (Kept s.manager) o
        → Returns Safe (with_manager (drop_at n s.pending) o)
    go nil_dereference k = k
    go (returned m') k = record {
      sound = k.sound;
      held =
          All-Grows s.manager m' (drop_at n s.pending) k.grows
            (All-drop_at (Held s.manager) n s.pending h.held);
    }

run_event-Safe : (s : Callers) (e : Event) → EventLaw e → Safe s → Returns Safe (run_event s e)
unfolding run_event
run_event-Safe s (calls c) l h =
    with_manager-Safe s.manager s.pending (step s.manager c) h.held
      (step-Sound s.manager c l.1 h.sound) (step-Grows s.manager c l.0 h.sound)
run_event-Safe s (resolves obs) l h = elim (Bool-cases (valid obs)) [
  | inl e ↦
      rw e (record { sound = h.sound; held = (resolve-Held s.manager obs h.sound.inv e, h.held) })
  | inr e ↦ rw e h
]
run_event-Safe s (locks n) l h = finish_at-Safe s n (get_elem? s.pending n) refl h

run_schedule-Safe :
    (es : List Event) (s : Callers) → All EventLaw es → Safe s → Returns Safe (run_schedule s es)
unfolding run_schedule
run_schedule-Safe [] s l h = h
run_schedule-Safe (e ∷ es) s l h =
    go (run_event s e) (run_event-Safe s e l.0 h) (λ s' k. run_schedule-Safe es s' l.1 k)
  where
    go :
        (o : Outcome Callers)
        → Returns Safe o
        → ((s' : Callers) → Safe s' → Returns Safe (run_schedule s' es))
        → Returns Safe (then_run_schedule o (λ s'. run_schedule s' es))
    go nil_dereference k f = k
    go (returned s') k f = f s' k

-- From a new manager, in whatever order the steps of any number of Apply calls and of the other calls run,
-- none panics as long as no call is an eviction: the shards stay in order, and every Apply that has
-- resolved its address and not yet taken the lock can still end; provided that the rows which the
-- database returns carry the address that was asked for and the id that belongs to it.
pub run_schedule-new_manager-Safe :
    (v : Option VendorResolver) (es : List Event)
    → All EventLaw es
    → Returns Safe (run_schedule (record { manager = new_manager v; pending = [] }) es)
run_schedule-new_manager-Safe v es l =
    run_schedule-Safe es _ l (record { sound = new_manager-Sound v; held = tt })
