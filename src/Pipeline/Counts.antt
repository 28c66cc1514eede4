-- ===== src/Pipeline/Counts.antt =====
-- What a run of the pipeline counts, and that it does not panic by itself.
use asset_discovery.Analyzer.Registry.{Analyzer, analyze}
use asset_discovery.Asset.Manager.{Manager, apply, record_packet}
use asset_discovery.Asset.Manager.Run.{Sound, apply-Sound, ignore_result}
use asset_discovery.Asset.Shard.{ApplyResult, Outcome, nil_dereference, returned}
use asset_discovery.Asset.Shard.Apply.{Returns}
use asset_discovery.Asset.Types.{Observation}
use asset_discovery.Pipeline.{
  Counters, Progress, apply_all, apply_reports, count_applied, keep_state, process, run_pipeline,
  then_apply, then_process,
}
use asset_discovery.Prelude.{
  List, Option, Option-cases, [], arith, Gives, inl, inr, length, none, refl, some, suc, ℕ, ◌%◌,
  ◌+◌, ◌<◌, ◌∙◌, ◌∷◌, ◌≡◌,
}
use asset_discovery.Stats.{counter_mod}

abbrev add_reports {ℓ} : {S : Type ℓ} → Option (List Observation × S) → (S → Option ℕ) → Option ℕ
add_reports none k = none
add_reports (some (obs, s)) k = mathlib.Core.Option.map (λ n. length obs + n) (k s)

-- The number of observations that the analyzers report of all packets, from a state on; none where one
-- of them panics.
abbrev pub observations {ℓ κ} :
    {S : Type ℓ} {P : Type κ} → List (Analyzer S P) → S → List P → Option ℕ
observations rs s [] = some 0
observations rs s (p ∷ ps) = add_reports (analyze rs s p) (λ s'. observations rs s' ps)

-- A manager in order, and the counters moved on by the processed packets and the applied observations.
pub record Counted (c : Counters) (packets applied : ℕ) (r : Manager × Counters) : Type 0 where
  pub sound : Sound r.0
  pub processed_by : r.1.processed ≡ (c.processed + packets) % counter_mod
  pub applied_by : r.1.applied ≡ (c.applied + applied) % counter_mod
  pub dropped_by : r.1.dropped ≡ c.dropped

record_packet-Sound : (m : Manager) → Sound m → Sound (record_packet m)
unfolding record_packet
record_packet-Sound m s = record { inv = s.inv; law = s.law }

widen :
    (c : Counters) (n : ℕ) (r : Option (Manager × Counters))
    → c.applied < counter_mod
    → Gives (Counted (count_applied c) 0 n) r
    → Gives (Counted c 0 (suc n)) r
widen c n none a h = h
widen c n (some r) a h = record {
  sound = h.sound;
  processed_by = h.processed_by;
  applied_by = h.applied_by ∙ omega (arith, a);
  dropped_by = h.dropped_by;
}

apply_all-Counted :
    (obs : List Observation) (m : Manager) (c : Counters)
    → Sound m
    → c.processed < counter_mod
    → c.applied < counter_mod
    → Gives (Counted c 0 (length obs)) (apply_all m c obs)
unfolding apply_all
apply_all-Counted [] m c s p a = record {
  sound = s;
  processed_by = omega (arith, p);
  applied_by = omega (arith, a);
  dropped_by = refl;
}
apply_all-Counted (o ∷ obs) m c s p a = widen c (length obs) _ a (
    go (apply m o) (apply-Sound m o s)
      (λ m' h. apply_all-Counted obs m' (count_applied c) h p (omega arith)))
  where
    go :
        (r : Outcome (Manager × ApplyResult))
        → Returns Sound (ignore_result r)
        → ((m' : Manager)
            → Sound m'
            → Gives (Counted (count_applied c) 0 (length obs)) (apply_all m' (count_applied c) obs))
        → Gives
            (Counted (count_applied c) 0 (length obs))
            (then_apply r (λ m'. apply_all m' (count_applied c) obs))
    go nil_dereference h k = h
    go (returned (m', r)) h k = k m' h

-- What Counted says of the loop's manager and counters.
abbrev pub Ran {ℓ} : {S : Type ℓ} → Counters → ℕ → ℕ → Progress S → Type 0
Ran c packets applied g = Counted c packets applied (g.manager, g.counters)

chain {ℓ} :
    {S : Type ℓ} (c d : Counters) (n a b : ℕ) (r : Option (Progress S))
    → d.processed ≡ (c.processed + 1) % counter_mod
    → d.applied ≡ (c.applied + a) % counter_mod
    → d.dropped ≡ c.dropped
    → Gives (Ran d n b) r
    → Gives (Ran c (suc n) (a + b)) r
chain c d n a b none p q s h = h
chain c d n a b (some r) p q s h = record {
  sound = h.sound;
  processed_by = h.processed_by ∙ omega (arith, p);
  applied_by = h.applied_by ∙ omega (arith, q);
  dropped_by = h.dropped_by ∙ s;
}

abbrev count_packet : Counters → Counters
count_packet c = record c { processed = (c.processed + 1) % counter_mod }

after_apply {ℓ} :
    {S : Type ℓ} (c : Counters) (n a k : ℕ) (s : S) (r : Option (Manager × Counters))
    (next : Progress S → Option (Progress S))
    → Gives (Counted (count_packet c) 0 a) r
    → ((g : Progress S)
        → g.analyzers ≡ s
        → Sound g.manager
        → g.counters.processed < counter_mod
        → g.counters.applied < counter_mod
        → Gives (Ran g.counters n k) (next g))
    → Gives (Ran c (suc n) (a + k)) (then_process (keep_state s r) next)
after_apply c n a k s none next q on = q
after_apply {S = S} c n a k s (some (m', c')) next q on =
    let g : Progress S = record { manager = m'; counters = c'; analyzers = s } in
    chain c c' n a k (next g) (q.processed_by ∙ omega arith) q.applied_by q.dropped_by
      (on g refl q.sound (rw q.processed_by (omega arith)) (rw q.applied_by (omega arith)))

-- Whatever the analyzers, on a manager that is in order: if none of them panics, a run over any packets ends
-- without a panic. It leaves the manager in order, has counted every packet as processed and every
-- observation that the analyzers report as applied, modulo 2 ^ 64, and has dropped nothing.
pub run_pipeline-Counted {ℓ κ} :
    {S : Type ℓ} {P : Type κ} (rs : List (Analyzer S P)) (ps : List P) (g : Progress S) (n : ℕ)
    → Sound g.manager
    → g.counters.processed < counter_mod
    → g.counters.applied < counter_mod
    → observations rs g.analyzers ps ≡ some n
    → Gives (Ran g.counters (length ps) n) (run_pipeline rs g ps)
unfolding run_pipeline process
run_pipeline-Counted rs [] g n s p a e = record {
  sound = s;
  processed_by = omega (arith, p);
  applied_by = ground (arith, a, e);
  dropped_by = refl;
}
run_pipeline-Counted {S = S} rs (p ∷ ps) g n s h a e =
    go (analyze rs g.analyzers p) e
      (λ g' k sound b d q. run_pipeline-Counted rs ps g' k sound b d q)
  where
    go :
        (r : Option (List Observation × S))
        → add_reports r (λ s'. observations rs s' ps) ≡ some n
        → ((g' : Progress S) (k : ℕ)
            → Sound g'.manager
            → g'.counters.processed < counter_mod
            → g'.counters.applied < counter_mod
            → observations rs g'.analyzers ps ≡ some k
            → Gives (Ran g'.counters (length ps) k) (run_pipeline rs g' ps))
        → Gives (Ran g.counters (suc (length ps)) n) (
            then_process
              (apply_reports (record_packet g.manager) (count_packet g.counters) r)
              (λ g'. run_pipeline rs g' ps))
    go none f on = cc
    go (some (obs, s')) f on = elim (Option-cases (observations rs s' ps)) [
      | inl q ↦ cc (rw q at f)
      | inr (k, q) ↦
          let total : length obs + k ≡ n = ground (arith, rw q at f) in
          mathlib.Core.Path.subst
            (λ t. Gives (Ran g.counters (suc (length ps)) t) (
              then_process
                (apply_reports (record_packet g.manager) (count_packet g.counters) (some (obs, s')))
                (λ g'. run_pipeline rs g' ps)))
            total
            (after_apply g.counters (length ps) (length obs) k s' _ (λ g'. run_pipeline rs g' ps)
              (apply_all-Counted obs (record_packet g.manager) (count_packet g.counters)
                (record_packet-Sound g.manager s) (omega arith) a)
              (λ g' same sound b d. on g' k sound b d (rw same q)))
    ]
