-- ===== src/Pipeline.antt =====
-- internal/pipeline/runner.go, stages.go, workerpool.go and shutdown.go. A worker takes packets until
-- the channel is closed. Logging is left out.
pub mod Counts
pub mod Tests
use asset_discovery.Asset.Manager.{Manager, apply, evict_stale, record_packet, sweep}
use asset_discovery.Asset.Shard.{ApplyResult, Outcome, nil_dereference, returned}
use asset_discovery.Asset.Types.{Observation}
use asset_discovery.Persist.{Environment, Persister, flush}
use asset_discovery.Prelude.{
  All, Bool, Bool-cases, List, Option, Option-cases, [], ap, arith, drop, false, get_elem?, Gives,
  if◌then◌else◌, inl, inr, leb, leb→le, length, length-append, length-drop, length-take, lt→ltb,
  ltb, ltb→lt, map, none, not, refl, some, suc, sym, take, take-append-drop, true, zero, ==_iff, ℕ,
  ◌%◌, ◌&&◌, ◌*◌, ◌++◌, ◌+◌, ◌-◌, ◌/◌, ◌<◌, ◌==◌, ◌^◌, ◌||◌, ◌↔◌, ◌∙◌, ◌∷◌, ◌≡◌, ◌≢◌, ◌≤◌, ◌⊎◌,
}
use asset_discovery.Analyzer.Registry.{Analyzer, analyze}
use asset_discovery.Prelude.Time.{Duration, Time}
use asset_discovery.Stats.{counter_mod}

-- Go's atomic counters.
pub record Counters : Type 0 where
  pub processed : ℕ
  pub applied : ℕ
  pub dropped : ℕ

-- What the loop has: the manager, the counters and the state of the analyzers.
pub record Progress {ℓ} (S : Type ℓ) : Type ℓ where
  pub manager : Manager
  pub counters : Counters
  pub analyzers : S

abbrev pub new_counters : Counters
new_counters = record { processed = 0; applied = 0; dropped = 0 }

abbrev pub count_applied : Counters → Counters
count_applied c = record c { applied = (c.applied + 1) % counter_mod }

abbrev pub then_apply :
    Outcome (Manager × ApplyResult)
    → (Manager → Option (Manager × Counters))
    → Option (Manager × Counters)
then_apply nil_dereference k = none
then_apply (returned (m, r)) k = k m

-- The loop over the observations of a packet. Apply returns no error, so nothing is dropped.
unfoldable pub apply_all : Manager → Counters → List Observation → Option (Manager × Counters)
unfolding apply
apply_all m c [] = some (m, c)
apply_all m c (obs ∷ rest) = then_apply (apply m obs) (λ m'. apply_all m' (count_applied c) rest)

abbrev pub keep_state {ℓ} : {S : Type ℓ} → S → Option (Manager × Counters) → Option (Progress S)
keep_state s none = none
keep_state s (some (m, c)) = some (record { manager = m; counters = c; analyzers = s })

abbrev pub apply_reports {ℓ} :
    {S : Type ℓ} → Manager → Counters → Option (List Observation × S) → Option (Progress S)
apply_reports m c none = none
apply_reports m c (some (obs, s)) = keep_state s (apply_all m c obs)

-- A round of the loop for one packet.
unfoldable pub process {ℓ κ} :
    {S : Type ℓ} {P : Type κ} → List (Analyzer S P) → Progress S → P → Option (Progress S)
unfolding analyze apply_all record_packet
process rs g p =
    apply_reports (record_packet g.manager)
      (record g.counters { processed = (g.counters.processed + 1) % counter_mod })
      (analyze rs g.analyzers p)

abbrev pub then_process {ℓ} :
    {S : Type ℓ} → Option (Progress S) → (Progress S → Option (Progress S)) → Option (Progress S)
then_process none k = none
then_process (some g) k = k g

-- Run with one worker, on the packets that come before the channel is closed; none for a panic.
unfoldable pub run_pipeline {ℓ κ} :
    {S : Type ℓ} {P : Type κ} → List (Analyzer S P) → Progress S → List P → Option (Progress S)
unfolding process
run_pipeline rs g [] = some g
run_pipeline rs g (p ∷ ps) = then_process (process rs g p) (λ g'. run_pipeline rs g' ps)

-- ShutdownFlush: its timeout is the environment's, the error is only logged.
unfoldable pub shutdown_flush :
    {R : Type 0} → Environment R → Option Persister → R → Option Persister × R
unfolding flush
shutdown_flush env none r = (none, r)
shutdown_flush env (some p) r = let (err, (p', r')) = flush env p r in (some p', r')
