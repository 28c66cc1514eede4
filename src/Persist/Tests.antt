-- ===== src/Persist/Tests.antt =====
-- The theorems of the persister at a database that fails a number of times.
use asset_discovery.Asset.Tests.{laptop}
use asset_discovery.Asset.Types.{AssetSnapshot, snapshot}
use asset_discovery.Persist.{
  Environment, Persister, SaveError, collect_batch, database_error, flush, run_persister,
  save_attempts, save_with_retry,
}
use asset_discovery.Persist.Flush.{batch_of, flush-ledger}
use asset_discovery.Persist.Loop.{batches_of, drained_by, run_persister-ledger}
use asset_discovery.Persist.Retry.{after_failures, save_with_retry_recovers}
use asset_discovery.Prelude.{
  List, Option, [], arith, false, length, none, refl, some, suc, zero, ℕ, ◌++◌, ◌∷◌, ◌≡◌, ◌≤◌,
}
use asset_discovery.Prelude.Time.{pos}

abbrev fails_first : List AssetSnapshot → ℕ → Option SaveError × ℕ
fails_first batch zero = (none, zero)
fails_first batch (suc n) = (some database_error, n)

-- The state is the number of saves that will fail; each drain has two assets.
abbrev flaky : Environment ℕ
flaky = record {
  drain_dirty = λ r. (snapshot laptop ∷ snapshot laptop ∷ [], r);
  save_batch = fails_first;
  wait = λ d r. (false, r);
  save_statistics = none;
}

abbrev one_by_one : Persister
one_by_one = record {
  opts = record {
    batch_size = pos 1;
    flush_every = pos 1;
    flush_timeout = pos 1;
    retry_limit = pos 3;
    retry_backoff = pos 7;
  };
  latest = [];
  flush_count = 0;
  flush_errors = 0;
}

flush-ledger_example :
    (batch_of flaky one_by_one 9 ++ (flush flaky one_by_one 9).1.0.latest
      ≡ one_by_one.latest ++ (flaky.drain_dirty 9).0)
    × (length (batch_of flaky one_by_one 9) ≤ 1)
flush-ledger_example = flush-ledger flaky one_by_one 9 1 refl (omega arith)

save_with_retry_recovers_example :
    save_with_retry flaky one_by_one.opts [] 2
    ≡ (none, (flaky.save_batch [] (after_failures flaky [] 2 (pos 7) 2)).1)
unfolding after_failures
save_with_retry_recovers_example =
    save_with_retry_recovers flaky [] one_by_one.opts 2 2 (omega arith)
      (refl, refl, (refl, refl, tt)) refl

abbrev nothing_else : ℕ → ℕ
nothing_else r = r

run_persister-ledger_example :
    (batches_of flaky (nothing_else ∷ []) nothing_else one_by_one 0
        ++ (run_persister flaky (nothing_else ∷ []) nothing_else one_by_one 0).1.0.latest
      ≡ drained_by flaky (nothing_else ∷ []) nothing_else one_by_one 0)
    × (length (batches_of flaky (nothing_else ∷ []) nothing_else one_by_one 0) ≤ 2)
run_persister-ledger_example =
    run_persister-ledger flaky (nothing_else ∷ []) nothing_else one_by_one 0 1 refl (omega arith)

-- Two of four assets are pending when Run returns without an error.
shutdown_leaves_two :
    ((run_persister flaky (nothing_else ∷ []) nothing_else one_by_one 0).0 ≡ none)
    × (length (run_persister flaky (nothing_else ∷ []) nothing_else one_by_one 0).1.0.latest ≡ 2)
unfolding run_persister flush collect_batch save_with_retry save_attempts
shutdown_leaves_two = (refl, refl)
