-- ===== src/Persist/Retry.antt =====
-- The retries of saveWithRetry.
use asset_discovery.Persist.{attempts, save_with_retry, unknown_error}
use asset_discovery.Prelude.{◌∙◌}
use asset_discovery.Prelude.Time.{negsuc, ℤ}
use asset_discovery.Asset.Types.{AssetSnapshot}
use asset_discovery.Persist.{
  Environment, Options, SaveError, database_error, millisecond, next_backoff, positive_or,
  save_attempts,
}
use asset_discovery.Prelude.{List, arith, false, none, refl, some, suc, zero, ℕ, ◌*◌, ◌<◌, ◌≡◌}
use asset_discovery.Prelude.Time.{Duration, pos}

module _ {R : Type 0} (env : Environment R) (batch : List AssetSnapshot) where
  -- The state after k saves that failed, each with its wait; the waits double up to five seconds.
  unfoldable pub after_failures : ℕ → Duration → R → R
  after_failures zero backoff r = r
  after_failures (suc k) backoff r =
      after_failures k (next_backoff backoff) (env.wait backoff (env.save_batch batch r).1).1

  -- The next k saves fail in the database, while the context is not done.
  abbrev pub FailsFor : ℕ → Duration → R → Type 0
  FailsFor zero backoff r = Unit
  FailsFor (suc k) backoff r =
      ((env.save_batch batch r).0 ≡ some database_error)
      × ((env.wait backoff (env.save_batch batch r).1).0 ≡ false)
      × FailsFor k (next_backoff backoff) (env.wait backoff (env.save_batch batch r).1).1

  abbrev pub first_backoff : Options → Duration
  first_backoff o = positive_or o.retry_backoff (pos (100 * millisecond))

  attempts-give_up :
      (n : ℕ) (backoff : Duration) (r : R)
      → FailsFor n backoff r
      → save_attempts env batch n backoff database_error r
        ≡ (some database_error, after_failures n backoff r)
  unfolding save_attempts after_failures
  attempts-give_up zero backoff r f = refl
  attempts-give_up (suc n) backoff r (e, w, f) =
      rw (e, w) (attempts-give_up n (next_backoff backoff) _ f)

  -- The error of before is not read when there is an attempt.
  save_attempts-suc :
      (n : ℕ) (backoff : Duration) (r : R) (last last' : SaveError)
      → save_attempts env batch (suc n) backoff last r
        ≡ save_attempts env batch (suc n) backoff last' r
  unfolding save_attempts
  save_attempts-suc n backoff r last last' = refl

  attempts-recover :
      (k n : ℕ) (backoff : Duration) (r : R) (last : SaveError)
      → k < n
      → FailsFor k backoff r
      → (env.save_batch batch (after_failures k backoff r)).0 ≡ none
      → save_attempts env batch n backoff last r
        ≡ (none, (env.save_batch batch (after_failures k backoff r)).1)
  unfolding save_attempts after_failures
  attempts-recover k zero backoff r last h f e = absurd (omega (arith, h))
  attempts-recover zero (suc n) backoff r last h f e = rw e refl
  attempts-recover (suc k) (suc n) backoff r last h (f, w, g) e =
      rw (f, w)
        (attempts-recover k n (next_backoff backoff) _ database_error (omega (arith, h)) g e)

  attempts_pos : (l : ℤ) → 0 < attempts l
  attempts_pos (pos zero) = omega arith
  attempts_pos (pos (suc n)) = omega arith
  attempts_pos (negsuc n) = omega arith

  -- A batch whose first k saves fail in the database, where k is less than the number of attempts and
  -- the context is not done, and whose next save succeeds, is saved: the retries
  -- return nil, and what the repository has is what that save left, after k waits that double up to five
  -- seconds.
  pub save_with_retry_recovers :
      (o : Options) (k : ℕ) (r : R)
      → k < attempts o.retry_limit
      → FailsFor k (first_backoff o) r
      → (env.save_batch batch (after_failures k (first_backoff o) r)).0 ≡ none
      → save_with_retry env o batch r
        ≡ (none, (env.save_batch batch (after_failures k (first_backoff o) r)).1)
  unfolding save_with_retry
  save_with_retry_recovers o k r h f e =
      attempts-recover k (attempts o.retry_limit) (first_backoff o) r unknown_error h f e

  -- A batch whose saves all fail in the database while the context is not done is given up after
  -- the retry limit, and at least one attempt, with the error of the database.
  pub save_with_retry_gives_up :
      (o : Options) (r : R)
      → FailsFor (attempts o.retry_limit) (first_backoff o) r
      → save_with_retry env o batch r
        ≡ (some database_error, after_failures (attempts o.retry_limit) (first_backoff o) r)
  unfolding save_with_retry
  save_with_retry_gives_up o r f = go (attempts o.retry_limit) (attempts_pos o.retry_limit) f
    where
      go :
          (n : ℕ)
          → 0 < n
          → FailsFor n (first_backoff o) r
          → save_attempts env batch n (first_backoff o) unknown_error r
            ≡ (some database_error, after_failures n (first_backoff o) r)
      go zero h f = absurd (omega (arith, h))
      go (suc n) h f =
          save_attempts-suc n (first_backoff o) r unknown_error database_error
          ∙ attempts-give_up (suc n) (first_backoff o) r f
