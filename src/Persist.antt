-- ===== src/Persist.antt =====
-- internal/persist: the Persister, which drains the changed assets and saves them in batches. The
-- source, the repository and the clock are not of this package: an Environment has what Flush calls
-- of them, on a state R of the outside world. Logging and the duration of a flush are left out.
pub mod Flush
pub mod Retry
pub mod Loop
pub mod Tests
use asset_discovery.Asset.Types.{AssetSnapshot}
use asset_discovery.Prelude.{
  Bool, List, Option, [], drop, false, if◌then◌else◌, length, ltb, none, some, suc, take, true,
  zero, ℕ, ◌%◌, ◌&&◌, ◌*◌, ◌++◌, ◌+◌, ◌∷◌,
}
use asset_discovery.Prelude.Time.{Duration, add_duration, ltb_ℤ, negsuc, pos, second, ℤ}
use asset_discovery.Stats.{counter_mod}

pub record Options : Type 0 where
  pub batch_size : ℤ
  pub flush_every : Duration
  pub flush_timeout : Duration
  pub retry_limit : ℤ
  pub retry_backoff : Duration

abbrev pub millisecond : ℕ
millisecond = 1000000

unfoldable pub default_options : Options
default_options = record {
  batch_size = pos 500;
  flush_every = pos (5 * second);
  flush_timeout = pos (10 * second);
  retry_limit = pos 3;
  retry_backoff = pos (250 * millisecond);
}

-- x where it is positive, and d otherwise
abbrev pub positive_or : ℤ → ℤ → ℤ
positive_or x d = if ltb_ℤ (pos 0) x then x else d

unfoldable pub effective_options : Options → Options
unfolding default_options
effective_options o = record {
  batch_size = positive_or o.batch_size default_options.batch_size;
  flush_every = positive_or o.flush_every default_options.flush_every;
  flush_timeout = positive_or o.flush_timeout default_options.flush_timeout;
  retry_limit = positive_or o.retry_limit default_options.retry_limit;
  retry_backoff = positive_or o.retry_backoff default_options.retry_backoff;
}

-- Errors of SaveBatch, of the context, and the one that the loop makes when it never ran.
pub data SaveError : Type 0 where
  canceled context_done database_error unknown_error : SaveError

-- drain_dirty is DrainDirty of the source, save_batch is SaveBatch (none for a nil error), wait is
-- the select on the context and the timer (true where the context was done), and save_statistics
-- is SaveStatistics on the counters of that moment, whose error is only logged.
pub record Environment (R : Type 0) : Type 0 where
  pub drain_dirty : R → List AssetSnapshot × R
  pub save_batch : List AssetSnapshot → R → Option SaveError × R
  pub wait : Duration → R → Bool × R
  pub save_statistics : Option (R → R)

pub record Persister : Type 0 where
  pub opts : Options
  pub latest : List AssetSnapshot
  pub flush_count : ℕ
  pub flush_errors : ℕ

unfoldable pub new_persister : Persister
new_persister = record { opts = default_options; latest = []; flush_count = 0; flush_errors = 0 }

unfoldable pub set_options : Persister → Options → Persister
unfolding effective_options
set_options p o = record p { opts = effective_options o }

-- (assets, overflow) for a limit: no limit where it is not positive
abbrev pub split_at : ℤ → List AssetSnapshot → List AssetSnapshot × List AssetSnapshot
split_at (pos n) assets =
    if ltb 0 n && ltb n (length assets) then (take n assets, drop n assets) else (assets, [])
split_at (negsuc n) assets = (assets, [])

-- The batch and the new persister.
unfoldable pub collect_batch :
    {R : Type 0} → Environment R → Persister → R → List AssetSnapshot × (Persister × R)
collect_batch env p r =
    let (drained, r') = env.drain_dirty r in
    let (batch, overflow) = split_at p.opts.batch_size (p.latest ++ drained) in
    (batch, (record p { latest = overflow }, r'))

abbrev pub max_backoff : Duration
max_backoff = pos (5 * second)

-- backoff *= 2
abbrev pub double : Duration → Duration
double b = add_duration b b

abbrev pub next_backoff : Duration → Duration
next_backoff b = if ltb_ℤ max_backoff (double b) then max_backoff else double b

abbrev pub is_canceled : SaveError → Bool
is_canceled canceled = true
is_canceled _ = false

-- The select: k is the rest of the loop.
abbrev pub after_wait : {R : Type 0} → Bool → R → (R → Option SaveError × R) → Option SaveError × R
after_wait true r k = (some context_done, r)
after_wait false r k = k r

abbrev pub after_save :
    {R : Type 0}
    → Environment R
    → Duration
    → Option SaveError
    → R
    → (SaveError → R → Option SaveError × R)
    → Option SaveError × R
after_save env backoff none r k = (none, r)
after_save env backoff (some e) r k =
    let (done, r') = env.wait backoff r in
    if is_canceled e then (some e, r) else after_wait done r' (k e)

-- The loop, with the number of attempts that are left.
unfoldable pub save_attempts :
    {R : Type 0}
    → Environment R
    → List AssetSnapshot
    → ℕ
    → Duration
    → SaveError
    → R
    → Option SaveError × R
save_attempts env batch zero backoff last r = (some last, r)
save_attempts env batch (suc n) backoff last r =
    let (err, r') = env.save_batch batch r in
    after_save env backoff err r' (λ e. save_attempts env batch n (next_backoff backoff) e)

abbrev pub attempts : ℤ → ℕ
attempts (pos zero) = 1
attempts (pos (suc n)) = suc n
attempts (negsuc n) = 1

unfoldable pub save_with_retry :
    {R : Type 0} → Environment R → Options → List AssetSnapshot → R → Option SaveError × R
unfolding save_attempts
save_with_retry env o batch r =
    save_attempts env batch (attempts o.retry_limit)
      (positive_or o.retry_backoff (pos (100 * millisecond))) unknown_error r

abbrev pub record_statistics : {R : Type 0} → Option (R → R) → R → R
record_statistics none r = r
record_statistics (some save) r = save r

abbrev pub finish_flush :
    {R : Type 0}
    → Environment R
    → Persister
    → Option SaveError × R
    → Option SaveError × (Persister × R)
finish_flush env p (some e, r) =
    (some e, (record p { flush_errors = (p.flush_errors + 1) % counter_mod }, r))
finish_flush env p (none, r) = (
  none,
  (
    record p { flush_count = (p.flush_count + 1) % counter_mod },
    record_statistics env.save_statistics r,
  ),
)

-- Flush of a batch that was collected.
abbrev pub flush_batch :
    {R : Type 0}
    → Environment R
    → Persister
    → List AssetSnapshot
    → R
    → Option SaveError × (Persister × R)
flush_batch env p [] r = (none, (p, r))
flush_batch env p (s ∷ batch) r = finish_flush env p (save_with_retry env p.opts (s ∷ batch) r)

unfoldable pub flush :
    {R : Type 0} → Environment R → Persister → R → Option SaveError × (Persister × R)
unfolding collect_batch save_with_retry
flush env p r = let (batch, (p', r')) = collect_batch env p r in flush_batch env p' batch r'

-- Run, on the ticks that come before the context is done: before each tick, and before the final flush,
-- the outside world changes.
unfoldable pub run_persister :
    {R : Type 0}
    → Environment R
    → List (R → R)
    → (R → R)
    → Persister
    → R
    → Option SaveError × (Persister × R)
unfolding flush
run_persister env [] last p r = flush env p (last r)
run_persister env (w ∷ ws) last p r =
    let (_, (p', r')) = flush env p (w r) in run_persister env ws last p' r'
