-- ===== src/Persist/Loop.antt =====
-- What Run of the persister saves in all.
use asset_discovery.Asset.Types.{AssetSnapshot}
use asset_discovery.Persist.{Environment, Persister, flush, run_persister}
use asset_discovery.Persist.Flush.{batch_of, flush-ledger, flush-opts}
use asset_discovery.Prelude.{
  List, [], ap, arith, length, length-append, suc, sym, ℕ, ◌*◌, ◌++◌, ◌<◌, ◌∙◌, ◌∷◌, ◌≡◌, ◌≤◌,
}
use asset_discovery.Prelude.Time.{pos}
use mathlib.Core.List.{append_assoc}

module _ {R : Type 0} (env : Environment R) where
  -- The batches that the flushes of a run take, one after the other.
  unfoldable pub batches_of : List (R → R) → (R → R) → Persister → R → List AssetSnapshot
  batches_of [] last p r = batch_of env p (last r)
  batches_of (w ∷ ws) last p r =
      let (_, (p', r')) = flush env p (w r) in batch_of env p (w r) ++ batches_of ws last p' r'

  -- What the source hands to these flushes.
  unfoldable pub drained_by : List (R → R) → (R → R) → Persister → R → List AssetSnapshot
  drained_by [] last p r = (env.drain_dirty (last r)).0
  drained_by (w ∷ ws) last p r =
      let (_, (p', r')) = flush env p (w r) in (env.drain_dirty (w r)).0 ++ drained_by ws last p' r'

  splice :
      (b bs l l1 latest d ds : List AssetSnapshot)
      → b ++ l1 ≡ latest ++ d
      → bs ++ l ≡ l1 ++ ds
      → (b ++ bs) ++ l ≡ latest ++ (d ++ ds)
  splice b bs l l1 latest d ds e f =
      append_assoc b bs l
      ∙ ap (λ t. b ++ t) f
      ∙ sym (append_assoc b l1 ds)
      ∙ ap (λ t. t ++ ds) e
      ∙ append_assoc latest d ds

  -- Over a run, whatever happens outside between its flushes: the batches that were taken and what is
  -- pending at the end are, in this order, what was pending at the start and what the source handed over.
  -- All batches together have at most batch_size assets for each tick and for the final flush, so what
  -- exceeds that is left pending when Run returns.
  pub run_persister-ledger :
      (ws : List (R → R)) (last : R → R) (p : Persister) (r : R) (n : ℕ)
      → p.opts.batch_size ≡ pos n
      → 0 < n
      → (batches_of ws last p r ++ (run_persister env ws last p r).1.0.latest
          ≡ p.latest ++ drained_by ws last p r)
        × (length (batches_of ws last p r) ≤ n * suc (length ws))
  unfolding run_persister batches_of drained_by
  run_persister-ledger [] last p r n e h =
      let (kept, small) = flush-ledger env p (last r) n e h in (kept, omega (arith, small))
  run_persister-ledger (w ∷ ws) last p r n e h =
      let (p', r') = (flush env p (w r)).1 in
      let (kept, small) = flush-ledger env p (w r) n e h in
      let (rest, few) =
        run_persister-ledger ws last p' r' n (ap (λ o. o.batch_size) (flush-opts env p (w r)) ∙ e)
          h in
      let sum = length-append (batch_of env p (w r)) (batches_of ws last p' r') in
      (
        splice (batch_of env p (w r)) (batches_of ws last p' r') _ p'.latest p.latest _
            (drained_by ws last p' r') kept rest,
        grind (arith, sum, small, few),
      )
