-- ===== src/Persist/Flush.antt =====
-- What a flush takes, saves and keeps.
use asset_discovery.Prelude.{take-append-drop}
use mathlib.Core.List.{append-nil}
use asset_discovery.Asset.Types.{AssetSnapshot}
use asset_discovery.Persist.{
  Environment, Persister, SaveError, collect_batch, finish_flush, flush, flush_batch,
  save_with_retry, split_at,
}
use asset_discovery.Prelude.{
  Bool-cases, List, Option, [], arith, inl, inr, length, length-take, ltb, none, refl, some, ℕ,
  ◌&&◌, ◌++◌, ◌<◌, ◌∷◌, ◌≡◌, ◌≤◌,
}
use asset_discovery.Prelude.Time.{negsuc, pos, ℤ}

split_at_lem : (l : ℤ) (xs : List AssetSnapshot) → (split_at l xs).0 ++ (split_at l xs).1 ≡ xs
split_at_lem (pos n) xs = elim (Bool-cases (ltb 0 n && ltb n (length xs))) [
  | inl e ↦ rw e (take-append-drop n xs)
  | inr e ↦ rw e (append-nil xs)
]
split_at_lem (negsuc n) xs = append-nil xs

split_at-length : (n : ℕ) (xs : List AssetSnapshot) → 0 < n → length (split_at (pos n) xs).0 ≤ n
split_at-length n xs h = ground (arith, length-take n xs)

module _ {R : Type 0} (env : Environment R) where
  -- The batch that a flush takes.
  abbrev pub batch_of : Persister → R → List AssetSnapshot
  batch_of p r = (collect_batch env p r).0

  flush_batch-latest :
      (p : Persister) (batch : List AssetSnapshot) (r : R)
      → (flush_batch env p batch r).1.0.latest ≡ p.latest
  flush_batch-latest p [] r = refl
  flush_batch-latest p (s ∷ batch) r = go (save_with_retry env p.opts (s ∷ batch) r)
    where
      go : (o : Option SaveError × R) → (finish_flush env p o).1.0.latest ≡ p.latest
      go (none, r) = refl
      go (some e, r) = refl

  flush_batch-opts :
      (p : Persister) (batch : List AssetSnapshot) (r : R)
      → (flush_batch env p batch r).1.0.opts ≡ p.opts
  flush_batch-opts p [] r = refl
  flush_batch-opts p (s ∷ batch) r = go (save_with_retry env p.opts (s ∷ batch) r)
    where
      go : (o : Option SaveError × R) → (finish_flush env p o).1.0.opts ≡ p.opts
      go (none, r) = refl
      go (some e, r) = refl

  pub flush-opts : (p : Persister) (r : R) → (flush env p r).1.0.opts ≡ p.opts
  unfolding flush collect_batch
  flush-opts p r = flush_batch-opts _ _ _

  flush_conserves :
      (p : Persister) (r : R)
      → batch_of p r ++ (flush env p r).1.0.latest ≡ p.latest ++ (env.drain_dirty r).0
  unfolding flush collect_batch
  flush_conserves p r = rw (flush_batch-latest _ _ _) (split_at_lem p.opts.batch_size _)

  -- Whether it saves or not, a flush takes the assets that were pending and those that changed, in
  -- this order: the batch is the first of them, at most batch_size, and what is pending afterwards is the
  -- rest. So the batch of a flush that fails is pending no more.
  pub flush-ledger :
      (p : Persister) (r : R) (n : ℕ)
      → p.opts.batch_size ≡ pos n
      → 0 < n
      → (batch_of p r ++ (flush env p r).1.0.latest ≡ p.latest ++ (env.drain_dirty r).0)
        × (length (batch_of p r) ≤ n)
  unfolding collect_batch
  flush-ledger p r n e h = (flush_conserves p r, rw e (split_at-length n _ h))
