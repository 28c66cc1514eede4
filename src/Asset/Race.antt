-- ===== src/Asset/Race.antt =====
-- internal/asset/manager.go: Apply resolves the address before it takes the lock of the shard. Here
-- other calls run between these two steps.
pub mod Calls
use asset_discovery.Asset.Shard.{Hydrator}
use asset_discovery.Asset.Identity.Keys.{is_empty-mac_key}
use asset_discovery.Asset.Manager.{apply, finish_apply}
use asset_discovery.Asset.Manager.Apply.{update_self, valid-mac, AppliedTo, apply-AppliedTo}
use asset_discovery.Asset.Shard.{ApplyResult, Outcome, hydrate, returned}
use asset_discovery.Asset.Shard.Apply.{applied, assets-mark_if, merge_into_counts, revive_counts}
use asset_discovery.Asset.Observe.{uint64_mod}
use asset_discovery.Asset.Shard.Locked.{HydratorLaw, hydrated, known}
use mathlib.Core.Path.{subst}
use asset_discovery.Prelude.{◌+◌, ◌%◌, Gives, ap, none, sym, ℕ, ◌∙◌}
use asset_discovery.Prelude.Map.{insert}
use asset_discovery.Prelude.Map.{lookup-insert_self}
use asset_discovery.Asset.Identity.{
  resolve, generate_asset_id, mac_key, shard_index, sharded_resolve,
}
use asset_discovery.Asset.Lifecycle.{is_stale}
use asset_discovery.Asset.Lifecycle.Evict.{lookup-evict_cell}
use asset_discovery.Asset.Manager.{Manager, apply_resolved, cell, evict_stale}
use asset_discovery.Asset.Manager.Apply.{ManagerInv}
use asset_discovery.Asset.Shard.{
  Cell, VendorResolver, apply_found, apply_locked, create_asset, merge_into, new_asset,
  nil_dereference, update_asset,
}
use asset_discovery.Asset.Shard.Apply.{Returns}
use asset_discovery.Asset.Types.{Asset, AssetId, Mac, Observation, valid}
use asset_discovery.Prelude.{Option, false, refl, some, true, ◌≡◌}
use asset_discovery.Prelude.Map.{lookup}
use asset_discovery.Prelude.Text.{is_empty}
use asset_discovery.Prelude.Time.{Duration, Time}
use asset_discovery.Asset.Race.Calls.{
  asset_of, fresh_asset, counted_once, Made, apply_unresolved_stores, then_call, then_call-Returns,
  overlapping, one_by_one, weaken, unresolved, apply_unknown,
}

-- How often an asset has been sighted.
abbrev count_of : Option Asset → ℕ
count_of none = 0
count_of (some a) = a.seen_count

applied_counts :
    (v : Option VendorResolver) (base : Option Asset) (obs : Observation)
    → (applied v base obs).0.seen_count ≡ (count_of base + 1) % uint64_mod
unfolding new_asset
applied_counts v none obs = merge_into_counts v _ obs
applied_counts v (some a) obs = revive_counts (merge_into v a obs) ∙ merge_into_counts v a obs

known_count :
    (n : ℕ) (o p : Option Asset) → Gives (λ a. a.seen_count ≡ n) o → count_of (known o p) ≡ n
known_count n none p g = absurd g
known_count n (some a) p g = g

abbrev Counted : Manager → Observation → Manager × ApplyResult → Type 0
Counted m obs r =
    ManagerInv r.0
    × (r.0.hydrator ≡ m.hydrator)
    × Gives
        (λ a.
          a.seen_count
          ≡ (count_of (known (asset_of m obs.mac) (hydrated m.hydrator obs.mac)) + 1) % uint64_mod)
        (asset_of r.0 obs.mac)

apply_counts :
    (m : Manager) (obs : Observation)
    → ManagerInv m
    → HydratorLaw m.hydrator
    → valid obs ≡ true
    → Returns (Counted m obs) (apply m obs)
apply_counts m obs inv law ok =
    weaken (AppliedTo m obs) (Counted m obs) (apply m obs)
      (λ r p. (p.inv, p.interfaces.0, rw p.here.stored (applied_counts m.vendor _ obs)))
      (apply-AppliedTo m obs inv law ok)

-- Of two observations of one address, applied one after the other, both are counted.
both_counted :
    (m : Manager) (obs1 obs2 : Observation)
    → ManagerInv m
    → m.hydrator ≡ none
    → valid obs1 ≡ true
    → valid obs2 ≡ true
    → obs1.mac ≡ obs2.mac
    → asset_of m obs1.mac ≡ none
    → Returns (λ r. Gives (λ a. a.seen_count ≡ 2) (asset_of r.0 obs2.mac)) (one_by_one m obs1 obs2)
both_counted m obs1 obs2 inv h ok1 ok2 same e =
    let lawful = λ (o : Option Hydrator) (k : o ≡ none). subst HydratorLaw (sym k) tt in
    then_call-Returns (Counted m obs1) _ (apply m obs1) (λ n. apply n obs2)
      (apply_counts m obs1 inv (lawful m.hydrator h) ok1)
      (λ n r p.
        let once : Gives (λ a. a.seen_count ≡ 1) (asset_of n obs2.mac) =
          subst (λ x. Gives (λ a. a.seen_count ≡ 1) (asset_of n x)) same
            (subst
              (λ o. Gives (λ a. a.seen_count ≡ (count_of o + 1) % uint64_mod) (asset_of n obs1.mac))
              (ap (λ o. known o (hydrated m.hydrator obs1.mac)) e
                ∙ ap (λ o. known none (hydrated o obs1.mac)) h)
              p.2) in
        weaken (Counted n obs2) _ (apply n obs2)
          (λ s q.
            subst (λ k. Gives (λ a. a.seen_count ≡ (k + 1) % uint64_mod) (asset_of s.0 obs2.mac))
              (known_count 1 (asset_of n obs2.mac) (hydrated n.hydrator obs2.mac) once) q.2)
          (apply_counts n obs2 p.0 (lawful n.hydrator (p.1 ∙ h)) ok2))

-- On a manager in order without a hydrator, take two Apply calls with valid observations of one address
-- that has no asset. If both resolve it before either takes the lock, the observation of the first to
-- take the lock is lost: afterwards the asset is the one that the other call makes alone, with one
-- sighting. Two calls that do not overlap leave an asset with two.
pub create_during_apply :
    (m : Manager) (obs1 obs2 : Observation)
    → ManagerInv m
    → m.hydrator ≡ none
    → valid obs1 ≡ true
    → valid obs2 ≡ true
    → obs1.mac ≡ obs2.mac
    → asset_of m obs1.mac ≡ none
    → ((a : Asset) × (a.seen_count ≡ 1)
        × Returns (λ r. asset_of r.0 obs2.mac ≡ some a) (apply m obs2)
        × Returns (λ r. asset_of r.0 obs2.mac ≡ some a) (overlapping m obs1 obs2))
      × Returns
          (λ r. Gives (λ b. b.seen_count ≡ 2) (asset_of r.0 obs2.mac))
          (one_by_one m obs1 obs2)
create_during_apply m obs1 obs2 inv h ok1 ok2 same e =
    let e2 : asset_of m obs2.mac ≡ none = ap (asset_of m) (sym same) ∙ e in
    let stores = λ (n : Manager) (k : n.hydrator ≡ none).
      apply_unresolved_stores n obs2 k (valid-mac obs2 ok2) in
    (
      (
        fresh_asset m.vendor obs2,
        counted_once m.vendor obs2,
        rw (apply_unknown m obs2 inv ok2 e2) (weaken (Made m obs2) _ _ (λ r p. p.0) (stores m h)),
        rw (unresolved m obs1.mac inv e, unresolved m obs2.mac inv e2)
            (then_call-Returns (Made m obs1) _ _ _
              (apply_unresolved_stores m obs1 h (valid-mac obs1 ok1))
              (λ n r p.
                weaken (Made n obs2) _ _ (λ s q. q.0 ∙ ap (λ v. some (fresh_asset v obs2)) p.2)
                  (stores n (p.1 ∙ h)))),
      ),
      both_counted m obs1 obs2 inv h ok1 ok2 same e,
    )

-- An Apply that resolved the address of an asset, which an EvictStale then removes as stale before
-- the Apply takes the lock, dereferences the nil asset.
pub evict_during_apply :
    (m : Manager) (obs : Observation) (now : Time) (d : Duration) (id : AssetId) (a : Asset)
    → ManagerInv m
    → (sharded_resolve m.resolver obs.mac).0 ≡ some id
    → lookup id (m.shards (shard_index obs.mac)).assets ≡ some a
    → is_stale now d a ≡ true
    → apply_resolved (evict_stale m now d).0 obs (sharded_resolve m.resolver obs.mac)
      ≡ nil_dereference
unfolding sharded_resolve apply_resolved apply_locked apply_found evict_stale update_asset
evict_during_apply m obs now d id a inv r e s =
    rw
      (
        r,
        lookup-evict_cell (shard_index obs.mac) now d (cell m (shard_index obs.mac)) id
            (inv (shard_index obs.mac)),
        e,
        s,
      )
      refl
