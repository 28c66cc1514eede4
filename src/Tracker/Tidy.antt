-- ===== src/Tracker/Tidy.antt =====
-- What the ticks of the tracker leave in the manager.
use asset_discovery.Asset.Lifecycle.{is_stale, sweep_asset, sweep_shard}
use asset_discovery.Asset.Lifecycle.Evict.{evict_cell-CellInv, evicted, lookup-evict_cell}
use asset_discovery.Asset.Lifecycle.Sweep.{lookup-sweep_assets, sweep_shard-CellInv, swept}
use asset_discovery.Asset.Manager.{Manager, cell, evict_stale, sweep}
use asset_discovery.Asset.Manager.Run.{Sound}
use asset_discovery.Asset.Shard.{is_online, is_offline}
use asset_discovery.Asset.Types.{Asset, AssetId}
use asset_discovery.Prelude.{
  All, Bool, Bool-cases, Gives, List, Option, [], ap, arith, false, inl, inr, none, refl, some, sym,
  true, ℕ, ◌&&◌, ◌++◌, ◌∙◌, ◌∷◌, ◌≡◌,
}
use asset_discovery.Prelude.Map.{lookup}
use asset_discovery.Prelude.Time.{Duration, Time, ltb_ℤ, sub_time}
use asset_discovery.Tracker.{Event, Tracker, done, run_tracker, ticks, tracker_loop, tracker_tick}
use asset_discovery.Prelude.Time.{pos}
use mathlib.Core.Path.{subst}

-- The asset of a shard under an id.
abbrev pub asset_at : Manager → ℕ → AssetId → Option Asset
asset_at m i k = lookup k (m.shards i).assets

abbrev pub idle_past : Duration → Time → Time → Bool
idle_past d now seen = ltb_ℤ d (sub_time now seen)

tracker_tick-Sound :
    (t : Tracker) (m : Manager) (now : Time) → Sound m → Sound (tracker_tick t m now)
unfolding tracker_tick sweep evict_stale
tracker_tick-Sound t m now s = record {
  inv = λ i.
      evict_cell-CellInv i now t.evict_after _
        (sweep_shard-CellInv i now t.offline_after (cell m i) (s.inv i));
  law = s.law;
}

abbrev ticked : Tracker → Time → Option Asset → Option Asset
ticked t now o =
    evicted now t.evict_after (swept now t.offline_after o) (swept now t.offline_after o)

asset_at-tick :
    (t : Tracker) (m : Manager) (now : Time) (i : ℕ) (k : AssetId)
    → Sound m
    → asset_at (tracker_tick t m now) i k ≡ ticked t now (asset_at m i k)
unfolding tracker_tick sweep evict_stale sweep_shard
asset_at-tick t m now i k s =
    let c = cell (sweep m now t.offline_after).0 i in
    let inv = sweep_shard-CellInv i now t.offline_after (cell m i) (s.inv i) in
    lookup-evict_cell i now t.evict_after c k inv
    ∙ ap (λ o. evicted now t.evict_after o o)
        (lookup-sweep_assets now t.offline_after (m.shards i) (m.shards i).assets k)

-- A tick leaves no stale asset and none online that has been idle for too long.
pub record Settled (t : Tracker) (now : Time) (a : Asset) : Type 0 where
  pub fresh : is_stale now t.evict_after a ≡ false
  pub idle_offline : is_online a.status && idle_past t.offline_after now a.last_seen ≡ false

sweep_asset_settles :
    (d : Duration) (now : Time) (a : Asset)
    → (is_online (sweep_asset now d a).0.status && idle_past d now (sweep_asset now d a).0.last_seen
        ≡ false)
      × ((sweep_asset now d a).0.last_seen ≡ a.last_seen)
unfolding sweep_asset
sweep_asset_settles d now a = (ground arith, ground arith)

some_inj {ℓ} : {A : Type ℓ} (a b : A) → some a ≡ some b → a ≡ b
some_inj a b h = cc

ticked-Settled :
    (t : Tracker) (now : Time) (o : Option Asset) (b : Asset)
    → ticked t now o ≡ some b
    → Settled t now b × Gives (λ a. a.last_seen ≡ b.last_seen) o
ticked-Settled t now none b e = cc
ticked-Settled t now (some a) b e =
    let c = (sweep_asset now t.offline_after a).0 in
    let q = sweep_asset_settles t.offline_after now a in
    elim (Bool-cases (is_stale now t.evict_after c)) [
      | inl f ↦ absurd (let h : none ≡ some b = rw f at e in cc)
      | inr f ↦
          let h : some c ≡ some b = rw f at e in
          subst (λ x. Settled t now x × (a.last_seen ≡ x.last_seen)) (some_inj c b h)
            (record { fresh = f; idle_offline = q.0 }, sym q.1)
    ]

unless_stale :
    (t : Tracker) (now seen : Time) (c : Asset)
    → c.last_seen ≡ seen
    → idle_past t.evict_after now seen ≡ false
    → Gives (λ b. b.last_seen ≡ seen) (evicted now t.evict_after (some c) (some c))
unfolding is_stale
unless_stale t now seen c h e = elim (Bool-cases (is_offline c.status)) [
  | inl f ↦ rw f (rw h (rw e refl))
  | inr f ↦ rw f h
]

ticked_kept :
    (t : Tracker) (now : Time) (a : Asset)
    → idle_past t.evict_after now a.last_seen ≡ false
    → Gives (λ b. b.last_seen ≡ a.last_seen) (ticked t now (some a))
ticked_kept t now a e =
    unless_stale t now a.last_seen _ (sweep_asset_settles t.offline_after now a).1 e

-- The manager r after ticks at these times in the manager m, the last of them at now.
pub record Tidied (t : Tracker) (m : Manager) (times : List Time) (now : Time) (r : Manager)
    : Type 0 where
  pub sound : Sound r
  pub settled : (i : ℕ) (k : AssetId) (b : Asset) → asset_at r i k ≡ some b → Settled t now b
  pub none_new :
      (i : ℕ) (k : AssetId) (b : Asset)
      → asset_at r i k ≡ some b
      → Gives (λ a. a.last_seen ≡ b.last_seen) (asset_at m i k)
  pub kept :
      (i : ℕ) (k : AssetId) (a : Asset)
      → asset_at m i k ≡ some a
      → All (λ u. idle_past t.evict_after u a.last_seen ≡ false) times
      → Gives (λ b. b.last_seen ≡ a.last_seen) (asset_at r i k)

tick_none_new :
    (t : Tracker) (m : Manager) (now : Time) (i : ℕ) (k : AssetId) (b : Asset)
    → Sound m
    → asset_at (tracker_tick t m now) i k ≡ some b
    → Settled t now b × Gives (λ a. a.last_seen ≡ b.last_seen) (asset_at m i k)
tick_none_new t m now i k b s e =
    ticked-Settled t now (asset_at m i k) b (sym (asset_at-tick t m now i k s) ∙ e)

tick_kept :
    (t : Tracker) (m : Manager) (now : Time) (i : ℕ) (k : AssetId) (a : Asset)
    → Sound m
    → asset_at m i k ≡ some a
    → idle_past t.evict_after now a.last_seen ≡ false
    → Gives (λ b. b.last_seen ≡ a.last_seen) (asset_at (tracker_tick t m now) i k)
tick_kept t m now i k a s e f =
    subst (Gives (λ b. b.last_seen ≡ a.last_seen))
      (sym (asset_at-tick t m now i k s ∙ ap (ticked t now) e)) (ticked_kept t now a f)

-- The time is handed on from one optional asset to the next.
then_given :
    (o p : Option Asset) (seen : Time)
    → Gives (λ a. a.last_seen ≡ seen) o
    → ((a : Asset) → o ≡ some a → a.last_seen ≡ seen → Gives (λ b. b.last_seen ≡ a.last_seen) p)
    → Gives (λ b. b.last_seen ≡ seen) p
then_given none p seen g k = absurd g
then_given (some a) none seen g k = k a refl g
then_given (some a) (some b) seen g k = k a refl g ∙ g

one_tick-Tidied :
    (t : Tracker) (m : Manager) (now : Time)
    → Sound m
    → Tidied t m (now ∷ []) now (tracker_tick t m now)
one_tick-Tidied t m now s = record {
  sound = tracker_tick-Sound t m now s;
  settled = λ i k b e. (tick_none_new t m now i k b s e).0;
  none_new = λ i k b e. (tick_none_new t m now i k b s e).1;
  kept = λ i k a e f. tick_kept t m now i k a s e f.0;
}

before-Tidied :
    (t : Tracker) (m : Manager) (u : Time) (us : List Time) (now : Time) (r : Manager)
    → Sound m
    → Tidied t (tracker_tick t m u) us now r
    → Tidied t m (u ∷ us) now r
before-Tidied t m u us now r s d = record {
  sound = d.sound;
  settled = d.settled;
  none_new = λ i k b e.
      then_given _ _ b.last_seen (d.none_new i k b e)
        (λ a e' same. (tick_none_new t m u i k a s e').1);
  kept = λ i k a e f. then_given _ _ a.last_seen (tick_kept t m u i k a s e f.0) (λ b e' same.
      d.kept i k b e'
        (subst (λ x. All (λ v. idle_past t.evict_after v x ≡ false) us) (sym same) f.1));
}

-- Ticks at these times, then these events.
abbrev pub then_events : List Time → List Event → List Event
then_events [] es = es
then_events (u ∷ us) es = ticks u ∷ then_events us es

tracker_loop-Tidied :
    (t : Tracker) (m : Manager) (us : List Time) (now : Time) (es : List Event)
    → Sound m
    → Tidied t m (us ++ (now ∷ [])) now (tracker_loop t m (then_events us (ticks now ∷ done ∷ es)))
unfolding tracker_loop
tracker_loop-Tidied t m [] now es s = one_tick-Tidied t m now s
tracker_loop-Tidied t m (u ∷ us) now es s =
    before-Tidied t m u _ now _ s
      (tracker_loop-Tidied t (tracker_tick t m u) us now es (tracker_tick-Sound t m u s))

-- A run with a positive interval on a manager in order, over any ticks, the last of them at now, before
-- the context ends, leaves the manager in order. It keeps no asset that is stale at now and none online
-- that has been idle for longer than offlineAfter; what it keeps was there, last seen at the same time;
-- and an asset that is not idle for longer than evictAfter at any of the ticks is kept.
pub run_tracker-Tidied :
    (t : Tracker) (m : Manager) (us : List Time) (now : Time) (es : List Event)
    → ltb_ℤ (pos 0) t.interval ≡ true
    → Sound m
    → Gives
        (Tidied t m (us ++ (now ∷ [])) now)
        (run_tracker t m (then_events us (ticks now ∷ done ∷ es)))
unfolding run_tracker
run_tracker-Tidied t m us now es p s = rw p (tracker_loop-Tidied t m us now es s)
