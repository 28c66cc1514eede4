-- ===== src/Tracker.antt =====
-- internal/lifecycle/tracker.go. What the select of Run receives is a list: the ticks, with their times,
-- and the end of the context. Logging is left out, and with it the clock, which Run does not read.
pub mod Tidy
mod Tests
use asset_discovery.Asset.Manager.{Manager, evict_stale, sweep}
use asset_discovery.Prelude.{
  All, All-append, All-take, Bool, Bool-cases, Gives, List, Option, Option-cases, [], ap, arith,
  drop, false, get_elem?, if◌then◌else◌, inl, inr, leb, leb→le, length, length-append, length-drop,
  length-take, lt→ltb, ltb, ltb→lt, map, none, not, refl, some, suc, sym, take, take-append-drop,
  true, zero, ==_iff, ℕ, ◌%◌, ◌&&◌, ◌*◌, ◌++◌, ◌+◌, ◌-◌, ◌/◌, ◌<◌, ◌==◌, ◌^◌, ◌||◌, ◌↔◌, ◌∙◌, ◌∷◌,
  ◌≡◌, ◌≢◌, ◌≤◌, ◌⊎◌,
}
use asset_discovery.Prelude.Time.{Duration, Time, ltb_ℤ}
use asset_discovery.Prelude.Time.{pos}

pub record Tracker : Type 0 where
  pub interval : Duration
  pub offline_after : Duration
  pub evict_after : Duration

abbrev pub new_tracker : Duration → Duration → Duration → Tracker
new_tracker interval offline_after evict_after = record {
  interval = interval;
  offline_after = offline_after;
  evict_after = evict_after;
}

pub data Event : Type 0 where
  ticks : Time → Event
  done : Event

-- One tick.
unfoldable pub tracker_tick : Tracker → Manager → Time → Manager
unfolding sweep evict_stale
tracker_tick t m now = (evict_stale (sweep m now t.offline_after).0 now t.evict_after).0

-- The loop of Run; where the list ends it waits.
unfoldable pub tracker_loop : Tracker → Manager → List Event → Manager
unfolding tracker_tick
tracker_loop t m [] = m
tracker_loop t m (done ∷ es) = m
tracker_loop t m (ticks now ∷ es) = tracker_loop t (tracker_tick t m now) es

-- Run; none for the panic of time.NewTicker, which refuses an interval that is not positive.
unfoldable pub run_tracker : Tracker → Manager → List Event → Option Manager
unfolding tracker_loop
run_tracker t m es = if ltb_ℤ (pos 0) t.interval then some (tracker_loop t m es) else none
