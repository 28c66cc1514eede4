-- ===== src/Command/Tests.antt =====
-- A start on the database of Storage/Tests.
use asset_discovery.Asset.Manager.Run.{Call, Sound, applies, run, sweeps}
use asset_discovery.Asset.Shard.Apply.{Returns}
use asset_discovery.Asset.Tests.{laptop_seen}
use asset_discovery.Command.{Startup, evict_after_of, start_up}
use asset_discovery.Command.Restart.{run-start_up-Sound}
use asset_discovery.Prelude.{
  All, All-append, All-take, Bool, Bool-cases, Gives, List, Option, Option-cases, [], ap, arith,
  drop, false, get_elem?, if◌then◌else◌, inl, inr, leb, leb→le, length, length-append, length-drop,
  length-take, lt→ltb, ltb, ltb→lt, map, none, not, refl, some, suc, sym, take, take-append-drop,
  true, zero, ==_iff, ℕ, ◌%◌, ◌&&◌, ◌*◌, ◌++◌, ◌+◌, ◌-◌, ◌/◌, ◌<◌, ◌==◌, ◌^◌, ◌||◌, ◌↔◌, ◌∙◌, ◌∷◌,
  ◌≡◌, ◌≢◌, ◌≤◌, ◌⊎◌,
}
use asset_discovery.Prelude.Time.{pos, second}
use asset_discovery.Storage.{Tables, empty_tables}
use asset_discovery.Storage.Tests.{codec, no_failure, stored, stored-SavedLaw}
use asset_discovery.Storage.Laws.Rows.{save_batch-DbLaw}
use asset_discovery.Storage.Save.{save_batch}

abbrev startup : Startup
startup = record {
  load_limit = 1000;
  load_window = pos (86400 * second);
  offline_after = pos (300 * second);
  now = 1000 * second;
  load_fails = no_failure;
  statistics_fails = true;
  row_fails = no_failure;
}

abbrev calls : List Call
calls = applies laptop_seen ∷ sweeps (2000 * second) (pos (300 * second)) ∷ []

abbrev saved_tables : Tables
saved_tables = (save_batch codec no_failure empty_tables (stored ∷ [])).0

seven_days : evict_after_of (pos 0) (pos (86400 * second)) ≡ pos (604800 * second)
unfolding evict_after_of asset_discovery.Prelude.Time.wrap_int64
seven_days = refl

run-start_up-Sound_example :
    Returns Sound (run (start_up {F = ℕ} none codec startup saved_tables []) calls)
run-start_up-Sound_example =
    run-start_up-Sound {F = ℕ} none codec startup saved_tables [] calls
      (save_batch-DbLaw codec no_failure empty_tables (stored ∷ []) tt (stored-SavedLaw, tt))
      (tt, (tt, tt))
