-- ===== src/Config.antt =====
-- internal/config/config.go: the configuration, its defaults and its errors.
pub mod Environment
pub mod Validate
pub mod Limits
mod Tests
use asset_discovery.Prelude.{
  All, All-append, All-take, Bool, Bool-cases, Gives, List, Option, Option-cases, [], ap, arith,
  drop, false, get_elem?, if◌then◌else◌, inl, inr, leb, leb→le, length, length-append, length-drop,
  length-take, lt→ltb, ltb, ltb→lt, map, none, not, refl, some, suc, sym, take, take-append-drop,
  true, zero, ==_iff, ℕ, ◌%◌, ◌&&◌, ◌*◌, ◌++◌, ◌+◌, ◌-◌, ◌/◌, ◌<◌, ◌==◌, ◌^◌, ◌||◌, ◌↔◌, ◌∙◌, ◌∷◌,
  ◌≡◌, ◌≢◌, ◌≤◌, ◌⊎◌,
}
use asset_discovery.Prelude.Text.{Text, is_empty, text, text_eq, to_lower, trim_space}
use asset_discovery.Prelude.Time.{Duration, ltb_ℤ, max_int64, minute, pos, second, sub_ℕ, ℤ}

pub data Mode : Type 0 where
  no_mode mode_pcap mode_live : Mode

pub record Config : Type 0 where
  pub mode : Mode
  pub pcap_path : Text
  pub interface : Text
  pub bpf : Text
  pub promisc : Bool
  pub output_directory : Text
  pub oui_path : Text
  pub log_level : Text
  pub log_format : Text
  pub log_output : Text
  pub offline_after : Duration
  pub queue_size : ℤ
  pub workers : ℤ
  pub flush_every : Duration
  pub batch_size : ℤ
  pub db_path : Text
  pub db_wal : Bool
  pub db_busy_timeout : Duration
  pub keep_json_output : Bool
  pub load_limit : ℤ
  pub load_window : Duration
  pub evict_after : Duration
  pub api_addr : Text
  pub ui_enabled : Bool
  pub ui_refresh_every : Duration
  pub api_read_timeout : Duration

-- The errors, without their texts. `invalid_variable` names the variable.
pub data ConfigError : Type 0 where
  invalid_variable : Text → ConfigError
  bad_flags : Text → ConfigError
  help two_sources no_source : ConfigError
  bad_log_level bad_log_format : ConfigError
  no_output bad_output bad_db json_without_db bad_oui : ConfigError
  bad_offline_after bad_queue_size bad_workers bad_flush_every bad_batch_size : ConfigError
  bad_load_window bad_load_limit bad_evict_after : ConfigError
  ui_without_addr bad_ui_refresh bad_api_timeout : ConfigError

-- The configuration before the environment and the flags.
abbrev pub default_config : Config
default_config = record {
  mode = no_mode;
  pcap_path = [];
  interface = [];
  bpf = [];
  promisc = false;
  output_directory = text "./output";
  oui_path = [];
  log_level = text "info";
  log_format = text "text";
  log_output = text "./output/discovery.log";
  offline_after = pos (5 * minute);
  queue_size = pos 4096;
  workers = pos 2;
  flush_every = pos (5 * second);
  batch_size = pos 500;
  db_path = text "./output/discovery.db";
  db_wal = true;
  db_busy_timeout = pos (5 * second);
  keep_json_output = false;
  load_limit = pos 1000;
  load_window = pos (24 * 60 * minute);
  evict_after = pos 0;
  api_addr = [];
  ui_enabled = false;
  ui_refresh_every = pos (5 * second);
  api_read_timeout = pos (5 * second);
}

-- A value, or the error that ends the function.
abbrev pub and_then {ℓ κ} :
    {A : Type ℓ} {B : Type κ} → ConfigError ⊎ A → (A → ConfigError ⊎ B) → ConfigError ⊎ B
and_then (inl e) f = inl e
and_then (inr a) f = f a

-- A sequence of tests, each of which returns its error.
abbrev pub fail_first {ℓ} :
    {A : Type ℓ} → List (Bool × ConfigError) → ConfigError ⊎ A → ConfigError ⊎ A
fail_first [] rest = rest
fail_first ((b, e) ∷ cs) rest = let after = fail_first cs rest in if b then inl e else after
