-- ===== src/Config/Validate.antt =====
-- Validate and Parse of internal/config/config.go. The file system and the parser of package flag
-- are parameters.
use asset_discovery.Config.{
  Config, ConfigError, and_then, bad_batch_size, bad_api_timeout, bad_db, bad_evict_after,
  bad_flush_every, bad_load_limit, bad_load_window, bad_log_format, bad_log_level,
  bad_offline_after, bad_oui, bad_output, bad_queue_size, bad_ui_refresh, bad_workers,
  default_config, fail_first, json_without_db, mode_live, mode_pcap, no_output, no_source,
  two_sources, ui_without_addr,
}
use asset_discovery.Config.Environment.{Env, apply_env_defaults, one_of}
use asset_discovery.Prelude.{
  Bool, List, Option, [], false, if◌then◌else◌, inl, inr, none, not, some, true, ◌&&◌, ◌*◌, ◌||◌,
  ◌∷◌, ◌⊎◌,
}
use asset_discovery.Prelude.Text.{Text, is_empty, text, to_lower, trim_space}
use asset_discovery.Prelude.Time.{Duration, ltb_ℤ, minute, pos, second, ℤ}

-- What os.Stat tells of a path; `unreadable` stands for any error but os.ErrNotExist.
pub data PathInfo : Type 0 where
  directory file missing unreadable : PathInfo

abbrev is_directory : PathInfo → Bool
is_directory directory = true
is_directory _ = false

abbrev is_unreadable : PathInfo → Bool
is_unreadable unreadable = true
is_unreadable _ = false

abbrev pub is_file : PathInfo → Bool
is_file file = true
is_file _ = false

-- os.Stat, and os.MkdirAll, which gives os.Stat afterwards, or none for an error.
pub record Files : Type 0 where
  pub stat : Text → PathInfo
  pub mkdir_all : Text → Option (Text → PathInfo)

abbrev pub trimmed : Config → Config
trimmed c = record c {
  pcap_path = trim_space c.pcap_path;
  interface = trim_space c.interface;
  bpf = trim_space c.bpf;
  log_level = to_lower (trim_space c.log_level);
  output_directory = trim_space c.output_directory;
  oui_path = trim_space c.oui_path;
}

abbrev pub source_checks : Config → List (Bool × ConfigError)
source_checks c =
    let has_pcap = not (is_empty c.pcap_path) in
    let has_interface = not (is_empty c.interface) in
    (has_pcap && has_interface, two_sources) ∷ (not has_pcap && not has_interface, no_source) ∷ []

abbrev pub with_mode : Config → Config
with_mode c = record c { mode = if not (is_empty c.pcap_path) then mode_pcap else mode_live }

-- The switch on the two sources.
unfoldable pub choose_mode : Config → ConfigError ⊎ Config
choose_mode c = fail_first (source_checks c) (inr (with_mode c))

abbrev created : Option (Text → PathInfo) → ConfigError ⊎ (Text → PathInfo)
created none = inl bad_output
created (some stat) = inr stat

abbrev output_found : Files → Text → PathInfo → ConfigError ⊎ (Text → PathInfo)
output_found files path directory = inr files.stat
output_found files path file = inl bad_output
output_found files path missing = created (files.mkdir_all path)
output_found files path unreadable = inl bad_output

-- os.Stat after the output directory was found or made.
unfoldable pub prepare_output : Files → Text → ConfigError ⊎ (Text → PathInfo)
prepare_output files path =
    if is_empty path then inl no_output else output_found files path (files.stat path)

unfoldable pub check_db : (Text → PathInfo) → Config → ConfigError ⊎ Config
check_db stat c =
    let path = trim_space c.db_path in
    let info = stat path in
    if is_empty c.db_path
    then inr c
    else if is_directory info || is_unreadable info
    then inl bad_db
    else inr record c { db_path = path }

unfoldable pub check_oui : (Text → PathInfo) → Config → ConfigError ⊎ Config
check_oui stat c =
    if is_empty c.oui_path then inr c else if is_file (stat c.oui_path) then inr c else inl bad_oui

abbrev pub positive : ℤ → Bool
positive d = ltb_ℤ (pos 0) d

abbrev pub negative : ℤ → Bool
negative d = ltb_ℤ d (pos 0)

-- The interval of the dashboard, brought into its range where it is not zero.
abbrev pub clamp_refresh : Duration → Duration
clamp_refresh d =
    let low = pos second in
    let high = pos (5 * minute) in
    let raised = if positive d && ltb_ℤ d low then low else d in
    if ltb_ℤ high raised then high else raised

abbrev pub limit_checks : Config → List (Bool × ConfigError)
limit_checks c =
    (not (positive c.offline_after), bad_offline_after)
    ∷ (not (positive c.queue_size), bad_queue_size)
    ∷ (not (positive c.workers), bad_workers)
    ∷ (not (positive c.flush_every), bad_flush_every)
    ∷ (not (positive c.batch_size), bad_batch_size)
    ∷ (not (positive c.load_window), bad_load_window)
    ∷ (negative c.load_limit, bad_load_limit)
    ∷ (negative c.evict_after, bad_evict_after)
    ∷ (c.ui_enabled && is_empty c.api_addr, ui_without_addr)
    ∷ (negative c.ui_refresh_every, bad_ui_refresh)
    ∷ (negative c.api_read_timeout, bad_api_timeout)
    ∷ []

abbrev pub with_refresh : Config → Config
with_refresh c = record c { ui_refresh_every = clamp_refresh c.ui_refresh_every }

unfoldable pub check_limits : Config → ConfigError ⊎ Config
check_limits c = fail_first (limit_checks c) (inr (with_refresh c))

abbrev pub log_levels : List Text
log_levels = text "debug" ∷ text "info" ∷ text "warn" ∷ text "error" ∷ []

abbrev pub log_formats : List Text
log_formats = text "text" ∷ text "json" ∷ []

-- Validate, from its end: the parts after each of its values.
abbrev pub format_checks : Config → List (Bool × ConfigError)
format_checks c =
    (not (one_of c.log_format log_formats), bad_log_format)
    ∷ (c.keep_json_output && is_empty c.db_path, json_without_db)
    ∷ []

unfoldable pub after_db : (Text → PathInfo) → Config → ConfigError ⊎ Config
unfolding check_oui check_limits one_of
after_db stat c = fail_first (format_checks c) (and_then (check_oui stat c) check_limits)

unfoldable pub after_output : Config → (Text → PathInfo) → ConfigError ⊎ Config
unfolding after_db check_db
after_output c stat = and_then (check_db stat c) (after_db stat)

unfoldable pub after_mode : Files → Config → ConfigError ⊎ Config
unfolding after_output prepare_output one_of
after_mode files c =
    fail_first ((not (one_of c.log_level log_levels), bad_log_level) ∷ [])
      (and_then (prepare_output files c.output_directory) (after_output c))

unfoldable pub validate : Files → Config → ConfigError ⊎ Config
unfolding choose_mode after_mode
validate files cfg = and_then (choose_mode (trimmed cfg)) (after_mode files)

-- flag.FlagSet.Parse with the flags of Parse, which write into the configuration: the configuration
-- that results, or the error (ErrHelp among them).
abbrev pub FlagParser : Type 0
FlagParser = List Text → Config → ConfigError ⊎ Config

unfoldable pub after_env : FlagParser → Files → List Text → Config → ConfigError ⊎ Config
unfolding validate
after_env parse_flags files args c = and_then (parse_flags args c) (validate files)

unfoldable pub parse : Env → FlagParser → Files → List Text → ConfigError ⊎ Config
unfolding apply_env_defaults after_env
parse env parse_flags files args =
    and_then (apply_env_defaults env default_config) (after_env parse_flags files args)
