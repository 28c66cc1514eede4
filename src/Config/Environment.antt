-- ===== src/Config/Environment.antt =====
-- applyEnvDefaults of internal/config/config.go: the variables of the environment.
use asset_discovery.Config.{Config, ConfigError, and_then, invalid_variable}
use asset_discovery.Prelude.{
  Bool, List, Option, [], false, if◌then◌else◌, inl, inr, leb, none, not, some, true, ℕ, ◌&&◌, ◌*◌,
  ◌+◌, ◌-◌, ◌==◌, ◌||◌, ◌∷◌, ◌⊎◌,
}
use asset_discovery.Prelude.Text.{Text, is_empty, text, text_eq, to_lower, trim_space}
use asset_discovery.Prelude.Time.{Duration, ltb_ℤ, max_int64, pos, sub_ℕ, ℤ}

unfoldable pub first_non_empty : Text → Text → Text
first_non_empty value fallback = if is_empty (trim_space value) then fallback else value

-- The digits of strconv.Atoi, n being the number so far.
unfoldable pub atoi_digits : ℕ → Text → Option ℕ
atoi_digits n [] = some n
atoi_digits n (c ∷ s) =
    let rest = atoi_digits (10 * n + (c - 48)) s in if leb 48 c && leb c 57 then rest else none

abbrev in_int64 : Bool → Option ℕ → Option ℤ
in_int64 minus none = none
in_int64 true (some n) = if leb n (max_int64 + 1) then some (sub_ℕ 0 n) else none
in_int64 false (some n) = if leb n max_int64 then some (pos n) else none

-- strconv.Atoi: a sign, and digits of a number that an int64 holds.
unfoldable pub atoi : Text → Option ℤ
unfolding atoi_digits
atoi [] = none
atoi (c ∷ []) = in_int64 false (atoi_digits 0 (c ∷ []))
atoi (c ∷ d ∷ s) =
    if c == b'-'
    then in_int64 true (atoi_digits 0 (d ∷ s))
    else if c == b'+'
    then in_int64 false (atoi_digits 0 (d ∷ s))
    else in_int64 false (atoi_digits 0 (c ∷ d ∷ s))

abbrev or_invalid {ℓ} : {A : Type ℓ} → Text → Option A → ConfigError ⊎ A
or_invalid name none = inl (invalid_variable name)
or_invalid name (some a) = inr a

-- What applyEnvDefaults reads: os.Getenv and time.ParseDuration.
pub record Env : Type 0 where
  pub getenv : Text → Text
  pub parse_duration : Text → Option Duration

unfoldable pub one_of : Text → List Text → Bool
one_of v [] = false
one_of v (w ∷ ws) = text_eq v w || one_of v ws

-- A value that is neither yes nor no changes nothing.
unfoldable pub bool_setting : Env → Text → Bool → Bool
unfolding one_of
bool_setting env name old =
    let v = to_lower (trim_space (env.getenv name)) in
    if one_of v (text "1" ∷ text "true" ∷ text "yes" ∷ text "on" ∷ [])
    then true
    else if one_of v (text "0" ∷ text "false" ∷ text "no" ∷ text "off" ∷ [])
    then false
    else old

unfoldable pub text_setting : Env → Text → Text → Text
unfolding first_non_empty
text_setting env name old = first_non_empty (env.getenv name) old

unfoldable pub duration_setting : Env → Text → Duration → ConfigError ⊎ Duration
duration_setting env name old =
    let v = trim_space (env.getenv name) in
    if is_empty v then inr old else or_invalid name (env.parse_duration v)

unfoldable pub int_setting : Env → Text → ℤ → ConfigError ⊎ ℤ
unfolding atoi
int_setting env name old =
    let v = trim_space (env.getenv name) in if is_empty v then inr old else or_invalid name (atoi v)

-- DISCOVERY_LOAD_LIMIT and DISCOVERY_EVICT_AFTER: a value that is set must not be negative.
unfoldable pub not_negative : Env → Text → ConfigError ⊎ ℤ → ConfigError ⊎ ℤ
not_negative env name (inl e) = inl e
not_negative env name (inr d) =
    if not (is_empty (trim_space (env.getenv name))) && ltb_ℤ d (pos 0)
    then inl (invalid_variable name)
    else inr d

abbrev pub limit_setting : Env → ℤ → ConfigError ⊎ ℤ
limit_setting env old =
    let name = text "DISCOVERY_LOAD_LIMIT" in not_negative env name (int_setting env name old)

abbrev pub evict_setting : Env → Duration → ConfigError ⊎ Duration
evict_setting env old =
    let name = text "DISCOVERY_EVICT_AFTER" in not_negative env name (duration_setting env name old)

-- The settings that cannot fail.
unfoldable pub plain_settings : Env → Config → Config
unfolding text_setting bool_setting
plain_settings env cfg = record cfg {
  pcap_path = text_setting env (text "DISCOVERY_PCAP") cfg.pcap_path;
  interface = text_setting env (text "DISCOVERY_INTERFACE") cfg.interface;
  bpf = text_setting env (text "DISCOVERY_BPF") cfg.bpf;
  promisc = bool_setting env (text "DISCOVERY_PROMISC") cfg.promisc;
  output_directory = text_setting env (text "DISCOVERY_OUTPUT") cfg.output_directory;
  oui_path = text_setting env (text "DISCOVERY_OUI") cfg.oui_path;
  log_level = text_setting env (text "DISCOVERY_LOG_LEVEL") cfg.log_level;
  log_format = text_setting env (text "DISCOVERY_LOG_FORMAT") cfg.log_format;
  log_output = text_setting env (text "DISCOVERY_LOG_OUTPUT") cfg.log_output;
  db_path = text_setting env (text "DISCOVERY_DB") cfg.db_path;
  db_wal = bool_setting env (text "DISCOVERY_DB_WAL") cfg.db_wal;
  keep_json_output = bool_setting env (text "DISCOVERY_KEEP_JSON_OUTPUT") cfg.keep_json_output;
  api_addr = text_setting env (text "DISCOVERY_API_ADDR") cfg.api_addr;
  ui_enabled = bool_setting env (text "DISCOVERY_UI") cfg.ui_enabled;
}

-- The settings that can, in their order, put into c.
unfoldable pub checked_settings : Env → Config → ConfigError ⊎ Config
unfolding duration_setting int_setting not_negative
checked_settings env c =
    and_then (duration_setting env (text "DISCOVERY_DB_BUSY_TIMEOUT") c.db_busy_timeout) (λ busy.
      and_then (duration_setting env (text "DISCOVERY_OFFLINE_AFTER") c.offline_after) (λ offline.
        and_then (duration_setting env (text "DISCOVERY_FLUSH_EVERY") c.flush_every) (λ flush.
          and_then (int_setting env (text "DISCOVERY_QUEUE_SIZE") c.queue_size) (λ queue.
            and_then (int_setting env (text "DISCOVERY_WORKERS") c.workers) (λ workers.
              and_then (int_setting env (text "DISCOVERY_BATCH_SIZE") c.batch_size) (λ batch.
                and_then (limit_setting env c.load_limit) (λ limit.
                  and_then (duration_setting env (text "DISCOVERY_LOAD_WINDOW") c.load_window)
                    (λ window. and_then (evict_setting env c.evict_after) (λ evict.
                      and_then
                        (duration_setting env (text "DISCOVERY_UI_REFRESH_EVERY")
                          c.ui_refresh_every)
                        (λ refresh.
                          and_then
                            (duration_setting env (text "DISCOVERY_API_READ_TIMEOUT")
                              c.api_read_timeout)
                            (λ timeout. inr record c {
                              db_busy_timeout = busy;
                              offline_after = offline;
                              flush_every = flush;
                              queue_size = queue;
                              workers = workers;
                              batch_size = batch;
                              load_limit = limit;
                              load_window = window;
                              evict_after = evict;
                              ui_refresh_every = refresh;
                              api_read_timeout = timeout;
                            })))))))))))

unfoldable pub apply_env_defaults : Env → Config → ConfigError ⊎ Config
unfolding plain_settings checked_settings
apply_env_defaults env cfg = checked_settings env (plain_settings env cfg)
