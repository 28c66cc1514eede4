-- ===== src/Config/Limits.antt =====
-- What holds of every configuration that is accepted.
use mathlib.Core.Path.{subst}
use asset_discovery.Config.{
  bad_db, bad_log_level, bad_oui, no_output, Config, ConfigError, and_then, default_config,
  fail_first, mode_live, mode_pcap,
}
use asset_discovery.Config.Environment.{Env, apply_env_defaults, one_of}
use asset_discovery.Config.Validate.{
  Files, FlagParser, PathInfo, check_db, check_limits, check_oui, choose_mode, clamp_refresh,
  is_file, after_db, after_env, after_mode, after_output, format_checks, limit_checks,
  source_checks, with_mode, with_refresh, log_formats, log_levels, negative, parse, positive,
  prepare_output, trimmed, validate,
}
use asset_discovery.Prelude.{
  All, Bool, Bool-cases, List, [], arith, false, if◌then◌else◌, inl, inr, not, refl, sym, true, ◌*◌,
  ◌∷◌, ◌≡◌, ◌≤◌, ◌⊎◌,
}
use asset_discovery.Prelude.Text.{Text, is_empty, trim_space}
use asset_discovery.Prelude.Time.{Duration, minute, neg_part, negsuc, pos, pos_part, second}

-- Exactly one source, and the mode is its mode.
abbrev pub OneSource : Config → Type 0
OneSource c =
    ((c.mode ≡ mode_pcap) × (is_empty c.pcap_path ≡ false) × (is_empty c.interface ≡ true))
    ⊎ ((c.mode ≡ mode_live) × (is_empty c.pcap_path ≡ true) × (is_empty c.interface ≡ false))

-- 0, or from one second to five minutes.
abbrev pub RefreshRange : Duration → Type 0
RefreshRange d =
    (neg_part d ≡ 0) × ((pos_part d ≡ 0) ⊎ ((second ≤ pos_part d) × (pos_part d ≤ 5 * minute)))

pub record Limits (c : Config) : Type 0 where
  pub offline_positive : positive c.offline_after ≡ true
  pub queue_positive : positive c.queue_size ≡ true
  pub workers_positive : positive c.workers ≡ true
  pub flush_positive : positive c.flush_every ≡ true
  pub batch_positive : positive c.batch_size ≡ true
  pub window_positive : positive c.load_window ≡ true
  pub limit_not_negative : negative c.load_limit ≡ false
  pub evict_not_negative : negative c.evict_after ≡ false
  pub ui_has_addr : c.ui_enabled ≡ true → is_empty c.api_addr ≡ false
  pub refresh : RefreshRange c.ui_refresh_every
  pub timeout_not_negative : negative c.api_read_timeout ≡ false

-- The fields that check_limits reads last and leaves.
pub record Accepted (c : Config) : Type 0 where
  pub source : OneSource c
  pub level : one_of c.log_level log_levels ≡ true
  pub format : one_of c.log_format log_formats ≡ true
  pub output : is_empty c.output_directory ≡ false
  pub json_has_db : c.keep_json_output ≡ true → is_empty c.db_path ≡ false
  pub limits : Limits c

-- A value that passed the tests.
fail_first-inr {ℓ} :
    {A : Type ℓ} (cs : List (Bool × ConfigError)) (rest : ConfigError ⊎ A) (a : A)
    → fail_first cs rest ≡ inr a
    → All (λ c. c.0 ≡ false) cs × (rest ≡ inr a)
fail_first-inr [] rest a h = (tt, h)
fail_first-inr ((true, e) ∷ cs) rest a h = cc
fail_first-inr ((false, e) ∷ cs) rest a h =
    let (all, last) = fail_first-inr cs rest a h in ((refl, all), last)

and_then-inr {ℓ κ} :
    {A : Type ℓ} {B : Type κ} (x : ConfigError ⊎ A) (f : A → ConfigError ⊎ B) (b : B)
    → and_then x f ≡ inr b
    → (a : A) × (x ≡ inr a) × (f a ≡ inr b)
and_then-inr (inl e) f b h = cc
and_then-inr (inr a) f b h = (a, refl, h)

inr_inj : (a b : Config) → Path (ConfigError ⊎ Config) (inr a) (inr b) → a ≡ b
inr_inj a b h = cc

is_true_of_not : (b : Bool) → not b ≡ false → b ≡ true
is_true_of_not b h = ground arith

clamp_refresh-RefreshRange : (d : Duration) → negative d ≡ false → RefreshRange (clamp_refresh d)
clamp_refresh-RefreshRange (pos n) h = (ground arith, ground arith)
clamp_refresh-RefreshRange (negsuc n) h = absurd (ground arith)

with_refresh-Limits :
    (c : Config) → All (λ p. p.0 ≡ false) (limit_checks c) → Limits (with_refresh c)
with_refresh-Limits c (p0, (p1, (p2, (p3, (p4, (p5, (p6, (p7, (p8, (p9, (p10, u))))))))))) =
    record {
      offline_positive = is_true_of_not _ p0;
      queue_positive = is_true_of_not _ p1;
      workers_positive = is_true_of_not _ p2;
      flush_positive = is_true_of_not _ p3;
      batch_positive = is_true_of_not _ p4;
      window_positive = is_true_of_not _ p5;
      limit_not_negative = p6;
      evict_not_negative = p7;
      ui_has_addr = λ e. ground (arith, p8, e);
      refresh = clamp_refresh-RefreshRange c.ui_refresh_every p9;
      timeout_not_negative = p10;
    }

with_mode-OneSource :
    (c : Config) → All (λ p. p.0 ≡ false) (source_checks c) → OneSource (with_mode c)
with_mode-OneSource c (p0, (p1, u)) = elim (Bool-cases (is_empty c.pcap_path)) [
  | inl f ↦ rw f (inr (refl, refl, ground (arith, p1, f)))
  | inr f ↦ rw f (inl (refl, refl, ground (arith, p0, f)))
]

if_inr :
    (b : Bool) (e : ConfigError) (c d : Config)
    → Path (ConfigError ⊎ Config) (if b then inl e else inr c) (inr d)
    → d ≡ c
if_inr true e c d h = absurd (cc)
if_inr false e c d h = sym (inr_inj c d h)

check_db-inr :
    (stat : Text → PathInfo) (c d : Config)
    → check_db stat c ≡ inr d
    → (path : Text) × (d ≡ record c { db_path = path })
unfolding check_db
check_db-inr stat c d h = elim (Bool-cases (is_empty c.db_path)) [
  | inl e ↦ (c.db_path, sym (inr_inj c d (rw e at h)))
  | inr e ↦ (trim_space c.db_path, if_inr _ bad_db _ d (rw e at h))
]

check_oui-inr : (stat : Text → PathInfo) (c d : Config) → check_oui stat c ≡ inr d → d ≡ c
unfolding check_oui
check_oui-inr stat c d h = elim (Bool-cases (is_empty c.oui_path)) [
  | inl e ↦ sym (inr_inj c d (rw e at h))
  | inr e ↦ elim (Bool-cases (is_file (stat c.oui_path))) [
    | inl f ↦ sym (inr_inj c d (rw f at (rw e at h)))
    | inr f ↦
        absurd
          (let q : Path (ConfigError ⊎ Config) (inl bad_oui) (inr d) = rw f at (rw e at h) in cc)
  ]
]

-- What Validate has found before it looks at the database.
record Begun (c : Config) : Type 0 where
  source : OneSource c
  level : one_of c.log_level log_levels ≡ true
  output : is_empty c.output_directory ≡ false

after_db-Accepted :
    (stat : Text → PathInfo) (c c' : Config) → Begun c → after_db stat c ≡ inr c' → Accepted c'
unfolding after_db
after_db-Accepted stat c c' b h =
    let ((p0, (p1, u)), h1) = fail_first-inr (format_checks c) _ c' h in
    let (d, hd, h2) = and_then-inr (check_oui stat c) check_limits c' h1 in
    let same = check_oui-inr stat c d hd in
    let k : check_limits c ≡ inr c' = subst (λ x. check_limits x ≡ inr c') same h2 in
    let (all, last) = fail_first-inr (limit_checks c) (inr (with_refresh c)) c' k in
    subst Accepted (inr_inj (with_refresh c) c' last) record {
      source = b.source;
      level = b.level;
      format = is_true_of_not _ p0;
      output = b.output;
      json_has_db = λ e. ground (arith, p1, e);
      limits = with_refresh-Limits c all;
    }

after_output-Accepted :
    (stat : Text → PathInfo) (c c' : Config) → Begun c → after_output c stat ≡ inr c' → Accepted c'
unfolding after_output
after_output-Accepted stat c c' b h =
    let (d, hd, h1) = and_then-inr (check_db stat c) (after_db stat) c' h in
    let (path, e) = check_db-inr stat c d hd in
    let begun : Begun (record c { db_path = path }) = record {
      source = b.source;
      level = b.level;
      output = b.output;
    } in
    after_db-Accepted stat d c' (subst Begun (sym e) begun) h1

prepare_output-inr :
    (files : Files) (path : Text) (stat : Text → PathInfo)
    → prepare_output files path ≡ inr stat
    → is_empty path ≡ false
unfolding prepare_output
prepare_output-inr files path stat h = elim (Bool-cases (is_empty path)) [
  | inl e ↦
      absurd (
        let q : Path (ConfigError ⊎ (Text → PathInfo)) (inl no_output) (inr stat) = rw e at h in cc)
  | inr e ↦ e
]

after_mode-Accepted :
    (files : Files) (c c' : Config) → OneSource c → after_mode files c ≡ inr c' → Accepted c'
unfolding after_mode
after_mode-Accepted files c c' one h =
    let known = one_of c.log_level log_levels in
    let ready = and_then (prepare_output files c.output_directory) (after_output c) in
    let ((p, u), h1) = fail_first-inr ((not known, bad_log_level) ∷ []) ready c' h in
    let (stat, hs, h2) =
      and_then-inr (prepare_output files c.output_directory) (after_output c) c' h1 in
    after_output-Accepted stat c c'
      record {
        source = one;
        level = is_true_of_not known p;
        output = prepare_output-inr files c.output_directory stat hs;
      }
      h2

pub validate-Accepted : (files : Files) (c c' : Config) → validate files c ≡ inr c' → Accepted c'
unfolding validate choose_mode
validate-Accepted files c c' h =
    let c0 = trimmed c in
    let (d, hd, h1) = and_then-inr (choose_mode c0) (after_mode files) c' h in
    let (all, last) = fail_first-inr (source_checks c0) (inr (with_mode c0)) d hd in
    after_mode-Accepted files d c'
      (subst OneSource (inr_inj (with_mode c0) d last) (with_mode-OneSource c0 all)) h1

-- A configuration that Parse returns, whatever the environment, the flags and the file system are,
-- names exactly one source, which is its mode, an output directory and known values for the log; the
-- time after which an asset is offline, the flush interval, the load window, the queue, the workers and
-- the batch are positive; the limit of loaded rows, the time of eviction and the API's read timeout are
-- not negative; a dashboard that is switched on has an address to listen on, and its interval is 0 or
-- from one second to five minutes; JSON output beside the database has a database.
pub parse-Accepted :
    (env : Env) (parse_flags : FlagParser) (files : Files) (args : List Text) (c : Config)
    → parse env parse_flags files args ≡ inr c
    → Accepted c
unfolding parse after_env
parse-Accepted env parse_flags files args c h =
    let first = apply_env_defaults env default_config in
    let (c0, h0, h1) = and_then-inr first (after_env parse_flags files args) c h in
    let (c1, h2, h3) = and_then-inr (parse_flags args c0) (validate files) c h1 in
    validate-Accepted files c1 c h3
