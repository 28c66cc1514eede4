-- ===== src/Config/Tests.antt =====
-- The configuration of a run on a capture file, with and without variables of the environment.
use asset_discovery.Config.{Config, default_config, invalid_variable, mode_pcap}
use asset_discovery.Config.Environment.{Env, apply_env_defaults, atoi}
use asset_discovery.Config.Limits.{Accepted, parse-Accepted}
use asset_discovery.Config.Validate.{Files, FlagParser, PathInfo, directory, missing, parse}
use asset_discovery.Prelude.{Option, [], if◌then◌else◌, inl, inr, none, refl, some, ◌*◌, ◌≡◌}
use asset_discovery.Prelude.Text.{Text, is_empty, text, text_eq, to_lower, trim_space}
use asset_discovery.Prelude.Time.{Duration, negsuc, pos, second}

abbrev no_duration : Text → Option Duration
no_duration s = none

abbrev empty_env : Env
empty_env = record { getenv = λ name. []; parse_duration = no_duration }

-- Four workers, and an interval of ten minutes for the dashboard.
abbrev variables : Text → Text
variables name =
    if text_eq name (text "DISCOVERY_WORKERS")
    then text " 4 "
    else if text_eq name (text "DISCOVERY_UI_REFRESH_EVERY")
    then text "10m"
    else []

abbrev ten_minutes : Text → Option Duration
ten_minutes s = if text_eq s (text "10m") then some (pos (600 * second)) else none

-- --pcap capture.pcap
abbrev pcap_flag : FlagParser
pcap_flag args c = inr record c { pcap_path = text "capture.pcap" }

abbrev stat : Text → PathInfo
stat path = if text_eq path (text "./output") then directory else missing

abbrev files : Files
files = record { stat = stat; mkdir_all = λ path. none }

abbrev accepted : Config
accepted = record default_config {
  mode = mode_pcap;
  pcap_path = text "capture.pcap";
  workers = pos 4;
  ui_refresh_every = pos (300 * second);
}

four_workers :
    parse (record { getenv = variables; parse_duration = ten_minutes }) pcap_flag files []
    ≡ inr accepted
unfolding parse is_empty trim_space text_eq to_lower
four_workers = refl

bad_number :
    apply_env_defaults (record empty_env { getenv = λ name. text "many" }) default_config
    ≡ inl (invalid_variable (text "DISCOVERY_DB_BUSY_TIMEOUT"))
unfolding apply_env_defaults is_empty trim_space
bad_number = refl

signed : (atoi (text "-12") ≡ some (negsuc 11)) × (atoi (text "+") ≡ none)
unfolding atoi
signed = (refl, refl)

parse-Accepted_example : Accepted accepted
parse-Accepted_example =
    parse-Accepted (record { getenv = variables; parse_duration = ten_minutes }) pcap_flag files []
      accepted four_workers
