-- ===== src/Capture.antt =====
-- internal/capture: the sources (file.go, live.go), their counters (stats.go) and filter (bpf.go).
-- What libpcap answers is a parameter.
pub mod Pump
pub mod Ledger
mod Tests
use asset_discovery.Prelude.{
  All, All-append, All-take, Bool, Bool-cases, Gives, List, Option, Option-cases, [], ap, arith,
  drop, false, get_elem?, if◌then◌else◌, inl, inr, leb, leb→le, length, length-append, length-drop,
  length-take, lt→ltb, ltb, ltb→lt, map, none, not, refl, some, suc, sym, take, take-append-drop,
  true, zero, ==_iff, ℕ, ◌%◌, ◌&&◌, ◌*◌, ◌++◌, ◌+◌, ◌-◌, ◌/◌, ◌<◌, ◌==◌, ◌^◌, ◌||◌, ◌↔◌, ◌∙◌, ◌∷◌,
  ◌≡◌, ◌≢◌, ◌≤◌, ◌⊎◌,
}
use asset_discovery.Prelude.Text.{Text, is_empty, text, trim_space}
use asset_discovery.Prelude.Time.{Duration, ltb_ℤ, pos, second, ℤ}
use asset_discovery.Stats.{counter_mod}

pub data SourceKind : Type 0 where
  source_kind_file source_kind_live : SourceKind

pub data CaptureError : Type 0 where
  source_already_run output_channel_nil invalid_path invalid_interface : CaptureError
  invalid_bpf no_bpf_expression open_failed : CaptureError

-- The counters of a source.
pub record Stats : Type 0 where
  pub received : ℕ
  pub bytes : ℕ
  pub dropped : ℕ

abbrev pub new_stats : Stats
new_stats = record { received = 0; bytes = 0; dropped = 0 }

-- The length on the wire, or else the captured one.
abbrev pub counted_bytes : ℕ → ℕ → ℕ
counted_bytes len capture_length = if ltb 0 len then len else capture_length

unfoldable pub record_accepted : Stats → ℕ → ℕ → Stats
record_accepted s len capture_length = record s {
  received = (s.received + 1) % counter_mod;
  bytes = (s.bytes + counted_bytes len capture_length) % counter_mod;
}

unfoldable pub set_dropped : Stats → ℕ → Stats
set_dropped s n = record s { dropped = n }

-- CompileBPF
unfoldable pub compile_bpf : Text → Text
compile_bpf expr = trim_space expr

-- BPF.Apply to a handle that accepts the expressions of the argument.
unfoldable pub apply_bpf : (Text → Bool) → Text → Option CaptureError
apply_bpf accepts expr =
    if is_empty expr then none else if accepts expr then none else some invalid_bpf

-- The loop of Replace: the error of the first handle that refuses; a nil handle is left out.
unfoldable pub set_filters : Text → List (Option (Text → Bool)) → Option CaptureError
set_filters expr [] = none
set_filters expr (none ∷ hs) = set_filters expr hs
set_filters expr (some accepts ∷ hs) =
    let rest = set_filters expr hs in if accepts expr then rest else some invalid_bpf

-- BPF.Replace on a filter that is not nil: the expression afterwards, and the error. The expression
-- is stored before the handles are asked.
unfoldable pub replace_bpf : Text → Text → List (Option (Text → Bool)) → Text × Option CaptureError
unfolding set_filters
replace_bpf current expr handles =
    let e = trim_space expr in
    if is_empty e && not (is_empty current)
    then (current, some no_bpf_expression)
    else (e, set_filters e handles)

-- FileSource and LiveSource: the fields that the methods change.
pub record Source : Type 0 where
  pub kind : SourceKind
  pub name : Text
  pub stats : Stats
  pub run_started : Bool
  pub run_done : Bool
  pub closed : Bool

abbrev pub new_source : SourceKind → Text → Source
new_source kind name = record {
  kind = kind;
  name = name;
  stats = new_stats;
  run_started = false;
  run_done = false;
  closed = false;
}

abbrev pub opened : SourceKind → Text → Option CaptureError → CaptureError ⊎ Source
opened kind name (some e) = inl e
opened kind name none = inr (new_source kind name)

abbrev pub open_handle : SourceKind → Text → Text → Option (Text → Bool) → CaptureError ⊎ Source
open_handle kind name bpf none = inl open_failed
open_handle kind name bpf (some accepts) = opened kind name (apply_bpf accepts (compile_bpf bpf))

-- NewFileSource; opens is pcap.OpenOffline, whose handle accepts some filters.
unfoldable pub new_file_source : (Text → Option (Text → Bool)) → Text → Text → CaptureError ⊎ Source
unfolding apply_bpf compile_bpf
new_file_source opens path bpf =
    if is_empty path
    then inl invalid_path
    else open_handle source_kind_file (text "file_source:" ++ path) bpf (opens path)

pub record LiveOptions : Type 0 where
  pub interface : Text
  pub snaplen : ℤ
  pub promisc : Bool
  pub timeout : Duration
  pub bpf : Text

abbrev pub positive_or : ℤ → ℤ → ℤ
positive_or n d = if ltb_ℤ (pos 0) n then n else d

-- NewLiveSource; opens is pcap.OpenLive on the interface, the snapshot length, promisc and the timeout.
unfoldable pub new_live_source :
    (Text → ℤ → Bool → Duration → Option (Text → Bool)) → LiveOptions → CaptureError ⊎ Source
unfolding apply_bpf compile_bpf
new_live_source opens opts =
    if is_empty opts.interface
    then inl invalid_interface
    else open_handle source_kind_live (text "interface_source:" ++ opts.interface) opts.bpf (
        opens opts.interface (positive_or opts.snaplen (pos 65535)) opts.promisc
          (positive_or opts.timeout (pos second)))

-- What Run does before the pump: the channel and markRunStarted.
unfoldable pub start_run : Source → Bool → CaptureError ⊎ Source
start_run s has_channel =
    if not has_channel
    then inl output_channel_nil
    else if s.run_started
    then inl source_already_run
    else inr record s { run_started = true }

-- Close; the second call closes nothing.
unfoldable pub close : Source → Source
close s = record s { closed = true }

-- LiveSource.Stats: what the handle counts as dropped, where it can tell.
unfoldable pub live_stats : Source → Option (ℕ × ℕ) → Source × Stats
unfolding set_dropped
live_stats s none = (s, s.stats)
live_stats s (some (packets_dropped, if_dropped)) =
    let n = packets_dropped + if_dropped in
    (record s { stats = set_dropped s.stats n }, set_dropped s.stats n)
