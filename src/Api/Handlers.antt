-- ===== src/Api/Handlers.antt =====
-- internal/api/handlers.go, stats_adapter.go and config.go. A response is its status and its body;
-- the body of an error is left out.
use asset_discovery.Api.{AssetFilter}
use asset_discovery.Api.Detail.{
  AssetDetailResponse, Found, found, get_asset_detail, list_vendors, not_found, query_failed,
}
use asset_discovery.Api.Query.{AssetListResponse, list_assets}
use asset_discovery.Asset.Manager.{Manager, assets_count, snapshots}
use asset_discovery.Asset.Shard.{is_offline, is_online}
use asset_discovery.Asset.Types.{AssetSnapshot, Status}
use asset_discovery.Config.Environment.{atoi}
use asset_discovery.Prelude.{
  Bool, List, Option, [], drop, false, if◌then◌else◌, length, ltb, none, some, ℕ, ◌+◌, ◌/◌, ◌==◌,
  ◌||◌, ◌∷◌,
}
use asset_discovery.Prelude.Text.{Text, has_prefix, is_empty, text}
use asset_discovery.Prelude.Time.{Duration, Time, pos, pos_part, ℤ}
use asset_discovery.Stats.{rate}
use asset_discovery.Storage.{Codec, Tables}

pub record Response {ℓ} (A : Type ℓ) : Type ℓ where
  pub status : ℕ
  pub body : Option A

abbrev pub reply {ℓ} : {A : Type ℓ} → ℕ → Option A → Response A
reply status body = record { status = status; body = body }

abbrev pub reply_or_500 {ℓ} : {A : Type ℓ} → Option A → Response A
reply_or_500 none = reply 500 none
reply_or_500 (some a) = reply 200 (some a)

-- 0 where the text is no number; Atoi's value for a number out of range gives the same limit.
abbrev pub int_or_zero : Option ℤ → ℤ
int_or_zero none = pos 0
int_or_zero (some n) = n

-- The filter of the query string `get`; parse_rfc3339 is time.Parse with RFC3339, 0 for an error.
unfoldable pub asset_filter : (Text → Time) → (Text → Text) → AssetFilter
unfolding atoi
asset_filter parse_rfc3339 get = record {
  q = get (text "q");
  status = get (text "status");
  vendor = get (text "vendor");
  ip = get (text "ip");
  mac = get (text "mac");
  hostname = get (text "hostname");
  seen_after =
      if is_empty (get (text "seen_after")) then 0 else parse_rfc3339 (get (text "seen_after"));
  seen_before =
      if is_empty (get (text "seen_before")) then 0 else parse_rfc3339 (get (text "seen_before"));
  sort = get (text "sort");
  limit = if is_empty (get (text "limit")) then pos 0 else int_or_zero (atoi (get (text "limit")));
}

unfoldable pub handle_assets :
    (Text → Time) → Codec → (ℕ → Bool) → Tables → (Text → Text) → Response AssetListResponse
unfolding asset_filter list_assets
handle_assets parse_rfc3339 cx fails t get =
    reply_or_500 (list_assets cx fails (asset_filter parse_rfc3339 get) t)

-- strings.TrimPrefix
unfoldable pub trim_prefix : Text → Text → Text
unfolding has_prefix
trim_prefix s p = if has_prefix s p then drop (length p) s else s

unfoldable pub has_slash : Text → Bool
has_slash [] = false
has_slash (c ∷ s) = c == b'/' || has_slash s

abbrev pub reply_found {ℓ} : {A : Type ℓ} → Found A → Response A
reply_found (found a) = reply 200 (some a)
reply_found not_found = reply 404 none
reply_found query_failed = reply 500 none

unfoldable pub handle_asset_detail :
    Codec → (ℕ → Bool) → Tables → Text → Response AssetDetailResponse
unfolding trim_prefix has_slash get_asset_detail
handle_asset_detail cx fails t path =
    let id = trim_prefix path (text "/api/assets/") in
    if is_empty id || has_slash id
    then reply 400 none
    else reply_found (get_asset_detail cx fails t id)

unfoldable pub handle_vendors : Bool → Tables → Response (List Text)
unfolding list_vendors
handle_vendors fails t = reply_or_500 (list_vendors fails t)

-- StatsSnapshot; the fields that GetStats never sets are the last three but one. The rate is a sum
-- and a number of buckets.
pub record StatsSnapshot : Type 0 where
  pub packets_received : ℕ
  pub assets_total : ℕ
  pub assets_online : ℕ
  pub assets_offline : ℕ
  pub packets_per_sec : ℕ × ℕ
  pub db_flush_errors : ℕ
  pub assets_created : ℕ
  pub assets_updated : ℕ
  pub kernel_dropped : ℕ
  pub internal_dropped : ℕ
  pub raw_queue_depth : ℕ

unfoldable pub count_snapshots : (Status → Bool) → List AssetSnapshot → ℕ
count_snapshots test [] = 0
count_snapshots test (s ∷ ss) = (if test s.status then 1 else 0) + count_snapshots test ss

abbrev pub errors_of : Option ℕ → ℕ
errors_of none = 0
errors_of (some n) = n

-- The argument flush_errors is the counter of the persister, where there is one.
unfoldable pub get_stats : Manager → Option ℕ → StatsSnapshot
unfolding assets_count snapshots rate count_snapshots
get_stats m flush_errors = record {
  packets_received = m.packets_recv;
  assets_total = assets_count m;
  assets_online = count_snapshots is_online (snapshots m);
  assets_offline = count_snapshots is_offline (snapshots m);
  packets_per_sec = rate m.packet_rate;
  db_flush_errors = errors_of flush_errors;
  assets_created = 0;
  assets_updated = 0;
  kernel_dropped = 0;
  internal_dropped = 0;
  raw_queue_depth = 0;
}

-- DefaultUIConfig: an interval below a second is five seconds.
unfoldable pub ui_refresh_ms : Duration → ℕ
ui_refresh_ms refresh_every =
    let ms = pos_part refresh_every / 1_000_000 in if ltb ms 1000 then 5000 else ms
