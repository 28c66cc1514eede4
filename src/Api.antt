-- ===== src/Api.antt =====
-- internal/api: the filter of the list of assets, as the WHERE clause of ListAssets (query.go) has it.
pub mod Search
pub mod Query
pub mod Detail
pub mod Handlers
pub mod Pages
pub mod Vendors
mod Tests
use asset_discovery.Asset.Types.{AssetId, Status, offline, online, unset}
use asset_discovery.Prelude.{
  All, All-append, All-take, Bool, Bool-cases, Gives, List, Option, Option-cases, [], ap, arith,
  drop, false, get_elem?, if◌then◌else◌, inl, inr, leb, leb→le, length, length-append, length-drop,
  length-take, lt→ltb, ltb, ltb→lt, map, none, not, refl, some, suc, sym, take, take-append-drop,
  true, zero, ==_iff, ℕ, ◌%◌, ◌&&◌, ◌*◌, ◌++◌, ◌+◌, ◌-◌, ◌/◌, ◌<◌, ◌==◌, ◌^◌, ◌||◌, ◌↔◌, ◌∙◌, ◌∷◌,
  ◌≡◌, ◌≢◌, ◌≤◌, ◌⊎◌,
}
use asset_discovery.Prelude.Map.{Map, lookup}
use asset_discovery.Prelude.Text.{Text, contains, is_empty, text, text_eq, to_lower}
use asset_discovery.Prelude.Text.Order.{text_ltb}
use asset_discovery.Prelude.Time.{Time, is_zero, ltb_ℤ, pos, pos_part, ℤ}
use asset_discovery.Storage.{AssetRow, Codec, HostnameRow, IpRow, Tables, rows_of}

pub record AssetFilter : Type 0 where
  pub q : Text
  pub status : Text
  pub vendor : Text
  pub ip : Text
  pub mac : Text
  pub hostname : Text
  pub seen_after : Time
  pub seen_before : Time
  pub sort : Text
  pub limit : ℤ

abbrev pub no_filter : AssetFilter
no_filter = record {
  q = [];
  status = [];
  vendor = [];
  ip = [];
  mac = [];
  hostname = [];
  seen_after = 0;
  seen_before = 0;
  sort = [];
  limit = pos 0;
}

abbrev pub status_text : Status → Text
status_text unset = []
status_text online = text "online"
status_text offline = text "offline"

abbrev pub is_some_row {ℓ} : {A : Type ℓ} → Option A → Bool
is_some_row none = false
is_some_row (some a) = true

-- A condition that is only there where its value is not empty.
abbrev pub when_given : Text → Bool → Bool
when_given v b = if is_empty v then true else b

-- "%" + f.Q + "%" on five columns
unfoldable pub matches_query : Codec → Text → AssetId → AssetRow → Bool
matches_query cx q id row =
    let pattern = text "%" ++ q ++ text "%" in
    cx.like pattern row.mac
    || (cx.like pattern row.mac_vendor
        || (cx.like pattern row.os || (cx.like pattern row.device_type || cx.like pattern id)))

unfoldable pub matches_times : Codec → AssetFilter → AssetRow → Bool
unfolding text_ltb
matches_times cx f row =
    (if is_zero f.seen_after
      then true
      else not (text_ltb row.last_seen (cx.format_time f.seen_after)))
    && (if is_zero f.seen_before
        then true
        else not (text_ltb (cx.format_time f.seen_before) row.last_seen))

-- The conditions, joined by AND.
unfoldable pub matches : Codec → AssetFilter → Tables → AssetId → AssetRow → Bool
unfolding matches_query matches_times lookup rows_of text_eq
matches cx f t id row =
    when_given f.q (matches_query cx f.q id row)
    && (when_given f.status (text_eq (status_text row.status) f.status)
        && (when_given f.vendor (text_eq row.mac_vendor f.vendor)
            && (when_given f.ip (is_some_row (lookup f.ip (rows_of id t.ips)))
                && (when_given f.mac (text_eq row.mac f.mac)
                    && (when_given f.hostname
                          (is_some_row (lookup f.hostname (rows_of id t.hostnames)))
                        && matches_times cx f row)))))

unfoldable pub matching : Codec → AssetFilter → Tables → Map AssetRow → Map AssetRow
unfolding matches
matching cx f t [] = []
matching cx f t ((id, row) ∷ rows) =
    let rest = matching cx f t rows in if matches cx f t id row then (id, row) ∷ rest else rest

-- The limit of a page: 100 where none from 1 to 1000 is asked for.
unfoldable pub page_limit : AssetFilter → ℕ
page_limit f =
    if not (ltb_ℤ (pos 0) f.limit) || ltb_ℤ (pos 1000) f.limit then 100 else pos_part f.limit
