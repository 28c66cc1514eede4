-- ===== src/Api/Query.antt =====
-- ListAssets of internal/api/query.go with its order, its limit and its cursor. A query whose number
-- fails returns an error; of a failed query for children the result is nil.
use asset_discovery.Api.{AssetFilter, matching, page_limit, status_text}
use asset_discovery.Asset.Types.{AssetId}
use asset_discovery.Prelude.{
  Bool, List, Option, [], if◌then◌else◌, length, none, some, take, ℕ, ◌+◌, ◌==◌, ◌∷◌,
}
use asset_discovery.Prelude.Map.{Map}
use asset_discovery.Prelude.Text.{Text, text, text_eq}
use asset_discovery.Prelude.Text.Order.{text_ltb}
use asset_discovery.Storage.{AssetRow, Codec, IpRow, Tables, rows_of}
use asset_discovery.Storage.Load.{load_hostnames}

pub record AssetListItem : Type 0 where
  pub id : Text
  pub status : Text
  pub mac : Text
  pub current_ips : List Text
  pub hostnames : List Text
  pub vendor : Text
  pub device_type : Text
  pub model : Text
  pub os : Text
  pub first_seen : Text
  pub last_seen : Text
  pub seen_count : ℕ

pub record AssetListResponse : Type 0 where
  pub items : List AssetListItem
  pub limit : ℕ
  pub next_cursor : Text

-- Whether a row comes before another one, in the order that the filter names.
unfoldable pub comes_before : Text → AssetRow → AssetRow → Bool
unfolding text_ltb
comes_before sort r other =
    if text_eq sort (text "first_seen_asc")
    then text_ltb r.first_seen other.first_seen
    else if text_eq sort (text "first_seen_desc")
    then text_ltb other.first_seen r.first_seen
    else if text_eq sort (text "last_seen_asc")
    then text_ltb r.last_seen other.last_seen
    else text_ltb other.last_seen r.last_seen

-- ORDER BY
unfoldable pub insert_ordered : Text → AssetId × AssetRow → Map AssetRow → Map AssetRow
unfolding comes_before
insert_ordered sort r [] = r ∷ []
insert_ordered sort (id, row) ((j, other) ∷ rows) =
    let rest = insert_ordered sort (id, row) rows in
    if comes_before sort other row then (j, other) ∷ rest else (id, row) ∷ (j, other) ∷ rows

unfoldable pub ordered : Text → Map AssetRow → Map AssetRow
unfolding insert_ordered
ordered sort [] = []
ordered sort (r ∷ rows) = insert_ordered sort r (ordered sort rows)

-- The addresses whose is_active is 1.
unfoldable pub active_ips : Map IpRow → List Text
active_ips [] = []
active_ips ((ip, row) ∷ rows) = if row.is_active then ip ∷ active_ips rows else active_ips rows

unfoldable pub load_active_ips : Bool → Tables → AssetId → List Text
unfolding active_ips rows_of
load_active_ips fails t id = if fails then [] else active_ips (rows_of id t.ips)

unfoldable pub list_hostnames : Bool → Tables → AssetId → List Text
unfolding load_hostnames rows_of
list_hostnames fails t id = if fails then [] else load_hostnames (rows_of id t.hostnames)

-- Items of the page from query number n on.
unfoldable pub list_items : (ℕ → Bool) → ℕ → Tables → Map AssetRow → List AssetListItem
unfolding load_active_ips list_hostnames
list_items fails n t [] = []
list_items fails n t ((id, row) ∷ rows) =
    record {
      id = id;
      status = status_text row.status;
      mac = row.mac;
      current_ips = load_active_ips (fails n) t id;
      hostnames = list_hostnames (fails (n + 1)) t id;
      vendor = row.mac_vendor;
      device_type = row.device_type;
      model = row.model;
      os = row.os;
      first_seen = row.first_seen;
      last_seen = row.last_seen;
      seen_count = row.seen_count;
    }
    ∷ list_items fails (n + 2) t rows

-- The variable lastSeen after the loop.
unfoldable pub last_seen_of : Text → Map AssetRow → Text
last_seen_of seen [] = seen
last_seen_of seen ((id, row) ∷ rows) = last_seen_of row.last_seen rows

-- The rows of the query: one more than the page shows.
unfoldable pub fetched : Codec → AssetFilter → Tables → Map AssetRow
unfolding matching ordered page_limit
fetched cx f t = take (page_limit f + 1) (ordered f.sort (matching cx f t t.assets))

unfoldable pub list_assets : Codec → (ℕ → Bool) → AssetFilter → Tables → Option AssetListResponse
unfolding fetched list_items last_seen_of page_limit
list_assets cx fails f t =
    let limit = page_limit f in
    let rows = fetched cx f t in
    let items = list_items fails 1 t (take limit rows) in
    let seen = last_seen_of [] rows in
    if fails 0
    then none
    else some record {
      items = items;
      limit = limit;
      next_cursor = if length items == limit then seen else [];
    }
