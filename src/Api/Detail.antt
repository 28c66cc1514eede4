-- ===== src/Api/Detail.antt =====
-- GetAssetDetail, ListVendors and CountAssetStatus of internal/api/query.go.
use asset_discovery.Api.{status_text}
use asset_discovery.Api.Query.{list_hostnames}
use asset_discovery.Asset.Types.{AssetId, Any, Status, offline, online}
use asset_discovery.Prelude.{
  Bool, List, Option, [], false, if◌then◌else◌, ltb, none, some, true, ℕ, ◌+◌, ◌==◌, ◌∷◌,
}
use asset_discovery.Prelude.Map.{Map, lookup}
use asset_discovery.Prelude.Text.{Text, is_empty, text_eq}
use asset_discovery.Prelude.Text.Order.{text_ltb}
use asset_discovery.Storage.{AssetRow, Codec, IpRow, ServiceRow, Tables, read_extra, rows_of}

pub record AssetIdentity : Type 0 where
  pub id : Text
  pub status : Text
  pub mac : Text
  pub vendor : Text
  pub device_type : Text
  pub model : Text
  pub os : Text
  pub first_seen : Text
  pub last_seen : Text

pub record IpHistoryEntry : Type 0 where
  pub ip : Text
  pub first_seen : Text
  pub last_seen : Text
  pub active : Bool

-- ServiceEntry without IsClient, which the query never sets, is the row.
pub record AssetDetailResponse : Type 0 where
  pub asset : AssetIdentity
  pub ipv4_history : List IpHistoryEntry
  pub ipv6_history : List IpHistoryEntry
  pub hostnames : List Text
  pub services : List ServiceRow
  pub extras : Map Any

-- ORDER BY last_seen DESC
unfoldable pub insert_history : IpHistoryEntry → List IpHistoryEntry → List IpHistoryEntry
unfolding text_ltb
insert_history e [] = e ∷ []
insert_history e (x ∷ xs) =
    let rest = insert_history e xs in
    if text_ltb e.last_seen x.last_seen then x ∷ rest else e ∷ x ∷ xs

-- The rows with the version.
unfoldable pub ip_history : ℕ → Map IpRow → List IpHistoryEntry
unfolding insert_history
ip_history version [] = []
ip_history version ((ip, row) ∷ rows) =
    let rest = ip_history version rows in
    let e : IpHistoryEntry = record {
      ip = ip;
      first_seen = row.first_seen;
      last_seen = row.last_seen;
      active = row.is_active;
    } in
    if row.version == version then insert_history e rest else rest

unfoldable pub load_ip_history : Bool → ℕ → Tables → AssetId → List IpHistoryEntry
unfolding ip_history rows_of
load_ip_history fails version t id = if fails then [] else ip_history version (rows_of id t.ips)

-- ORDER BY port
unfoldable pub insert_by_port : ServiceRow → List ServiceRow → List ServiceRow
insert_by_port r [] = r ∷ []
insert_by_port r (x ∷ xs) =
    let rest = insert_by_port r xs in if ltb x.port r.port then x ∷ rest else r ∷ x ∷ xs

unfoldable pub by_port : Map ServiceRow → List ServiceRow
unfolding insert_by_port
by_port [] = []
by_port ((k, row) ∷ rows) = insert_by_port row (by_port rows)

unfoldable pub detail_services : Bool → Tables → AssetId → List ServiceRow
unfolding by_port rows_of
detail_services fails t id = if fails then [] else by_port (rows_of id t.services)

unfoldable pub asset_identity : AssetId → AssetRow → AssetIdentity
asset_identity id row = record {
  id = id;
  status = status_text row.status;
  mac = row.mac;
  vendor = row.mac_vendor;
  device_type = row.device_type;
  model = row.model;
  os = row.os;
  first_seen = row.first_seen;
  last_seen = row.last_seen;
}

unfoldable pub asset_detail : Codec → (ℕ → Bool) → Tables → AssetId → AssetRow → AssetDetailResponse
unfolding asset_identity load_ip_history list_hostnames detail_services read_extra
asset_detail cx fails t id row = record {
  asset = asset_identity id row;
  ipv4_history = load_ip_history (fails 1) 4 t id;
  ipv6_history = load_ip_history (fails 2) 6 t id;
  hostnames = list_hostnames (fails 3) t id;
  services = detail_services (fails 4) t id;
  extras = read_extra cx row.extra_json;
}

-- A row, no row, or an error.
pub data Found {ℓ} (A : Type ℓ) : Type ℓ where
  found : A → Found A
  not_found : Found A
  query_failed : Found A

abbrev pub detail_of :
    Codec → (ℕ → Bool) → Tables → AssetId → Option AssetRow → Found AssetDetailResponse
detail_of cx fails t id none = not_found
detail_of cx fails t id (some row) = found (asset_detail cx fails t id row)

unfoldable pub get_asset_detail : Codec → (ℕ → Bool) → Tables → AssetId → Found AssetDetailResponse
unfolding asset_detail lookup
get_asset_detail cx fails t id =
    if fails 0 then query_failed else detail_of cx fails t id (lookup id t.assets)

-- SELECT DISTINCT ... ORDER BY
unfoldable pub insert_vendor : Text → List Text → List Text
unfolding text_ltb text_eq
insert_vendor v [] = v ∷ []
insert_vendor v (w ∷ ws) =
    let rest = insert_vendor v ws in
    if text_eq w v then w ∷ ws else if text_ltb w v then w ∷ rest else v ∷ w ∷ ws

unfoldable pub vendors_of : Map AssetRow → List Text
unfolding insert_vendor
vendors_of [] = []
vendors_of ((id, row) ∷ rows) =
    let rest = vendors_of rows in
    if is_empty row.mac_vendor then rest else insert_vendor row.mac_vendor rest

unfoldable pub list_vendors : Bool → Tables → Option (List Text)
unfolding vendors_of
list_vendors fails t = if fails then none else some (vendors_of t.assets)

abbrev pub is_online_row : Status → Bool
is_online_row online = true
is_online_row _ = false

abbrev pub is_offline_row : Status → Bool
is_offline_row offline = true
is_offline_row _ = false

-- COUNT of the rows with a status that passes the test
unfoldable pub count_rows : (Status → Bool) → Map AssetRow → ℕ
count_rows test [] = 0
count_rows test ((id, row) ∷ rows) = (if test row.status then 1 else 0) + count_rows test rows

-- (total, online, offline); an error counts nothing.
unfoldable pub count_asset_status : Bool → Tables → ℕ × ℕ × ℕ
unfolding count_rows
count_asset_status fails t = if fails then (0, 0, 0) else (
  count_rows (λ s. true) t.assets,
  count_rows is_online_row t.assets,
  count_rows is_offline_row t.assets,
)
