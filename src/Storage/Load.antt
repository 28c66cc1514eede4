-- ===== src/Storage/Load.antt =====
-- LoadAssets and LoadAssetByMAC of internal/storage/sqlite.go, with loadIPs, loadHostnames and
-- loadServices. `fails n` tells whether the query number n of the call fails; a failed query makes
-- the call return an error, which is none. Rows come in the order of the association list; SQL
-- leaves it open where no ORDER BY stands, and no theorem rests on it.
use asset_discovery.Asset.Types.{AssetId, AssetSnapshot, IpEntry, Service}
use asset_discovery.Prelude.{
  Bool, List, Option, [], false, if◌then◌else◌, none, not, some, take, true, ℕ, ◌*◌, ◌+◌, ◌==◌,
  ◌||◌, ◌∷◌,
}
use asset_discovery.Prelude.Map.{Map, insert}
use asset_discovery.Prelude.Text.{Text, is_empty, text_eq}
use asset_discovery.Prelude.Text.Order.{text_ltb}
use asset_discovery.Prelude.Time.{
  Duration, Time, is_zero, neg_part, pos_part, second, sub_ℕ, wrap_int64, ℤ,
}
use asset_discovery.Storage.{
  AssetRow, Codec, HostnameRow, IpRow, ServiceRow, Tables, parse_time_str, read_extra, rows_of,
  time_fmt,
}
use asset_discovery.Storage.Mac.{parse_mac}

-- time.Duration(leaseSec) * time.Second
unfoldable pub lease_of : ℤ → Duration
unfolding wrap_int64
lease_of d = wrap_int64 (sub_ℕ (pos_part d * second) (neg_part d * second))

unfoldable pub read_ip : Codec → IpRow → IpEntry
unfolding parse_time_str lease_of
read_ip cx row = record {
  first_seen = parse_time_str cx row.first_seen;
  last_seen = parse_time_str cx row.last_seen;
  lease = lease_of row.lease_seconds;
  is_active = row.is_active;
}

-- The rows of loadIPs that go to ipv6s, or to ipv4s.
unfoldable pub load_ips : Codec → Bool → Map IpRow → Map IpEntry
unfolding read_ip
load_ips cx v6 [] = []
load_ips cx v6 ((ip, row) ∷ rows) =
    let rest = load_ips cx v6 rows in
    let here = if row.version == 6 then v6 else not v6 in
    if here then insert ip (read_ip cx row) rest else rest

unfoldable pub load_hostnames : Map HostnameRow → List Text
load_hostnames [] = []
load_hostnames ((h, row) ∷ rows) = h ∷ load_hostnames rows

unfoldable pub read_service : Codec → ServiceRow → Service
unfolding parse_time_str
read_service cx row = record {
  protocol = row.protocol;
  port = row.port;
  name = row.name;
  version = row.version;
  product = row.product;
  vendor = row.vendor;
  banner = row.banner;
  is_active = row.is_active;
  last_seen = parse_time_str cx row.last_seen;
  is_client = false;
}

unfoldable pub load_services : Codec → Map ServiceRow → List Service
unfolding read_service
load_services cx [] = []
load_services cx ((k, row) ∷ rows) = read_service cx row ∷ load_services cx rows

-- A row of assets with its children.
unfoldable pub read_asset : Codec → Tables → AssetId × AssetRow → AssetSnapshot
unfolding parse_mac read_extra parse_time_str load_ips load_hostnames load_services rows_of
read_asset cx t (id, row) = record {
  id = id;
  mac = parse_mac row.mac;
  ipv4s = load_ips cx false (rows_of id t.ips);
  ipv6s = load_ips cx true (rows_of id t.ips);
  hostnames = load_hostnames (rows_of id t.hostnames);
  services = load_services cx (rows_of id t.services);
  mac_vendor = row.mac_vendor;
  device_type = row.device_type;
  model = row.model;
  os = row.os;
  extra = read_extra cx row.extra_json;
  first_seen = parse_time_str cx row.first_seen;
  last_seen = parse_time_str cx row.last_seen;
  seen_count = row.seen_count;
  status = row.status;
}

-- The three queries of the children, the first being number n.
unfoldable pub load_children :
    Codec → (ℕ → Bool) → ℕ → Tables → AssetId × AssetRow → Option AssetSnapshot
unfolding read_asset
load_children cx fails n t r =
    if fails n || (fails (n + 1) || fails (n + 2)) then none else some (read_asset cx t r)

abbrev pub cons_option {ℓ} : {A : Type ℓ} → Option A → Option (List A) → Option (List A)
cons_option none rest = none
cons_option (some x) none = none
cons_option (some x) (some xs) = some (x ∷ xs)

unfoldable pub load_each :
    Codec → (ℕ → Bool) → ℕ → Tables → List (AssetId × AssetRow) → Option (List AssetSnapshot)
unfolding load_children
load_each cx fails n t [] = some []
load_each cx fails n t (r ∷ rs) =
    cons_option (load_children cx fails n t r) (load_each cx fails (n + 3) t rs)

-- WHERE last_seen >= since
unfoldable pub seen_since : Text → Map AssetRow → List (AssetId × AssetRow)
unfolding text_ltb
seen_since since [] = []
seen_since since ((id, row) ∷ rows) =
    let rest = seen_since since rows in
    if text_ltb row.last_seen since then rest else (id, row) ∷ rest

-- ORDER BY last_seen DESC
unfoldable pub insert_by_seen :
    AssetId × AssetRow → List (AssetId × AssetRow) → List (AssetId × AssetRow)
unfolding text_ltb
insert_by_seen r [] = r ∷ []
insert_by_seen (id, row) ((j, other) ∷ rs) =
    let rest = insert_by_seen (id, row) rs in
    if text_ltb row.last_seen other.last_seen
    then (j, other) ∷ rest
    else (id, row) ∷ (j, other) ∷ rs

unfoldable pub order_by_seen : List (AssetId × AssetRow) → List (AssetId × AssetRow)
unfolding insert_by_seen
order_by_seen [] = []
order_by_seen (r ∷ rs) = insert_by_seen r (order_by_seen rs)

-- LoadOptions; a Limit of at most 0 is 0.
pub record LoadOptions : Type 0 where
  pub since : Time
  pub limit : ℕ

unfoldable pub select_assets : Codec → LoadOptions → Tables → List (AssetId × AssetRow)
unfolding order_by_seen seen_since time_fmt
select_assets cx opts t =
    let rows =
      order_by_seen
        (if is_zero opts.since then t.assets else seen_since (time_fmt cx opts.since) t.assets) in
    if opts.limit == 0 then rows else take opts.limit rows

unfoldable pub load_assets : Codec → (ℕ → Bool) → LoadOptions → Tables → Option (List AssetSnapshot)
unfolding select_assets load_each
load_assets cx fails opts t =
    if fails 0 then none else load_each cx fails 1 t (select_assets cx opts t)

-- WHERE mac = ? LIMIT 1
unfoldable pub find_by_mac : Text → Map AssetRow → Option (AssetId × AssetRow)
unfolding text_eq
find_by_mac mac [] = none
find_by_mac mac ((id, row) ∷ rows) =
    let rest = find_by_mac mac rows in if text_eq row.mac mac then some (id, row) else rest

-- A pointer to a snapshot, or nil: no row, or an error.
unfoldable pub load_found :
    Codec → (ℕ → Bool) → Tables → Option (AssetId × AssetRow) → Option AssetSnapshot
unfolding load_children
load_found cx fails t none = none
load_found cx fails t (some r) = load_children cx fails 1 t r

unfoldable pub load_asset_by_mac : Codec → (ℕ → Bool) → Tables → Text → Option AssetSnapshot
unfolding find_by_mac load_found
load_asset_by_mac cx fails t mac =
    if is_empty mac
    then none
    else if fails 0
    then none
    else load_found cx fails t (find_by_mac mac t.assets)
