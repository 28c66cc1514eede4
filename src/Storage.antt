-- ===== src/Storage.antt =====
-- internal/storage/schema.sql and sqlite.go: the tables, and what each statement of the program does
-- to them. The driver and the printed forms of times and extras are parameters (Codec, faults).
pub mod Mac
pub mod Save
pub mod Load
pub mod Statistics
pub mod Open
pub mod Laws
pub mod Tests
use asset_discovery.Asset.Types.{AssetId, Any, Status}
use asset_discovery.Prelude.{
  All, Bool, Bool-cases, Gives, List, Option, Option-cases, [], ap, arith, drop, false, get_elem?,
  if◌then◌else◌, inl, inr, leb, leb→le, length, length-append, length-drop, length-take, lt→ltb,
  ltb, ltb→lt, map, none, not, refl, some, suc, sym, take, take-append-drop, true, zero, ==_iff, ℕ,
  ◌%◌, ◌&&◌, ◌*◌, ◌++◌, ◌+◌, ◌-◌, ◌/◌, ◌<◌, ◌==◌, ◌^◌, ◌||◌, ◌↔◌, ◌∙◌, ◌∷◌, ◌≡◌, ◌≢◌, ◌≤◌, ◌⊎◌,
}
use asset_discovery.Prelude.Map.{Map, insert, lookup}
use asset_discovery.Prelude.Text.{Text, is_empty, itoa, text}
use asset_discovery.Prelude.Text.Order.{text_ltb}
use asset_discovery.Prelude.Time.{Time, ℤ, is_zero, ltb_ℤ}

-- time.Time.Format and time.Parse with the layout RFC3339Nano in UTC, json.Marshal and
-- json.Unmarshal of the extras. A text that does not parse gives the zero time or no extras, and extras
-- that cannot be printed give the empty text. `like p s` is SQLite's `s LIKE p`.
pub record Codec : Type 0 where
  pub format_time : Time → Text
  pub parse_time : Text → Time
  pub marshal : Map Any → Text
  pub unmarshal : Text → Map Any
  pub like : Text → Text → Bool

-- timeFmt
unfoldable pub time_fmt : Codec → Time → Text
time_fmt cx t = if is_zero t then [] else cx.format_time t

-- parseTimeStr of a column that is not NULL
unfoldable pub parse_time_str : Codec → Text → Time
parse_time_str cx s = if is_empty s then 0 else cx.parse_time s

-- The empty text is NULL, which is none.
abbrev pub null_string : Text → Option Text
null_string s = if is_empty s then none else some s

-- The empty text where json.Marshal fails.
abbrev pub marshal_extras : Codec → Map Any → Text
marshal_extras cx m = if is_empty m then [] else cx.marshal m

unfoldable pub extra_column : Codec → Map Any → Option Text
extra_column cx m = null_string (marshal_extras cx m)

unfoldable pub read_extra : Codec → Option Text → Map Any
read_extra cx none = []
read_extra cx (some s) = cx.unmarshal s

-- The tables, a row under its primary key. The columns created_at and updated_at, which nothing
-- reads, are left out.
pub record AssetRow : Type 0 where
  pub status : Status
  pub mac : Text
  pub mac_vendor : Text
  pub device_type : Text
  pub model : Text
  pub os : Text
  pub extra_json : Option Text
  pub first_seen : Text
  pub last_seen : Text
  pub seen_count : ℕ

pub record IpRow : Type 0 where
  pub version : ℕ
  pub first_seen : Text
  pub last_seen : Text
  pub lease_seconds : ℤ
  pub is_active : Bool

pub record HostnameRow : Type 0 where
  pub first_seen : Text
  pub last_seen : Text

pub record ServiceRow : Type 0 where
  pub protocol : Text
  pub port : ℕ
  pub name : Text
  pub version : Text
  pub product : Text
  pub vendor : Text
  pub banner : Text
  pub is_active : Bool
  pub last_seen : Text

-- A child table has the rows of each asset, by the rest of their primary key.
pub record Tables : Type 0 where
  pub assets : Map AssetRow
  pub ips : Map (Map IpRow)
  pub hostnames : Map (Map HostnameRow)
  pub services : Map (Map ServiceRow)

abbrev pub empty_tables : Tables
empty_tables = record { assets = []; ips = []; hostnames = []; services = [] }

-- The text that stands for the key (protocol, port) of a service.
unfoldable pub port_key_text : Text → ℕ → Text
port_key_text protocol port = protocol ++ text ":" ++ itoa port

-- COALESCE(NULLIF(excluded.c, ''), c)
abbrev pub coalesce : Text → Text → Text
coalesce new old = if is_empty new then old else new

abbrev pub min_text : Text → Text → Text
min_text a b = if text_ltb b a then b else a

abbrev pub max_text : Text → Text → Text
max_text a b = if text_ltb a b then b else a

-- The ON CONFLICT clauses: the row that is there, if any, and the row of VALUES.
unfoldable pub conflict_asset : Option AssetRow → AssetRow → AssetRow
conflict_asset none new = new
conflict_asset (some old) new = record {
  status = new.status;
  mac = coalesce new.mac old.mac;
  mac_vendor = coalesce new.mac_vendor old.mac_vendor;
  device_type = coalesce new.device_type old.device_type;
  model = coalesce new.model old.model;
  os = coalesce new.os old.os;
  extra_json = old.extra_json;
  first_seen = min_text old.first_seen new.first_seen;
  last_seen = max_text old.last_seen new.last_seen;
  seen_count = if ltb old.seen_count new.seen_count then new.seen_count else old.seen_count;
}

unfoldable pub conflict_ip : Option IpRow → IpRow → IpRow
conflict_ip none new = new
conflict_ip (some old) new = record {
  version = new.version;
  first_seen = min_text old.first_seen new.first_seen;
  last_seen = max_text old.last_seen new.last_seen;
  lease_seconds =
      if ltb_ℤ old.lease_seconds new.lease_seconds then new.lease_seconds else old.lease_seconds;
  is_active = new.is_active;
}

unfoldable pub conflict_hostname : Option HostnameRow → HostnameRow → HostnameRow
conflict_hostname none new = new
conflict_hostname (some old) new = record old { last_seen = new.last_seen }

unfoldable pub conflict_service : Option ServiceRow → ServiceRow → ServiceRow
conflict_service none new = new
conflict_service (some old) new = record new { protocol = old.protocol; port = old.port }

pub data Statement : Type 0 where
  insert_asset : AssetId → AssetRow → Statement
  insert_ip : AssetId → Text → IpRow → Statement
  insert_hostname : AssetId → Text → HostnameRow → Statement
  insert_service : AssetId → ServiceRow → Statement

abbrev pub rows_or_none {ℓ} : {A : Type ℓ} → Option (Map A) → Map A
rows_or_none none = []
rows_or_none (some rows) = rows

-- The rows of a child table that have the asset_id.
unfoldable pub rows_of {ℓ} : {A : Type ℓ} → AssetId → Map (Map A) → Map A
rows_of id t = rows_or_none (lookup id t)

-- INSERT ... ON CONFLICT into a child table
unfoldable pub put_row {ℓ} :
    {A : Type ℓ} → (Option A → A → A) → AssetId → Text → A → Map (Map A) → Map (Map A)
unfolding rows_of
put_row conflict id k row t =
    let rows = rows_of id t in insert id (insert k (conflict (lookup k rows) row) rows) t

unfoldable pub execute : Statement → Tables → Tables
unfolding conflict_asset conflict_ip conflict_hostname conflict_service put_row port_key_text
execute (insert_asset id row) t = record t {
  assets = insert id (conflict_asset (lookup id t.assets) row) t.assets;
}
execute (insert_ip id ip row) t = record t { ips = put_row conflict_ip id ip row t.ips }
execute (insert_hostname id h row) t = record t {
  hostnames = put_row conflict_hostname id h row t.hostnames;
}
execute (insert_service id row) t = record t {
  services = put_row conflict_service id (port_key_text row.protocol row.port) row t.services;
}
