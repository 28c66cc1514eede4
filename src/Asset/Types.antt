-- ===== src/Asset/Types.antt =====
-- internal/asset/asset.go, observation.go, snapshot.go: the data of the asset model.
use asset_discovery.Prelude.{ℕ, Bool, true, false, List, [], if◌then◌else◌}
use asset_discovery.Prelude.Text.{Text, is_empty}
use asset_discovery.Prelude.Map.{Map}
use asset_discovery.Prelude.Time.{Time, Duration, is_zero}

-- net.HardwareAddr
abbrev pub Mac : Type 0
Mac = List ℕ

abbrev pub AssetId : Type 0
AssetId = Text

pub data Status : Type 0 where
  unset online offline : Status

pub record Service : Type 0 where
  pub protocol : Text
  pub port : ℕ
  pub name : Text
  pub version : Text
  pub product : Text
  pub vendor : Text
  pub banner : Text
  pub is_active : Bool
  pub last_seen : Time
  pub is_client : Bool

pub record IpEntry : Type 0 where
  pub first_seen : Time
  pub last_seen : Time
  pub lease : Duration
  pub is_active : Bool

-- The values that `map[string]any` holds: nil, a string, a bool, []byte, []string, []any. `other`
-- stands for a value of any further type, which the program only passes on.
mutual
  pub data Any : Type 0 where
    null : Any
    str : Text → Any
    bool : Bool → Any
    bytes : List ℕ → Any
    other : ℕ → Any
    strs : List Text → Any
    anys : Anys → Any

  pub data Anys : Type 0 where
    nil : Anys
    cons : Any → Anys → Anys

-- A nil map or slice is the empty one: no operation tells them apart but the printed JSON.
pub record Asset : Type 0 where
  pub id : AssetId
  pub mac : Mac
  pub ipv4s : Map IpEntry
  pub ipv6s : Map IpEntry
  pub hostnames : List Text
  pub services : List Service
  pub mac_vendor : Text
  pub device_type : Text
  pub model : Text
  pub os : Text
  pub extra : Map Any
  pub first_seen : Time
  pub last_seen : Time
  pub seen_count : ℕ
  pub status : Status

-- A deep copy of an asset has the same fields.
pub record AssetSnapshot : Type 0 where
  pub id : AssetId
  pub mac : Mac
  pub ipv4s : Map IpEntry
  pub ipv6s : Map IpEntry
  pub hostnames : List Text
  pub services : List Service
  pub mac_vendor : Text
  pub device_type : Text
  pub model : Text
  pub os : Text
  pub extra : Map Any
  pub first_seen : Time
  pub last_seen : Time
  pub seen_count : ℕ
  pub status : Status

unfoldable pub snapshot : Asset → AssetSnapshot
snapshot a = record {
  id = a.id;
  mac = a.mac;
  ipv4s = a.ipv4s;
  ipv6s = a.ipv6s;
  hostnames = a.hostnames;
  services = a.services;
  mac_vendor = a.mac_vendor;
  device_type = a.device_type;
  model = a.model;
  os = a.os;
  extra = a.extra;
  first_seen = a.first_seen;
  last_seen = a.last_seen;
  seen_count = a.seen_count;
  status = a.status;
}

unfoldable pub asset_from_snapshot : AssetSnapshot → Asset
asset_from_snapshot s = record {
  id = s.id;
  mac = s.mac;
  ipv4s = s.ipv4s;
  ipv6s = s.ipv6s;
  hostnames = s.hostnames;
  services = s.services;
  mac_vendor = s.mac_vendor;
  device_type = s.device_type;
  model = s.model;
  os = s.os;
  extra = s.extra;
  first_seen = s.first_seen;
  last_seen = s.last_seen;
  seen_count = s.seen_count;
  status = s.status;
}

pub record Observation : Type 0 where
  pub source : Text
  pub observed_at : Time
  pub mac : Mac
  pub ipv4s : Map IpEntry
  pub ipv6s : Map IpEntry
  pub hostnames : List Text
  pub services : List Service
  pub mac_vendor : Text
  pub device_type : Text
  pub model : Text
  pub os : Text
  pub extra : Map Any

-- Observation.Valid
unfoldable pub valid : Observation → Bool
valid o =
    if is_empty o.source
    then false
    else if is_zero o.observed_at
    then false
    else if is_empty o.mac
    then false
    else true

-- An observation with every optional field left out.
unfoldable pub bare_observation : Text → Time → Mac → Observation
bare_observation source at mac = record {
  source = source;
  observed_at = at;
  mac = mac;
  ipv4s = [];
  ipv6s = [];
  hostnames = [];
  services = [];
  mac_vendor = [];
  device_type = [];
  model = [];
  os = [];
  extra = [];
}
