-- ===== src/Asset/Shard.antt =====
-- One shard of the Manager of internal/asset/manager.go, with the shard of the resolver that has its
-- number: what Apply, Sweep, EvictStale, DrainDirty and LoadSnapshots do while they hold its lock.
pub mod Invariant
pub mod Apply
pub mod Locked
use asset_discovery.Prelude.{false}
use asset_discovery.Asset.Identity.{
  IdentityIndex, bind, generate_asset_id, mac_string, new_identity_index,
}
use asset_discovery.Asset.Infer.{infer_from_vendor_hostname}
use asset_discovery.Asset.Merge.{has}
use asset_discovery.Asset.Observe.{fill, merge_observation}
use asset_discovery.Asset.Types.{
  Asset, AssetId, AssetSnapshot, Mac, Observation, asset_from_snapshot, Status, offline, online,
}
use asset_discovery.Prelude.{
  Bool, List, Option, [], if◌then◌else◌, none, not, some, true, ◌&&◌, ◌||◌, ◌∷◌,
}
use asset_discovery.Prelude.Map.{Map, insert, lookup}
use asset_discovery.Prelude.Text.{Text, is_empty}

-- A dirty set is a list without repeats.
pub record Shard : Type 0 where
  pub assets : Map Asset
  pub dirty : List AssetId

-- A shard and its part of the resolver.
pub record Cell : Type 0 where
  pub shard : Shard
  pub index : IdentityIndex

abbrev pub empty_cell : Cell
empty_cell = record { shard = record { assets = []; dirty = [] }; index = new_identity_index }

-- markDirty
unfoldable pub mark_dirty : Shard → AssetId → Shard
unfolding has
mark_dirty sh id =
    if is_empty id then sh else if has id sh.dirty then sh else record sh { dirty = id ∷ sh.dirty }

abbrev pub mark_if : Bool → Shard → AssetId → Shard
mark_if changed sh id = if changed then mark_dirty sh id else sh

-- Interfaces that the manager calls: VendorForMAC, and LoadAssetByMAC, whose error is not used.
abbrev pub VendorResolver : Type 0
VendorResolver = Text → Option Text

abbrev pub Hydrator : Type 0
Hydrator = Text → Option AssetSnapshot

abbrev pub ask_vendor : Option VendorResolver → Text → Option Text
ask_vendor none mac = none
ask_vendor (some v) mac = v mac

-- A name that the resolver found and that is not empty.
abbrev pub use_vendor : Asset × Bool → Option Text → Asset × Bool
use_vendor (a, changed) none = (a, changed)
use_vendor (a, changed) (some name) =
    if is_empty name then (a, changed) else (record a { mac_vendor = name }, true)

unfoldable pub fill_vendor : Option VendorResolver → Asset × Bool → Asset × Bool
fill_vendor v (a, changed) =
    if is_empty a.mac_vendor && not (is_empty a.mac)
    then use_vendor (a, changed) (ask_vendor v (mac_string a.mac))
    else (a, changed)

-- The fields are inferred from the vendor and the names, each where it is empty.
unfoldable pub fill_inferred : Asset × Bool → Asset × Bool
unfolding fill
fill_inferred (a, changed) =
    let (dt, os_name) = infer_from_vendor_hostname a.mac_vendor a.hostnames in
    let (device, c1) = fill a.device_type dt in
    let (os', c2) = fill a.os os_name in
    if is_empty a.device_type || is_empty a.os
    then (record a { device_type = device; os = os' }, changed || (c1 || c2))
    else (a, changed)

unfoldable pub merge_into : Option VendorResolver → Asset → Observation → Asset × Bool
unfolding fill_vendor fill_inferred
merge_into v a obs = fill_inferred (fill_vendor v (merge_observation a obs))

pub data Action : Type 0 where
  no_action created updated : Action

pub record ApplyResult : Type 0 where
  pub asset_id : AssetId
  pub action : Action

-- A Go call returns, or panics on a nil pointer.
pub data Outcome {ℓ} (A : Type ℓ) : Type ℓ where
  returned : A → Outcome A
  nil_dereference : Outcome A

abbrev pub is_offline : Status → Bool
is_offline offline = true
is_offline _ = false

abbrev pub is_online : Status → Bool
is_online online = true
is_online _ = false

abbrev pub revive : Asset × Bool → Asset × Bool
revive (a, changed) =
    if is_offline a.status then (record a { status = online }, true) else (a, changed)

-- case exists
unfoldable pub update_asset :
    Option VendorResolver
    → Cell
    → AssetId
    → Observation
    → Option Asset
    → Outcome (Cell × ApplyResult)
update_asset v c id obs none = nil_dereference
update_asset v c id obs (some a0) =
    let (a1, changed) = merge_into v a0 obs in
    let (a, changed') = revive (a1, changed) in
    returned (
      record {
        shard = mark_if changed' (record c.shard { assets = insert id a c.shard.assets }) a.id;
        index = bind c.index a.id obs.mac;
      },
      record { asset_id = a.id; action = updated },
    )

unfoldable pub new_asset : AssetId → Mac → Asset
new_asset id mac = record {
  id = id;
  mac = mac;
  ipv4s = [];
  ipv6s = [];
  hostnames = [];
  services = [];
  mac_vendor = [];
  device_type = [];
  model = [];
  os = [];
  extra = [];
  first_seen = 0;
  last_seen = 0;
  seen_count = 0;
  status = online;
}

-- default
unfoldable pub create_asset :
    Option VendorResolver → Cell → Observation → Outcome (Cell × ApplyResult)
unfolding new_asset
create_asset v c obs =
    let id = generate_asset_id obs.mac in
    let (a, _) = merge_into v (new_asset id obs.mac) obs in
    if is_empty id
    then returned (c, record { asset_id = []; action = no_action })
    else returned (
      record {
        shard = mark_dirty (record c.shard { assets = insert id a c.shard.assets }) id;
        index = bind c.index id obs.mac;
      },
      record { asset_id = id; action = created },
    )

abbrev pub hydrate_row : Cell → Option AssetSnapshot → Cell × Option AssetId
hydrate_row c none = (c, none)
hydrate_row c (some s) =
    let a = asset_from_snapshot s in
    (
      record {
        shard = record c.shard { assets = insert a.id a c.shard.assets };
        index = bind c.index a.id a.mac;
      },
      some a.id,
    )

-- On-demand hydration: the cell with the loaded asset, and its id.
unfoldable pub hydrate : Option Hydrator → Cell → Mac → Cell × Option AssetId
hydrate none c mac = (c, none)
hydrate (some h) c mac = hydrate_row c (h (mac_string mac))

-- The switch of Apply.
unfoldable pub apply_found :
    Option VendorResolver → Cell → Observation → Option AssetId → Outcome (Cell × ApplyResult)
unfolding update_asset create_asset
apply_found v c obs none = create_asset v c obs
apply_found v c obs (some id) = update_asset v c id obs (lookup id c.shard.assets)

-- What Apply does under the lock, given the id that it resolved before it took the lock.
unfoldable pub apply_locked :
    Option VendorResolver
    → Option Hydrator
    → Cell
    → Observation
    → Option AssetId
    → Outcome (Cell × ApplyResult)
unfolding apply_found hydrate
apply_locked v h c obs (some id) = apply_found v c obs (some id)
apply_locked v h c obs none = let (c', found) = hydrate h c obs.mac in apply_found v c' obs found
