-- ===== src/Asset/Observe.antt =====
-- mergeObservation of internal/asset/merge.go.
pub mod Fields
pub mod Dirty
use asset_discovery.Asset.Extra.{merge_extras}
use asset_discovery.Asset.Merge.{merge_ip_map, merge_services, merge_strings, touch_timestamps}
use asset_discovery.Asset.Types.{Asset, Observation}
use asset_discovery.Prelude.{
  Bool, false, if◌then◌else◌, length, ltb, not, true, ℕ, ◌%◌, ◌&&◌, ◌+◌, ◌==◌, ◌^◌, ◌||◌,
}
use asset_discovery.Prelude.Text.{Text, is_empty}

abbrev pub uint64_mod : ℕ
uint64_mod = 2 ^ 64

-- if cur == "" && new != "" { cur = new; changed = true }
unfoldable pub fill : Text → Text → Text × Bool
fill cur new = if is_empty cur && not (is_empty new) then (new, true) else (cur, false)

-- The names and services that the observation adds.
unfoldable pub merge_lists : Asset → Observation → Asset × Bool
merge_lists a obs =
    let names = merge_strings a.hostnames obs.hostnames in
    let svcs = merge_services a.services obs.services in
    (
      record a { hostnames = names.out; services = svcs.out },
      names.changed || (svcs.changed || ltb (length a.services) (length svcs.out)),
    )

-- The scalar attributes: the first value that is not empty stays.
unfoldable pub merge_scalars : Asset → Observation → Asset × Bool
unfolding fill
merge_scalars a obs =
    let (vendor, c1) = fill a.mac_vendor obs.mac_vendor in
    let (device, c2) = fill a.device_type obs.device_type in
    let (model', c3) = fill a.model obs.model in
    let (os', c4) = fill a.os obs.os in
    (
      record a { mac_vendor = vendor; device_type = device; model = model'; os = os' },
      c1 || (c2 || (c3 || c4)),
    )

-- What mergeIPMap reports is not used.
unfoldable pub merge_addresses : Asset → Observation → Asset
merge_addresses a obs = record a {
  ipv4s = (merge_ip_map a.ipv4s obs.ipv4s obs.observed_at).dst;
  ipv6s = (merge_ip_map a.ipv6s obs.ipv6s obs.observed_at).dst;
}

-- a.SeenCount++ and the last test
unfoldable pub count_seen : Asset → Bool → Asset × Bool
count_seen a changed =
    let n = (a.seen_count + 1) % uint64_mod in
    (record a { seen_count = n }, if changed then true else n == 1)

-- The merged asset and MergeResult.Changed.
unfoldable pub merge_observation : Asset → Observation → Asset × Bool
unfolding merge_addresses merge_lists merge_scalars count_seen
merge_observation a obs =
    let a0 = merge_addresses a obs in
    let (a1, c1) = merge_lists a0 obs in
    let (a2, c2) = merge_scalars a1 obs in
    let (extra', c3) = merge_extras a2.extra obs.extra in
    let a3 = record a2 { extra = extra' } in
    let (a4, c4) = touch_timestamps a3 obs.observed_at in count_seen a4 (c1 || (c2 || (c3 || c4)))
