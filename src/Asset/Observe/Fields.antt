-- ===== src/Asset/Observe/Fields.antt =====
-- What merging an observation does to the fields of an asset.
use asset_discovery.Asset.Extra.{merge_extras}
use asset_discovery.Asset.Merge.{merge_ip_map, merge_services, merge_strings}
use asset_discovery.Asset.Observe.{fill, merge_observation, uint64_mod}
use asset_discovery.Asset.Types.{Observation}
use asset_discovery.Prelude.{[], arith, refl, ◌%◌, ◌+◌, ◌∷◌}
use asset_discovery.Prelude.Text.{Text, is_empty}
use Prim.Native.Nat.{max, min}
use asset_discovery.Asset.Merge.{touch_timestamps}
use asset_discovery.Asset.Types.{Asset}
use asset_discovery.Prelude.{false, if◌then◌else◌, ◌↔◌, ◌≡◌, ◌≢◌, ◌≤◌}
use asset_discovery.Prelude.Time.{Time, is_zero}

-- The sightings span an interval: either none was stamped, or the first is not after the last.
abbrev pub IsOrdered : Asset → Type 0
IsOrdered a = (a.first_seen ≤ a.last_seen) × (a.first_seen ≡ 0 → a.last_seen ≡ 0)

-- touchTimestamps widens the interval of the sightings to the least one that holds the new time as
-- well, and reports whether it did; the zero time is ignored.
pub touch_timestamps_span :
    (a : Asset) (at : Time)
    → IsOrdered a
    → at ≢ 0
    → let (b, changed) = touch_timestamps a at in
      (b.first_seen ≡ (if is_zero a.first_seen then at else min a.first_seen at))
      × (b.last_seen ≡ max a.last_seen at)
      × IsOrdered b
      × ((changed ≡ false) ↔ ((a.first_seen ≢ 0) × (a.first_seen ≤ at) × (at ≤ a.last_seen)))
unfolding touch_timestamps
touch_timestamps_span a at o h = (
  ground arith,
  ground arith,
  (ground arith, λ e. ground arith),
  (λ e. (λ z. ground arith, ground arith, ground arith), λ e. ground arith),
)

-- The value that a scalar attribute has after it is merged.
abbrev pub first_nonempty : Text → Text → Text
first_nonempty cur new = if is_empty cur then new else cur

fill_lem : (cur new : Text) → (fill cur new).0 ≡ first_nonempty cur new
unfolding fill is_empty
fill_lem [] [] = refl
fill_lem [] (c ∷ new) = refl
fill_lem (c ∷ cur) new = refl

-- Merging an observation keeps the identity and the status of the asset, counts the sighting modulo
-- 2^64, takes a scalar attribute only where the asset had none, merges names, services, addresses
-- and extras by their own rules, and keeps the sightings an interval.
pub merge_observation_fields :
    (a : Asset) (obs : Observation)
    → IsOrdered a
    → obs.observed_at ≢ 0
    → let b = (merge_observation a obs).0 in
      ((b.id ≡ a.id) × (b.mac ≡ a.mac) × (b.status ≡ a.status))
      × (b.seen_count ≡ (a.seen_count + 1) % uint64_mod)
      × ((b.mac_vendor ≡ first_nonempty a.mac_vendor obs.mac_vendor)
          × (b.device_type ≡ first_nonempty a.device_type obs.device_type)
          × (b.model ≡ first_nonempty a.model obs.model)
          × (b.os ≡ first_nonempty a.os obs.os))
      × ((b.hostnames ≡ (merge_strings a.hostnames obs.hostnames).out)
          × (b.services ≡ (merge_services a.services obs.services).out)
          × (b.ipv4s ≡ (merge_ip_map a.ipv4s obs.ipv4s obs.observed_at).dst)
          × (b.ipv6s ≡ (merge_ip_map a.ipv6s obs.ipv6s obs.observed_at).dst)
          × (b.extra ≡ (merge_extras a.extra obs.extra).0))
      × IsOrdered b
unfolding merge_observation touch_timestamps
merge_observation_fields a obs o h = (
  (ground arith, ground arith, ground arith),
  ground arith,
  (
    ground (arith, fill_lem a.mac_vendor obs.mac_vendor),
    ground (arith, fill_lem a.device_type obs.device_type),
    ground (arith, fill_lem a.model obs.model),
    ground (arith, fill_lem a.os obs.os),
  ),
  (ground arith, ground arith, ground arith, ground arith, ground arith),
  (ground arith, λ e. ground arith),
)
