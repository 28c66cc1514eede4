-- ===== src/Asset/Observe/Dirty.antt =====
-- MergeResult.Changed, by which the manager decides what to save.
use asset_discovery.Asset.Types.{Any}
use asset_discovery.Prelude.{ap}
use asset_discovery.Prelude.Map.{Map}
use asset_discovery.Asset.Extra.{merge_extras}
use asset_discovery.Asset.Merge.Addresses.{keys, lookup-merge_ip_map}
use asset_discovery.Asset.Merge.Lists.{Distinct}
use asset_discovery.Asset.Types.{IpEntry}
use asset_discovery.Prelude.{none, refl, some, true, ◌≢◌, ◌≤◌}
use asset_discovery.Prelude.Map.{lookup}
use asset_discovery.Asset.Extra.Laws.{merge_extras_quiet}
use asset_discovery.Asset.Merge.{
  merge_ip_map, merge_services, merge_strings, same_text, service_key, skip_service,
  touch_timestamps,
}
use asset_discovery.Asset.Merge.Lists.{merge_new-MergeInv}
use asset_discovery.Asset.Observe.{fill, merge_observation, uint64_mod}
use asset_discovery.Asset.Types.{Asset, Observation, Service}
use asset_discovery.Prelude.{List, [], arith, false, not, sym, ◌%◌, ◌++◌, ◌+◌, ◌∙◌, ◌∷◌, ◌≡◌}
use asset_discovery.Prelude.Text.{Text, is_empty}
use mathlib.Core.List.{append-nil}

fill_quiet : (cur new : Text) → (fill cur new).1 ≡ false → (fill cur new).0 ≡ cur
unfolding fill
fill_quiet cur new h = ground arith

append_quiet {ℓ} :
    {A : Type ℓ} (xs added out : List A)
    → out ≡ xs ++ added
    → not (is_empty added) ≡ false
    → out ≡ xs
unfolding is_empty
append_quiet xs [] out e h = e ∙ append-nil xs
append_quiet xs (x ∷ added) out e h = cc

strings_quiet :
    (xs ys : List Text) → (merge_strings xs ys).changed ≡ false → (merge_strings xs ys).out ≡ xs
unfolding merge_strings
strings_quiet xs ys h =
    let i = merge_new-MergeInv is_empty same_text xs ys in
    append_quiet xs _ _ i.split (sym i.flag ∙ h)

services_quiet :
    (xs ys : List Service)
    → (merge_services xs ys).changed ≡ false
    → (merge_services xs ys).out ≡ xs
unfolding merge_services
services_quiet xs ys h =
    let i = merge_new-MergeInv skip_service service_key xs ys in
    append_quiet xs _ _ i.split (sym i.flag ∙ h)

-- When a merge reports no change, it has changed nothing but the count and the address maps.
pub merge_observation_quiet :
    (a : Asset) (obs : Observation)
    → (merge_observation a obs).1 ≡ false
    → (merge_observation a obs).0 ≡ record a {
      seen_count = (a.seen_count + 1) % uint64_mod;
      ipv4s = (merge_ip_map a.ipv4s obs.ipv4s obs.observed_at).dst;
      ipv6s = (merge_ip_map a.ipv6s obs.ipv6s obs.observed_at).dst;
    }
unfolding merge_observation touch_timestamps
merge_observation_quiet a obs h = ground (
  arith,
  strings_quiet a.hostnames obs.hostnames,
  services_quiet a.services obs.services,
  fill_quiet a.mac_vendor obs.mac_vendor,
  fill_quiet a.device_type obs.device_type,
  fill_quiet a.model obs.model,
  fill_quiet a.os obs.os,
  merge_extras_quiet a.extra obs.extra,
)

-- An observation whose only news is its addresses.
pub record OnlyAddresses (a : Asset) (obs : Observation) : Type 0 where
  pub hostnames : obs.hostnames ≡ []
  pub services : obs.services ≡ []
  pub mac_vendor : obs.mac_vendor ≡ []
  pub device_type : obs.device_type ≡ []
  pub model : obs.model ≡ []
  pub os : obs.os ≡ []
  pub extra : obs.extra ≡ []
  pub stamped : a.first_seen ≢ 0
  pub not_before : a.first_seen ≤ obs.observed_at
  pub not_after : obs.observed_at ≤ a.last_seen
  pub seen : (a.seen_count + 1) % uint64_mod ≢ 1

strings_nothing :
    (xs : List Text) → ((merge_strings xs []).changed ≡ false) × ((merge_strings xs []).out ≡ xs)
unfolding merge_strings
strings_nothing xs = (refl, refl)

services_nothing :
    (xs : List Service)
    → ((merge_services xs []).changed ≡ false) × ((merge_services xs []).out ≡ xs)
unfolding merge_services
services_nothing xs = (refl, refl)

fill_nothing : (cur : Text) → (fill cur []).1 ≡ false
unfolding fill is_empty
fill_nothing [] = refl
fill_nothing (c ∷ cur) = refl

extras_nothing : (dst : Map Any) → (merge_extras dst []).1 ≡ false
unfolding merge_extras
extras_nothing dst = refl

ipv4s-merge_observation :
    (a : Asset) (obs : Observation)
    → (merge_observation a obs).0.ipv4s ≡ (merge_ip_map a.ipv4s obs.ipv4s obs.observed_at).dst
unfolding merge_observation touch_timestamps
ipv4s-merge_observation a obs = ground arith

OnlyAddresses-quiet :
    (a : Asset) (obs : Observation) → OnlyAddresses a obs → (merge_observation a obs).1 ≡ false
unfolding merge_observation touch_timestamps
OnlyAddresses-quiet a obs o = ground (
  arith,
  strings_nothing a.hostnames,
  services_nothing a.services,
  fill_nothing a.mac_vendor,
  fill_nothing a.device_type,
  fill_nothing a.model,
  fill_nothing a.os,
  extras_nothing a.extra,
)

-- An observation that is not newer than the last sighting, and that brings a new IPv4 address and
-- nothing else, stores the address and reports no change.
pub new_address_unreported :
    (a : Asset) (obs : Observation) (ip : Text) (e : IpEntry)
    → OnlyAddresses a obs
    → Distinct (keys obs.ipv4s)
    → is_empty ip ≡ false
    → lookup ip a.ipv4s ≡ none
    → lookup ip obs.ipv4s ≡ some e
    → ((merge_observation a obs).1 ≡ false)
      × (lookup ip (merge_observation a obs).0.ipv4s
          ≡ some (record e { first_seen = obs.observed_at; is_active = true }))
new_address_unreported a obs ip e o d h old new = (
  OnlyAddresses-quiet a obs o,
  ap (lookup ip) (ipv4s-merge_observation a obs)
      ∙ lookup-merge_ip_map a.ipv4s obs.ipv4s obs.observed_at ip d h
      ∙ rw (old, new),
)
