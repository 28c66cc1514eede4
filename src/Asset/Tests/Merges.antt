-- ===== src/Asset/Tests/Merges.antt =====
-- The merge rules at concrete values.
use asset_discovery.Prelude.Text.{text_eq}
use asset_discovery.Asset.Extra.{merge_extras}
use asset_discovery.Asset.Tests.{mdns_client, ssh}
use asset_discovery.Asset.Identity.{generate_asset_id}
use asset_discovery.Asset.Identity.Keys.{generate_asset_id_faithful}
use asset_discovery.Asset.Merge.{
  has, merge_ip_map, merge_services, merge_strings, service_key, skip_service,
}
use asset_discovery.Asset.Merge.Addresses.{lookup-merge_ip_map, merged_entry}
use asset_discovery.Asset.Merge.Keys.{merge_services_union}
use asset_discovery.Asset.Merge.Lists.{Distinct, kept_keys}
use asset_discovery.Asset.Observe.{merge_observation, uint64_mod}
use asset_discovery.Asset.Observe.Dirty.{new_address_unreported}
use asset_discovery.Asset.Observe.Fields.{IsOrdered, first_nonempty, merge_observation_fields}
use asset_discovery.Asset.Tests.{entry, laptop, laptop_mac, laptop_seen}
use asset_discovery.Prelude.{
  [], arith, false, map, not, refl, some, true, ◌%◌, ◌++◌, ◌+◌, ◌||◌, ◌↔◌, ◌∷◌, ◌≡◌,
}
use asset_discovery.Prelude.Map.{lookup}
use asset_discovery.Prelude.Text.{Text, is_empty, text}

merge_services_union_example :
    let m = merge_services (ssh ∷ []) (mdns_client ∷ ssh ∷ []) in
    (m.out ≡ (ssh ∷ []) ++ m.added)
    × (m.changed ≡ not (is_empty m.added))
    × Distinct (map service_key m.out)
    × ((k : Text)
        → has k (map service_key m.out) ≡ (
            has k (map service_key (ssh ∷ []))
            || has k (kept_keys skip_service service_key (mdns_client ∷ ssh ∷ []))))
unfolding has
merge_services_union_example = merge_services_union (ssh ∷ []) (mdns_client ∷ ssh ∷ []) (refl, tt)

lookup-merge_ip_map_example :
    lookup
      (text "10.0.0.7")
      (merge_ip_map ((text "10.0.0.7", entry 3) ∷ []) ((text "10.0.0.7", entry 10) ∷ []) 10).dst
    ≡ merged_entry 10
        (lookup (text "10.0.0.7") ((text "10.0.0.7", entry 3) ∷ []))
        (lookup (text "10.0.0.7") ((text "10.0.0.7", entry 10) ∷ []))
unfolding has is_empty
lookup-merge_ip_map_example =
    lookup-merge_ip_map ((text "10.0.0.7", entry 3) ∷ []) ((text "10.0.0.7", entry 10) ∷ []) 10
      (text "10.0.0.7") (refl, tt) refl

new_address_unreported_example :
    ((merge_observation laptop laptop_seen).1 ≡ false)
    × (lookup (text "10.0.0.7") (merge_observation laptop laptop_seen).0.ipv4s
        ≡ some (record (entry 10) { first_seen = 10; is_active = true }))
unfolding has is_empty lookup text_eq
new_address_unreported_example =
    new_address_unreported laptop laptop_seen (text "10.0.0.7") (entry 10)
      (record {
        hostnames = refl;
        services = refl;
        mac_vendor = refl;
        device_type = refl;
        model = refl;
        os = refl;
        extra = refl;
        stamped = omega arith;
        not_before = omega arith;
        not_after = omega arith;
        seen = omega arith;
      })
      (refl, tt) refl refl refl

generate_asset_id_faithful_example :
    ((generate_asset_id laptop_mac ≡ generate_asset_id (laptop_mac ++ laptop_mac))
      ↔ (laptop_mac ≡ laptop_mac ++ laptop_mac))
    × (is_empty (generate_asset_id laptop_mac) ≡ is_empty laptop_mac)
generate_asset_id_faithful_example =
    generate_asset_id_faithful laptop_mac (laptop_mac ++ laptop_mac)

merge_observation_fields_example :
    let b = (merge_observation laptop laptop_seen).0 in
    ((b.id ≡ laptop.id) × (b.mac ≡ laptop.mac) × (b.status ≡ laptop.status))
    × (b.seen_count ≡ (laptop.seen_count + 1) % uint64_mod)
    × ((b.mac_vendor ≡ first_nonempty laptop.mac_vendor laptop_seen.mac_vendor)
        × (b.device_type ≡ first_nonempty laptop.device_type laptop_seen.device_type)
        × (b.model ≡ first_nonempty laptop.model laptop_seen.model)
        × (b.os ≡ first_nonempty laptop.os laptop_seen.os))
    × ((b.hostnames ≡ (merge_strings laptop.hostnames laptop_seen.hostnames).out)
        × (b.services ≡ (merge_services laptop.services laptop_seen.services).out)
        × (b.ipv4s ≡ (merge_ip_map laptop.ipv4s laptop_seen.ipv4s laptop_seen.observed_at).dst)
        × (b.ipv6s ≡ (merge_ip_map laptop.ipv6s laptop_seen.ipv6s laptop_seen.observed_at).dst)
        × (b.extra ≡ (merge_extras laptop.extra laptop_seen.extra).0))
    × IsOrdered b
merge_observation_fields_example =
    merge_observation_fields laptop laptop_seen (omega arith, λ e. omega (arith, e)) (omega arith)
