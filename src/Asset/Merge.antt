-- ===== src/Asset/Merge.antt =====
-- internal/asset/util.go and merge.go: how an observation is merged into an asset. The proofs are
-- in the modules below.
pub mod Lists
pub mod Keys
pub mod Addresses
use asset_discovery.Prelude.{
  Bool, true, false, not, ◌&&◌, ◌||◌, List, [], ◌∷◌, ◌++◌, map, Option, none, some, ◌==◌,
  if◌then◌else◌,
}
use asset_discovery.Prelude.Text.{Text, text, text_eq, is_empty, itoa}
use asset_discovery.Prelude.Map.{Map, lookup, insert}
use asset_discovery.Prelude.Time.{Time, pos, ltb_ℤ, is_zero, after, before}
use asset_discovery.Asset.Types.{Service, IpEntry, Asset}

-- _, ok := seen[k]
unfoldable pub has : Text → List Text → Bool
has k [] = false
has k (j ∷ js) = if text_eq j k then true else has k js

-- The variables of the loops of mergeStrings and mergeServices, which differ in the elements that
-- they skip and in the key that they compare by.
pub record Merging {ℓ} (A : Type ℓ) : Type ℓ where
  pub seen : List Text
  pub out : List A
  pub changed : Bool
  pub added : List A

module _ {ℓ} {A : Type ℓ} (skip : A → Bool) (key : A → Text) where
  unfoldable pub merge_one : Merging A → A → Merging A
  unfolding has
  merge_one s v = if skip v then s else if has (key v) s.seen then s else record {
    seen = key v ∷ s.seen;
    out = s.out ++ v ∷ [];
    changed = true;
    added = s.added ++ v ∷ [];
  }

  unfoldable pub merge_all : Merging A → List A → Merging A
  unfolding merge_one
  merge_all s [] = s
  merge_all s (v ∷ vs) = merge_all (merge_one s v) vs

  unfoldable pub merge_new : List A → List A → Merging A
  unfolding merge_all
  merge_new existing incoming =
      merge_all (record { seen = map key existing; out = existing; changed = false; added = [] })
        incoming

abbrev pub same_text : Text → Text
same_text v = v

unfoldable pub merge_strings : List Text → List Text → Merging Text
unfolding merge_new
merge_strings = merge_new is_empty same_text

-- The key of mergeServices.
unfoldable pub service_key : Service → Text
service_key s =
    if s.is_client
    then s.protocol ++ text ":" ++ itoa s.port ++ text ":client"
    else s.protocol ++ text ":" ++ itoa s.port ++ text ":server"

unfoldable pub skip_service : Service → Bool
skip_service s = is_empty s.protocol && s.port == 0

unfoldable pub merge_services : List Service → List Service → Merging Service
unfolding merge_new skip_service service_key
merge_services = merge_new skip_service service_key

-- The body of mergeIPMap for an address that is there: the new entry and whether it changed.
unfoldable pub merge_entry : IpEntry → IpEntry → IpEntry × Bool
merge_entry existing entry =
    let later = after entry.last_seen existing.last_seen in
    let longer = ltb_ℤ (pos 0) entry.lease && ltb_ℤ existing.lease entry.lease in
    (
      record existing {
        last_seen = if later then entry.last_seen else existing.last_seen;
        lease = if longer then entry.lease else existing.lease;
        is_active = true;
      },
      later || (longer || not existing.is_active),
    )

-- The map `*dst` and the results of mergeIPMap.
pub record IpMerging : Type 0 where
  pub dst : Map IpEntry
  pub changed : Bool
  pub added : List Text

pub merge_known_ip : Text → IpEntry → Time → IpMerging → Option IpEntry → IpMerging
unfolding merge_entry
merge_known_ip ip entry now s none = record {
  dst = insert ip (record entry { first_seen = now; is_active = true }) s.dst;
  changed = true;
  added = s.added ++ ip ∷ [];
}
merge_known_ip ip entry now s (some existing) =
    let (entry', changed) = merge_entry existing entry in
    record s { dst = insert ip entry' s.dst; changed = s.changed || changed }

pub merge_ip : Time → IpMerging → Text × IpEntry → IpMerging
unfolding merge_known_ip
merge_ip now s (ip, entry) =
    if is_empty ip then s else merge_known_ip ip entry now s (lookup ip s.dst)

pub merge_ips : Time → IpMerging → Map IpEntry → IpMerging
unfolding merge_ip
merge_ips now s [] = s
merge_ips now s (e ∷ src) = merge_ips now (merge_ip now s e) src

unfoldable pub merge_ip_map : Map IpEntry → Map IpEntry → Time → IpMerging
unfolding merge_ips
merge_ip_map dst src now = merge_ips now (record { dst = dst; changed = false; added = [] }) src

-- The new asset and whether it changed.
unfoldable pub touch_timestamps : Asset → Time → Asset × Bool
touch_timestamps a at =
    let first = is_zero a.first_seen || before at a.first_seen in
    let last = after at a.last_seen in
    if is_zero at then (a, false) else (
      record a {
        first_seen = if first then at else a.first_seen;
        last_seen = if last then at else a.last_seen;
      },
      first || last,
    )
