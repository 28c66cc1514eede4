-- ===== src/Asset/Merge/Addresses.antt =====
-- mergeIPMap: the merged map, address by address.
use Prim.Native.Nat.{max}
use asset_discovery.Asset.Merge.{
  IpMerging, has, merge_entry, merge_ip, merge_ip_map, merge_ips, merge_known_ip,
}
use asset_discovery.Asset.Merge.Lists.{Distinct}
use asset_discovery.Asset.Types.{IpEntry}
use asset_discovery.Prelude.{
  Bool-cases, List, Option, [], arith, false, if◌then◌else◌, inl, inr, none, refl, some, true, ◌&&◌,
  ◌∙◌, ◌∷◌, ◌≡◌,
}
use asset_discovery.Prelude.Map.{Map, insert, lookup, lookup-insert}
use asset_discovery.Prelude.Text.{Text, is_empty, text_eq, text_eq_iff, text_eq→eq}
use asset_discovery.Prelude.Time.{Time, ltb_ℤ, pos}

abbrev pub keys {ℓ} : {V : Type ℓ} → Map V → List Text
keys [] = []
keys ((k, v) ∷ m) = k ∷ keys m

lookup-absent {ℓ} : {V : Type ℓ} (k : Text) (m : Map V) → has k (keys m) ≡ false → lookup k m ≡ none
unfolding lookup has
lookup-absent k [] h = refl
lookup-absent k ((j, v) ∷ m) h = ground (arith, lookup-absent k m)

-- An address that both maps have.
abbrev pub joined : IpEntry → IpEntry → IpEntry
joined x e = record {
  first_seen = x.first_seen;
  last_seen = max x.last_seen e.last_seen;
  lease = if ltb_ℤ (pos 0) e.lease && ltb_ℤ x.lease e.lease then e.lease else x.lease;
  is_active = true;
}

-- What the merged map holds at an address, given what the two maps hold there.
abbrev pub merged_entry : Time → Option IpEntry → Option IpEntry → Option IpEntry
merged_entry now x none = x
merged_entry now none (some e) = some (record e { first_seen = now; is_active = true })
merged_entry now (some x) (some e) = some (joined x e)

merge_entry-joined : (x e : IpEntry) → (merge_entry x e).0 ≡ joined x e
unfolding merge_entry
merge_entry-joined x e = ground arith

lookup-merge_known_ip :
    (ip k : Text) (e : IpEntry) (now : Time) (s : IpMerging) (o : Option IpEntry)
    → lookup ip s.dst ≡ o
    → lookup k (merge_known_ip ip e now s o).dst
      ≡ (if text_eq ip k then merged_entry now (lookup ip s.dst) (some e) else lookup k s.dst)
unfolding merge_known_ip
lookup-merge_known_ip ip k e now s none h =
    rw h (lookup-insert ip k (record e { first_seen = now; is_active = true }) s.dst)
lookup-merge_known_ip ip k e now s (some x) h =
    rw (h, ← merge_entry-joined x e) (lookup-insert ip k (merge_entry x e).0 s.dst)

lookup-merge_ip :
    (k ip : Text) (e : IpEntry) (now : Time) (s : IpMerging)
    → lookup k (merge_ip now s (ip, e)).dst ≡ (
        if is_empty ip
        then lookup k s.dst
        else if text_eq ip k
        then merged_entry now (lookup k s.dst) (some e)
        else lookup k s.dst)
unfolding merge_ip
lookup-merge_ip k ip e now s =
    ground (arith, lookup-merge_known_ip ip k e now s (lookup ip s.dst) refl, text_eq_iff ip k)

lookup-merge_ips :
    (k : Text) (now : Time) (s : IpMerging) (src : Map IpEntry)
    → is_empty k ≡ false
    → Distinct (keys src)
    → lookup k (merge_ips now s src).dst ≡ merged_entry now (lookup k s.dst) (lookup k src)
unfolding merge_ips lookup
lookup-merge_ips k now s [] h d = refl
lookup-merge_ips k now s ((ip, e) ∷ src) h d = elim (Bool-cases (text_eq ip k)) [
  | inl same ↦
      let here = text_eq→eq ip k same in
      lookup-merge_ips k now (merge_ip now s (ip, e)) src h d.1
      ∙ rw (lookup-merge_ip k ip e now s) (ground (arith, lookup-absent ip src d.0))
  | inr differs ↦
      lookup-merge_ips k now (merge_ip now s (ip, e)) src h d.1
      ∙ rw (lookup-merge_ip k ip e now s) (ground arith)
]

-- After mergeIPMap a known address has kept its first sighting, has the later last sighting and the
-- longer positive lease, and is active; a new one is active and first seen now; every other address
-- is as it was. So the order in which Go walks the incoming map does not matter.
pub lookup-merge_ip_map :
    (dst src : Map IpEntry) (now : Time) (k : Text)
    → Distinct (keys src)
    → is_empty k ≡ false
    → lookup k (merge_ip_map dst src now).dst ≡ merged_entry now (lookup k dst) (lookup k src)
unfolding merge_ip_map
lookup-merge_ip_map dst src now k d h = lookup-merge_ips k now _ src h d

unchanged_entry : (x e : IpEntry) → (merge_entry x e).1 ≡ false → (merge_entry x e).0 ≡ x
unfolding merge_entry
unchanged_entry x e h = ground arith

insert_known {ℓ} :
    {V : Type ℓ} (k : Text) (v : V) (m : Map V) → lookup k m ≡ some v → insert k v m ≡ m
unfolding lookup insert
insert_known k v [] h = cc
insert_known k v ((j, w) ∷ m) h = ground (arith, insert_known k v m)

known_ip_quiet :
    (ip : Text) (e : IpEntry) (now : Time) (s : IpMerging) (o : Option IpEntry)
    → lookup ip s.dst ≡ o
    → (merge_known_ip ip e now s o).changed ≡ false
    → (s.changed ≡ false) × ((merge_known_ip ip e now s o).dst ≡ s.dst)
unfolding merge_known_ip
known_ip_quiet ip e now s none h q = cc
known_ip_quiet ip e now s (some x) h q =
    ground (arith, unchanged_entry x e, insert_known ip (merge_entry x e).0 s.dst)

merge_ip_quiet :
    (now : Time) (s : IpMerging) (ip : Text) (e : IpEntry)
    → (merge_ip now s (ip, e)).changed ≡ false
    → (s.changed ≡ false) × ((merge_ip now s (ip, e)).dst ≡ s.dst)
unfolding merge_ip
merge_ip_quiet now s ip e h = ground (arith, known_ip_quiet ip e now s (lookup ip s.dst) refl)

merge_ips_quiet :
    (now : Time) (s : IpMerging) (src : Map IpEntry)
    → (merge_ips now s src).changed ≡ false
    → (s.changed ≡ false) × ((merge_ips now s src).dst ≡ s.dst)
unfolding merge_ips
merge_ips_quiet now s [] h = (h, refl)
merge_ips_quiet now s ((ip, e) ∷ src) h =
    let rest = merge_ips_quiet now (merge_ip now s (ip, e)) src h in
    let first = merge_ip_quiet now s ip e rest.0 in (first.0, rest.1 ∙ first.1)

-- When mergeIPMap reports no change, the map is the one that it was given.
pub merge_ip_map_quiet :
    (dst src : Map IpEntry) (now : Time)
    → (merge_ip_map dst src now).changed ≡ false
    → (merge_ip_map dst src now).dst ≡ dst
unfolding merge_ip_map
merge_ip_map_quiet dst src now h = (merge_ips_quiet now _ src h).1
