-- ===== src/Storage/Laws/Addresses.antt =====
-- The rows of asset_ips that SaveBatch writes of a new asset, read back by LoadAssetByMAC.
use asset_discovery.Asset.Types.{AssetSnapshot, IpEntry}
use asset_discovery.Prelude.{
  Bool, Bool-cases, Option, [], ap, false, if◌then◌else◌, inl, inr, none, not, refl, some, true, ℕ,
  ◌==◌, ◌∙◌, ◌∷◌, ◌≡◌,
}
use asset_discovery.Prelude.Map.{Map, lookup}
use asset_discovery.Prelude.Map.Laws.{Entries, IsMap}
use asset_discovery.Prelude.Text.{Text, text_eq}
use asset_discovery.Storage.{Codec, IpRow, conflict_ip}
use asset_discovery.Storage.Laws.Children.{
  Apart, IsMap-add_rows, add_rows, ip_rows, lookup-add_rows, or_else,
}
use asset_discovery.Storage.Laws.Clean.{Clean, CleanEntry, CodecLaw, read_ip-ip_row}
use asset_discovery.Storage.Laws.Reading.{
  IsMap-ip_rows, add_rows-nil, chosen, lookup-ip_rows, lookup-load_ips, map_row,
}
use asset_discovery.Storage.Load.{load_ips}
use asset_discovery.Storage.Save.{ip_row}

-- The rows of the addresses.
unfoldable pub saved_ips : Codec → AssetSnapshot → Map IpRow
saved_ips cx s =
    add_rows conflict_ip (ip_rows cx 6 s.ipv6s) (add_rows conflict_ip (ip_rows cx 4 s.ipv4s) [])

IsMap-saved_ips : (cx : Codec) (s : AssetSnapshot) → IsMap (saved_ips cx s)
unfolding saved_ips
IsMap-saved_ips cx s =
    IsMap-add_rows conflict_ip (ip_rows cx 6 s.ipv6s) _
      (IsMap-add_rows conflict_ip (ip_rows cx 4 s.ipv4s) [] tt)

lookup-saved_ips :
    (cx : Codec) (s : AssetSnapshot) (ip : Text)
    → Clean cx s
    → lookup ip (saved_ips cx s)
      ≡ or_else
          (map_row (ip_row cx 6) (lookup ip s.ipv6s))
          (map_row (ip_row cx 4) (lookup ip s.ipv4s))
unfolding saved_ips conflict_ip
lookup-saved_ips cx s ip c =
    let new : (r : IpRow) → conflict_ip none r ≡ r = λ r. refl in
    let gone : (v : ℕ) (m : Map IpEntry) (k : Text)
        → lookup k m ≡ none
        → lookup k (ip_rows cx v m) ≡ none =
      λ v m k e. lookup-ip_rows cx v m k ∙ ap (map_row (ip_row cx v)) e in
    let apart : Apart (ip_rows cx 6 s.ipv6s) (ip_rows cx 4 s.ipv4s) = λ k. elim (c.ips_apart k) [
      | inl e ↦ inr (gone 4 s.ipv4s k e)
      | inr e ↦ inl (gone 6 s.ipv6s k e)
    ] in
    rw (add_rows-nil conflict_ip new _ (IsMap-ip_rows cx 4 s.ipv4s c.ipv4s_map)) (
      lookup-add_rows conflict_ip new _ _ (IsMap-ip_rows cx 6 s.ipv6s c.ipv6s_map) apart ip
      ∙ rw (lookup-ip_rows cx 6 s.ipv6s ip, lookup-ip_rows cx 4 s.ipv4s ip) refl)

read_entry :
    (cx : Codec) (v : ℕ) (m : Map IpEntry) (ip : Text)
    → CodecLaw cx
    → Entries (λ ip e. CleanEntry e) m
    → (v6 : Bool) → (if v == 6 then v6 else not v6) ≡ true
    → chosen cx v6 (map_row (ip_row cx v) (lookup ip m)) ≡ lookup ip m
unfolding chosen lookup ip_row
read_entry cx v [] ip law c v6 e = refl
read_entry cx v ((j, x) ∷ m) ip law c v6 e = elim (Bool-cases (text_eq j ip)) [
  | inl f ↦ rw f (rw e (ap some (read_ip-ip_row cx v x law c.0)))
  | inr f ↦ rw f (read_entry cx v m ip law c.1 v6 e)
]

chosen-other :
    (cx : Codec) (v : ℕ) (v6 : Bool) (o : Option IpEntry)
    → (if v == 6 then v6 else not v6) ≡ false
    → chosen cx v6 (map_row (ip_row cx v) o) ≡ none
unfolding chosen ip_row
chosen-other cx v v6 none e = refl
chosen-other cx v v6 (some x) e = rw e refl

or_else-none {ℓ} : {A : Type ℓ} (o : Option A) → or_else o none ≡ o
or_else-none none = refl
or_else-none (some a) = refl

-- The addresses that are read are those that were saved.
pub read_ips :
    (cx : Codec) (s : AssetSnapshot) (ip : Text)
    → CodecLaw cx
    → Clean cx s
    → (lookup ip (load_ips cx false (saved_ips cx s)) ≡ lookup ip s.ipv4s)
      × (lookup ip (load_ips cx true (saved_ips cx s)) ≡ lookup ip s.ipv6s)
read_ips cx s ip law c =
    let load = λ (v6 : Bool).
      lookup-load_ips cx v6 (saved_ips cx s) ip (IsMap-saved_ips cx s)
      ∙ ap (chosen cx v6) (lookup-saved_ips cx s ip c) in
    let v4 = read_entry cx 4 s.ipv4s ip law c.ipv4s_clean false refl in
    let v6 = read_entry cx 6 s.ipv6s ip law c.ipv6s_clean true refl in
    elim (c.ips_apart ip) [
      | inl e ↦ (
        load false
            ∙ rw e (
                rw (or_else-none (map_row (ip_row cx 6) (lookup ip s.ipv6s)))
                  (chosen-other cx 6 false (lookup ip s.ipv6s) refl)),
        load true ∙ rw e (rw (or_else-none (map_row (ip_row cx 6) (lookup ip s.ipv6s))) v6),
      )
      | inr e ↦
          (load false ∙ rw e v4, load true ∙ rw e (chosen-other cx 4 true (lookup ip s.ipv4s) refl))
    ]
