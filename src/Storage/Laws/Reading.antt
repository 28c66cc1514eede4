-- ===== src/Storage/Laws/Reading.antt =====
-- What the loaders return for the rows that the statements of one snapshot write.
use asset_discovery.Asset.Merge.{has}
use asset_discovery.Asset.Types.{IpEntry, Service}
use asset_discovery.Prelude.{
  All, Bool, Bool-cases, List, Option, [], ap, arith, if◌then◌else◌, inl, inr, none, not, refl,
  some, sym, true, ℕ, ◌&&◌, ◌++◌, ◌==◌, ◌∙◌, ◌∷◌, ◌≡◌,
}
use asset_discovery.Prelude.Map.{Map, insert, lookup, lookup-insert}
use asset_discovery.Prelude.Map.Laws.{IsMap}
use asset_discovery.Prelude.Text.{Text, is_empty, text_eq, text_eq→eq}
use asset_discovery.Prelude.Time.{Time}
use asset_discovery.Storage.{Codec, HostnameRow, IpRow, port_key_text}
use asset_discovery.Storage.Laws.Clean.{CleanService, CodecLaw, keyed, read_service-service_row}
use mathlib.Core.List.{append-nil, append_assoc}
use asset_discovery.Storage.Laws.Children.{
  Apart-head, Apart-tail, Apart, add_rows, hostname_rows, ip_rows, is_some, service_rows,
}
use asset_discovery.Storage.Load.{load_hostnames, load_ips, load_services, read_ip}
use asset_discovery.Storage.Save.{ip_row, service_row}

abbrev pub map_row {ℓ κ} : {A : Type ℓ} {B : Type κ} → (A → B) → Option A → Option B
map_row f none = none
map_row f (some a) = some (f a)

pub lookup-ip_rows :
    (cx : Codec) (v : ℕ) (m : Map IpEntry) (ip : Text)
    → lookup ip (ip_rows cx v m) ≡ map_row (ip_row cx v) (lookup ip m)
unfolding lookup ip_rows
lookup-ip_rows cx v [] ip = refl
lookup-ip_rows cx v ((j, e) ∷ m) ip = elim (Bool-cases (text_eq j ip)) [
  | inl f ↦ rw f refl
  | inr f ↦ rw f (lookup-ip_rows cx v m ip)
]

pub IsMap-ip_rows : (cx : Codec) (v : ℕ) (m : Map IpEntry) → IsMap m → IsMap (ip_rows cx v m)
unfolding ip_rows
IsMap-ip_rows cx v [] h = tt
IsMap-ip_rows cx v ((j, e) ∷ m) h =
    (lookup-ip_rows cx v m j ∙ ap (map_row (ip_row cx v)) h.0, IsMap-ip_rows cx v m h.1)

-- The row goes to the map of load_ips.
abbrev pub for_map : Bool → IpRow → Bool
for_map v6 row = if row.version == 6 then v6 else not v6

unfoldable pub chosen : Codec → Bool → Option IpRow → Option IpEntry
chosen cx v6 none = none
chosen cx v6 (some row) = if for_map v6 row then some (read_ip cx row) else none

pub lookup-load_ips :
    (cx : Codec) (v6 : Bool) (rows : Map IpRow) (ip : Text)
    → IsMap rows
    → lookup ip (load_ips cx v6 rows) ≡ chosen cx v6 (lookup ip rows)
unfolding lookup load_ips chosen
lookup-load_ips cx v6 [] ip h = refl
lookup-load_ips cx v6 ((j, row) ∷ rows) ip h =
    let rest = lookup-load_ips cx v6 rows ip h.1 in
    let gone : text_eq j ip ≡ true → lookup ip rows ≡ none =
      λ e. rw (sym (text_eq→eq j ip e)) h.0 in
    elim (Bool-cases (if row.version == 6 then v6 else not v6)) [
      | inl e ↦ rw e (
          rw (lookup-insert j ip (read_ip cx row) (load_ips cx v6 rows))
            (elim (Bool-cases (text_eq j ip)) [ inl f ↦ rw f (rw e refl) | inr f ↦ rw f rest ]))
      | inr e ↦ rw e (elim (Bool-cases (text_eq j ip)) [
        | inl f ↦ rest ∙ rw (gone f) (rw f (rw e refl))
        | inr f ↦ rest ∙ rw f refl
      ])
    ]

pub has-load_hostnames :
    (rows : Map HostnameRow) (h : Text) → has h (load_hostnames rows) ≡ is_some (lookup h rows)
unfolding lookup load_hostnames has
has-load_hostnames [] h = refl
has-load_hostnames ((j, row) ∷ rows) h = elim (Bool-cases (text_eq j h)) [
  | inl e ↦ rw e refl
  | inr e ↦ rw e (has-load_hostnames rows h)
]

pub is_some-hostname_rows :
    (row : HostnameRow) (hs : List Text) (h : Text)
    → is_some (lookup h (hostname_rows row hs)) ≡ (not (is_empty h) && has h hs)
unfolding lookup hostname_rows has
is_some-hostname_rows row [] h = ground arith
is_some-hostname_rows row (x ∷ hs) h =
    let rest = is_some-hostname_rows row hs h in
    elim (Bool-cases (is_empty x)) [
      | inl e ↦ rw e (
          rest ∙ elim (Bool-cases (text_eq x h)) [
            | inl f ↦ rw f (rw (sym (text_eq→eq x h f)) (rw e refl))
            | inr f ↦ rw f refl
          ])
      | inr e ↦ rw e (elim (Bool-cases (text_eq x h)) [
        | inl f ↦ rw f (rw (sym (text_eq→eq x h f)) (rw e refl))
        | inr f ↦ rw f rest
      ])
    ]

insert-absent {ℓ} :
    {V : Type ℓ} (k : Text) (v : V) (m : Map V)
    → lookup k m ≡ none
    → insert k v m ≡ m ++ (k, v) ∷ []
unfolding lookup insert
insert-absent k v [] h = refl
insert-absent k v ((j, w) ∷ m) h = elim (Bool-cases (text_eq j k)) [
  | inl e ↦ absurd (let h' : some w ≡ none = rw e at h in cc)
  | inr e ↦ rw e (ap (λ m'. (j, w) ∷ m') (insert-absent k v m (rw e at h)))
]

module _ {ℓ} {R : Type ℓ} (conflict : Option R → R → R) (new : (r : R) → conflict none r ≡ r) where
  add_rows-append : (m rows : Map R) → IsMap m → Apart m rows → add_rows conflict m rows ≡ rows ++ m
  unfolding add_rows
  add_rows-append [] rows h apart = sym (append-nil rows)
  add_rows-append ((k, r) ∷ m) rows h apart =
      let fresh = Apart-head k r m rows apart in
      add_rows-append m (insert k (conflict (lookup k rows) r) rows) h.1
        (Apart-tail k r _ m rows h.0 apart)
      ∙ rw fresh (rw (new r) (rw (insert-absent k r rows fresh) (append_assoc rows _ m)))

  -- New rows of an asset that has none.
  pub add_rows-nil : (m : Map R) → IsMap m → add_rows conflict m [] ≡ m
  unfolding lookup
  add_rows-nil m h = add_rows-append m [] h (λ k. inr refl)

lookup-service_rows :
    (cx : Codec) (at : Time) (svcs : List Service) (k : Text)
    → All CleanService svcs
    → lookup k (service_rows cx at svcs) ≡ map_row (service_row cx at) (lookup k (keyed svcs))
unfolding lookup service_rows keyed
lookup-service_rows cx at [] k c = refl
lookup-service_rows cx at (svc ∷ svcs) k c =
    rw c.0.named (elim (Bool-cases (text_eq (port_key_text svc.protocol svc.port) k)) [
      | inl e ↦ rw e refl
      | inr e ↦ rw e (lookup-service_rows cx at svcs k c.1)
    ])

pub IsMap-service_rows :
    (cx : Codec) (at : Time) (svcs : List Service)
    → All CleanService svcs
    → IsMap (keyed svcs)
    → IsMap (service_rows cx at svcs)
unfolding service_rows keyed
IsMap-service_rows cx at [] c h = tt
IsMap-service_rows cx at (svc ∷ svcs) c h = rw c.0.named (
  lookup-service_rows cx at svcs _ c.1 ∙ ap (map_row (service_row cx at)) h.0,
  IsMap-service_rows cx at svcs c.1 h.1,
)

pub load_services-service_rows :
    (cx : Codec) (at : Time) (svcs : List Service)
    → CodecLaw cx
    → All CleanService svcs
    → load_services cx (service_rows cx at svcs) ≡ svcs
unfolding load_services service_rows
load_services-service_rows cx at [] law c = refl
load_services-service_rows cx at (svc ∷ svcs) law c = rw c.0.named (
    rw (read_service-service_row cx at svc law c.0, load_services-service_rows cx at svcs law c.1)
      refl)
