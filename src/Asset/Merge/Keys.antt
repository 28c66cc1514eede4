-- ===== src/Asset/Merge/Keys.antt =====
-- The keys of mergeServices, and what the two merges of lists promise.
use asset_discovery.Asset.Merge.{
  has, merge_new, merge_services, merge_strings, same_text, service_key, skip_service,
}
use asset_discovery.Asset.Merge.Lists.{
  Distinct, Distinct-merge_new, kept_keys, merge_new-MergeInv, merge_new_union,
}
use asset_discovery.Asset.Types.{Service}
use asset_discovery.Prelude.{
  Bool, Bool-cases, List, [], ap, arith, false, inl, inr, map, not, refl, sym, true, ℕ, ◌&&◌, ◌++◌,
  ◌||◌, ◌∙◌, ◌∷◌, ◌≡◌,
}
use asset_discovery.Prelude.Text.{Text, is_empty, itoa, text, text_eq_iff}
use asset_discovery.Prelude.Text.Decimal.{absent, colon_absent-itoa, cut_last, itoa_inj}
use mathlib.Core.List.{append_assoc}

role : Bool → Text
role true = text "client"
role false = text "server"

absent-role : (b : Bool) → absent 58 (role b) ≡ true
unfolding role absent
absent-role true = refl
absent-role false = refl

role_inj : (a b : Bool) → role a ≡ role b → a ≡ b
unfolding role
role_inj true true e = refl
role_inj true false e = ground arith
role_inj false true e = ground arith
role_inj false false e = refl

abbrev joined : Text → ℕ → Bool → Text
joined protocol port client = (protocol ++ 58 ∷ itoa port) ++ 58 ∷ role client

service_key-joined : (s : Service) → service_key s ≡ joined s.protocol s.port s.is_client
unfolding service_key role
service_key-joined s = elim (Bool-cases s.is_client) [
  | inl e ↦
      rw e (
        ap (λ (t : Text). t ++ 58 ∷ text "client")
          (append_assoc s.protocol (58 ∷ []) (itoa s.port)))
  | inr e ↦
      rw e (
        ap (λ (t : Text). t ++ 58 ∷ text "server")
          (append_assoc s.protocol (58 ∷ []) (itoa s.port)))
]

-- Two services that have one key agree in protocol, port and role.
pub service_key_inj :
    (s t : Service)
    → service_key s ≡ service_key t
    → (s.protocol ≡ t.protocol) × (s.port ≡ t.port) × (s.is_client ≡ t.is_client)
service_key_inj s t e =
    let outer =
      cut_last 58 (s.protocol ++ 58 ∷ itoa s.port) (t.protocol ++ 58 ∷ itoa t.port)
        (role s.is_client) (role t.is_client) (absent-role s.is_client) (absent-role t.is_client)
        (sym (service_key-joined s) ∙ e ∙ service_key-joined t) in
    let inner =
      cut_last 58 s.protocol t.protocol (itoa s.port) (itoa t.port) (colon_absent-itoa s.port)
        (colon_absent-itoa t.port) outer.0 in
    (inner.0, itoa_inj s.port t.port inner.1, role_inj s.is_client t.is_client outer.1)

pub map-same_text : (xs : List Text) → map same_text xs ≡ xs
map-same_text [] = refl
map-same_text (x ∷ xs) = ap (◌∷◌ x) (map-same_text xs)

pub has-kept_texts :
    (xs : List Text) (k : Text)
    → has k (kept_keys is_empty same_text xs) ≡ (not (is_empty k) && has k xs)
unfolding kept_keys has is_empty
has-kept_texts [] k = ground arith
has-kept_texts (x ∷ xs) k = ground (arith, has-kept_texts xs k, text_eq_iff x k)

-- mergeStrings appends: the old strings stay in front in their order, the flag says whether any
-- were added, no string stands twice if none did, and what is in the result is the union of the
-- old strings with the incoming ones that are not empty.
pub merge_strings_union :
    (existing incoming : List Text)
    → Distinct existing
    → let m = merge_strings existing incoming in
      (m.out ≡ existing ++ m.added)
      × (m.changed ≡ not (is_empty m.added))
      × Distinct m.out
      × ((k : Text) → has k m.out ≡ (has k existing || (not (is_empty k) && has k incoming)))
unfolding merge_strings
merge_strings_union existing incoming d =
    let i = merge_new-MergeInv is_empty same_text existing incoming in
    let m = merge_new is_empty same_text existing incoming in
    (
      i.split,
      i.flag,
      rw (← map-same_text m.out)
          (Distinct-merge_new is_empty same_text existing incoming (rw map-same_text d)),
      λ k.
          ap (has k) (sym (map-same_text m.out))
          ∙ merge_new_union is_empty same_text existing incoming k
          ∙ ground (arith, ap (has k) (map-same_text existing), has-kept_texts incoming k),
    )

-- mergeServices appends in the same way, by the key of a service: no two services of the result
-- have one key if no two had, and the keys are the union of the old ones with those of the incoming
-- services that have a protocol or a port.
pub merge_services_union :
    (existing incoming : List Service)
    → Distinct (map service_key existing)
    → let m = merge_services existing incoming in
      (m.out ≡ existing ++ m.added)
      × (m.changed ≡ not (is_empty m.added))
      × Distinct (map service_key m.out)
      × ((k : Text)
          → has k (map service_key m.out) ≡ (
              has k (map service_key existing)
              || has k (kept_keys skip_service service_key incoming)))
unfolding merge_services
merge_services_union existing incoming d =
    let i = merge_new-MergeInv skip_service service_key existing incoming in
    (
      i.split,
      i.flag,
      Distinct-merge_new skip_service service_key existing incoming d,
      merge_new_union skip_service service_key existing incoming,
    )
