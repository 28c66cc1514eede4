-- ===== src/Asset/Merge/Lists.antt =====
-- mergeStrings and mergeServices: the incoming elements whose key is new are appended, once each.
use asset_discovery.Prelude.{ap, if◌then◌else◌, sym, true, ◌∙◌}
use asset_discovery.Prelude.Text.{text_eq_refl}
use asset_discovery.Asset.Merge.{Merging, has, merge_all, merge_new, merge_one}
use asset_discovery.Prelude.{
  Bool, Bool-cases, List, [], arith, false, inl, inr, map, not, refl, ◌++◌, ◌||◌, ◌∷◌, ◌≡◌,
}
use asset_discovery.Prelude.Text.{Text, is_empty, text_eq_iff}
use mathlib.Core.List.{append-nil, append_assoc, map-append}

pub has-append : (k : Text) (xs ys : List Text) → has k (xs ++ ys) ≡ (has k xs || has k ys)
unfolding has
has-append k [] ys = refl
has-append k (x ∷ xs) ys = ground (arith, has-append k xs ys)

-- No key stands twice.
abbrev pub Distinct : List Text → Type 0
Distinct [] = Unit
Distinct (k ∷ ks) = (has k ks ≡ false) × Distinct ks

has_comm : (k j : Text) → has k (j ∷ []) ≡ has j (k ∷ [])
unfolding has
has_comm k j = ground (arith, text_eq_iff k j, text_eq_iff j k)

Distinct-snoc :
    (ks : List Text) (k : Text) → Distinct ks → has k ks ≡ false → Distinct (ks ++ k ∷ [])
unfolding has
Distinct-snoc [] k d h = (refl, tt)
Distinct-snoc (j ∷ ks) k d h =
    ground
      (arith, Distinct-snoc ks k d.1, has-append j ks (k ∷ []), text_eq_iff k j, text_eq_iff j k)

module _ {ℓ} {A : Type ℓ} (skip : A → Bool) (key : A → Text) where
  pub record MergeInv (existing : List A) (s : Merging A) : Type ℓ where
    pub split : s.out ≡ existing ++ s.added
    pub flag : s.changed ≡ not (is_empty s.added)
    pub keys : (k : Text) → has k s.seen ≡ has k (map key s.out)

  keys-snoc :
      (k : Text) (seen : List Text) (out : List A) (v : A)
      → has k seen ≡ has k (map key out)
      → has k (key v ∷ seen) ≡ has k (map key (out ++ v ∷ []))
  unfolding has
  keys-snoc k seen out v h = rw map-append (ground (arith, has-append k (map key out) (key v ∷ [])))

  is_empty-snoc : (xs : List A) (v : A) → is_empty (xs ++ v ∷ []) ≡ false
  unfolding is_empty
  is_empty-snoc [] v = refl
  is_empty-snoc (x ∷ xs) v = refl

  merge_one-MergeInv :
      (existing : List A) (s : Merging A) (v : A)
      → MergeInv existing s
      → MergeInv existing (merge_one skip key s v)
  unfolding merge_one
  merge_one-MergeInv existing s v i = elim (Bool-cases (skip v)) [
    | inl e ↦ rw e i
    | inr e ↦ rw e (elim (Bool-cases (has (key v) s.seen)) [
      | inl f ↦ rw f i
      | inr f ↦ rw f (record {
        split = rw i.split (append_assoc existing s.added (v ∷ []));
        flag = rw (is_empty-snoc s.added v);
        keys = λ k. keys-snoc k s.seen s.out v (i.keys k);
      })
    ])
  ]

  merge_all-MergeInv :
      (existing : List A) (s : Merging A) (vs : List A)
      → MergeInv existing s
      → MergeInv existing (merge_all skip key s vs)
  unfolding merge_all
  merge_all-MergeInv existing s [] i = i
  merge_all-MergeInv existing s (v ∷ vs) i =
      merge_all-MergeInv existing (merge_one skip key s v) vs (merge_one-MergeInv existing s v i)

  pub merge_new-MergeInv :
      (existing vs : List A) → MergeInv existing (merge_new skip key existing vs)
  unfolding merge_new is_empty
  merge_new-MergeInv existing vs =
      merge_all-MergeInv existing _ vs
        (record { split = rw append-nil; flag = refl; keys = λ k. refl })

  -- The keys of the elements that are not skipped.
  unfoldable pub kept_keys : List A → List Text
  kept_keys [] = []
  kept_keys (v ∷ vs) = let rest = kept_keys vs in if skip v then rest else key v ∷ rest

  has-merge_one :
      (s : Merging A) (v : A) (k : Text)
      → has k (merge_one skip key s v).seen ≡ (has k s.seen || has k (kept_keys (v ∷ [])))
  unfolding merge_one kept_keys has
  has-merge_one s v k = ground (arith, text_eq_iff (key v) k)

  has-kept_keys :
      (v : A) (vs : List A) (k : Text)
      → has k (kept_keys (v ∷ vs)) ≡ (has k (kept_keys (v ∷ [])) || has k (kept_keys vs))
  unfolding kept_keys has
  has-kept_keys v vs k = ground arith

  has-merge_all :
      (s : Merging A) (vs : List A) (k : Text)
      → has k (merge_all skip key s vs).seen ≡ (has k s.seen || has k (kept_keys vs))
  unfolding merge_all
  has-merge_all s [] k = unfold kept_keys has in ground arith
  has-merge_all s (v ∷ vs) k = ground (
    arith,
    has-merge_all (merge_one skip key s v) vs k,
    has-merge_one s v k,
    has-kept_keys v vs k,
  )

  -- The keys afterwards are the union of the old keys and of those that are not skipped.
  pub merge_new_union :
      (existing vs : List A) (k : Text)
      → has k (map key (merge_new skip key existing vs).out)
        ≡ (has k (map key existing) || has k (kept_keys vs))
  unfolding merge_new
  merge_new_union existing vs k =
      sym ((merge_new-MergeInv existing vs).keys k) ∙ has-merge_all _ vs k

  Distinct-merge_one :
      (existing : List A) (s : Merging A) (v : A)
      → MergeInv existing s
      → Distinct (map key s.out)
      → Distinct (map key (merge_one skip key s v).out)
  unfolding merge_one
  Distinct-merge_one existing s v i d = elim (Bool-cases (skip v)) [
    | inl e ↦ rw e d
    | inr e ↦ rw e (elim (Bool-cases (has (key v) s.seen)) [
      | inl f ↦ rw f d
      | inr f ↦
          rw f (rw map-append (Distinct-snoc (map key s.out) (key v) d (sym (i.keys (key v)) ∙ f)))
    ])
  ]

  Distinct-merge_all :
      (existing : List A) (s : Merging A) (vs : List A)
      → MergeInv existing s
      → Distinct (map key s.out)
      → Distinct (map key (merge_all skip key s vs).out)
  unfolding merge_all
  Distinct-merge_all existing s [] i d = d
  Distinct-merge_all existing s (v ∷ vs) i d =
      Distinct-merge_all existing (merge_one skip key s v) vs (merge_one-MergeInv existing s v i)
        (Distinct-merge_one existing s v i d)

  -- Keys that are distinct stay so.
  pub Distinct-merge_new :
      (existing vs : List A)
      → Distinct (map key existing)
      → Distinct (map key (merge_new skip key existing vs).out)
  unfolding merge_new is_empty
  Distinct-merge_new existing vs d =
      Distinct-merge_all existing _ vs
        (record { split = rw append-nil; flag = refl; keys = λ k. refl }) d

  merge_one_known :
      (s : Merging A) (v : A)
      → ((k : Text) → has k (kept_keys (v ∷ [])) ≡ true → has k s.seen ≡ true)
      → merge_one skip key s v ≡ s
  unfolding merge_one kept_keys has
  merge_one_known s v h = ground (arith, h (key v), text_eq_refl (key v))

  pub merge_all_known :
      (s : Merging A) (vs : List A)
      → ((k : Text) → has k (kept_keys vs) ≡ true → has k s.seen ≡ true)
      → merge_all skip key s vs ≡ s
  unfolding merge_all
  merge_all_known s [] h = refl
  merge_all_known s (v ∷ vs) h =
      rw (merge_one_known s v (λ k e. h k (has-kept_keys v vs k ∙ (ground arith))))
        (merge_all_known s vs (λ k e. h k (has-kept_keys v vs k ∙ (ground arith))))

  -- Merging the same elements again changes nothing.
  pub merge_new_again :
      (existing vs : List A)
      → let m = merge_new skip key existing vs in
        ((merge_new skip key m.out vs).out ≡ m.out)
        × ((merge_new skip key m.out vs).changed ≡ false)
  unfolding merge_new
  merge_new_again existing vs =
      let same =
        merge_all_known
          (record {
            seen = map key (merge_new skip key existing vs).out;
            out = (merge_new skip key existing vs).out;
            changed = false;
            added = [];
          })
          vs (λ k e. merge_new_union existing vs k ∙ (ground arith)) in
      (ap (λ (m : Merging A). m.out) same, ap (λ (m : Merging A). m.changed) same)
