-- ===== src/Prelude/Map/Laws.antt =====
-- Maps whose keys are distinct, and predicates on their entries.
use mathlib.Core.Path.{subst₂}
use asset_discovery.Prelude.{Bool-cases, [], arith, inl, inr, none, refl, some, ◌∷◌, ◌≡◌}
use asset_discovery.Prelude.Map.{Map, delete, insert, lookup, lookup-delete, lookup-insert}
use asset_discovery.Prelude.Text.{Text, text_eq, text_eq_iff, text_eq→eq}

module _ {ℓ} {V : Type ℓ} where
  -- No key stands twice.
  abbrev pub IsMap : Map V → Type ℓ
  IsMap [] = Unit
  IsMap ((k, v) ∷ m) = (lookup k m ≡ none) × IsMap m

  pub IsMap-insert : (k : Text) (v : V) (m : Map V) → IsMap m → IsMap (insert k v m)
  unfolding insert lookup
  IsMap-insert k v [] h = (refl, tt)
  IsMap-insert k v ((j, w) ∷ m) h = elim (Bool-cases (text_eq j k)) [
    | inl e ↦ rw e h
    | inr e ↦ rw e (
      rw (lookup-insert k j v m) (ground (arith, text_eq_iff j k, text_eq_iff k j)),
      IsMap-insert k v m h.1,
    )
  ]

  pub IsMap-delete : (k : Text) (m : Map V) → IsMap m → IsMap (delete k m)
  unfolding delete lookup
  IsMap-delete k [] h = tt
  IsMap-delete k ((j, w) ∷ m) h = elim (Bool-cases (text_eq j k)) [
    | inl e ↦ rw e (IsMap-delete k m h.1)
    | inr e ↦ rw e (
      rw (lookup-delete k j m) (ground (arith, text_eq_iff j k, text_eq_iff k j)),
      IsMap-delete k m h.1,
    )
  ]

module _ {ℓ κ} {V : Type ℓ} (P : Text → V → Type κ) where
  -- A property of every entry.
  abbrev pub Entries : Map V → Type κ
  Entries [] = Unit
  Entries ((k, v) ∷ m) = P k v × Entries m

  pub Entries-insert : (k : Text) (v : V) (m : Map V) → P k v → Entries m → Entries (insert k v m)
  unfolding insert
  Entries-insert k v [] p h = (p, tt)
  Entries-insert k v ((j, w) ∷ m) p h = elim (Bool-cases (text_eq j k)) [
    | inl e ↦ rw e (rw (text_eq→eq j k e) p, h.1)
    | inr e ↦ rw e (h.0, Entries-insert k v m p h.1)
  ]

  pub Entries-delete : (k : Text) (m : Map V) → Entries m → Entries (delete k m)
  unfolding delete
  Entries-delete k [] h = tt
  Entries-delete k ((j, w) ∷ m) h = elim (Bool-cases (text_eq j k)) [
    | inl e ↦ rw e (Entries-delete k m h.1)
    | inr e ↦ rw e (h.0, Entries-delete k m h.1)
  ]

  pub Entries-lookup : (k : Text) (v : V) (m : Map V) → Entries m → lookup k m ≡ some v → P k v
  unfolding lookup
  Entries-lookup k v [] h e = cc
  Entries-lookup k v ((j, w) ∷ m) h e = elim (Bool-cases (text_eq j k)) [
    | inl f ↦ subst₂ P (text_eq→eq j k f) (let q : some w ≡ some v = rw f at e in cc) h.0
    | inr f ↦ Entries-lookup k v m h.1 (rw f at e)
  ]
