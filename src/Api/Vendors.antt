-- ===== src/Api/Vendors.antt =====
-- The list of vendors.
use asset_discovery.Api.Detail.{insert_vendor, list_vendors, vendors_of}
use asset_discovery.Asset.Merge.{has}
use asset_discovery.Prelude.{
  Bool, Bool-cases, Gives, List, [], ap, arith, false, inl, inr, not, refl, sym, true, ◌&&◌, ◌||◌,
  ◌∙◌, ◌∷◌, ◌≡◌,
}
use asset_discovery.Prelude.Map.{Map}
use asset_discovery.Prelude.Text.{Text, is_empty, text_eq, text_eq_iff, text_eq→eq}
use asset_discovery.Prelude.Text.Order.{text_ltb}
use asset_discovery.Storage.{AssetRow, Tables}

-- A row has the vendor.
unfoldable pub some_row_has : Text → Map AssetRow → Bool
some_row_has v [] = false
some_row_has v ((id, row) ∷ rows) = text_eq row.mac_vendor v || some_row_has v rows

-- Every text is less than the one after it.
abbrev pub Ascending : List Text → Type 0
Ascending [] = Unit
Ascending (v ∷ []) = Unit
Ascending (v ∷ w ∷ ws) = (text_ltb v w ≡ true) × Ascending (w ∷ ws)

has-insert_vendor :
    (k v : Text) (ws : List Text) → has k (insert_vendor v ws) ≡ (text_eq v k || has k ws)
unfolding has insert_vendor
has-insert_vendor k v [] = ground arith
has-insert_vendor k v (w ∷ ws) =
    ground (arith, has-insert_vendor k v ws, text_eq_iff w v, text_eq_iff w k, text_eq_iff v k)

text_total : (a b : Text) → text_eq a b ≡ false → text_ltb a b ≡ false → text_ltb b a ≡ true
unfolding text_eq text_ltb
text_total [] [] e l = cc
text_total [] (b ∷ bt) e l = cc
text_total (a ∷ at) [] e l = refl
text_total (a ∷ at) (b ∷ bt) e l = ground (arith, text_total at bt)

abbrev Below : Text → List Text → Type 0
Below w [] = Unit
Below w (x ∷ xs) = text_ltb w x ≡ true

Ascending-cons : (w : Text) (xs : List Text) → Below w xs → Ascending xs → Ascending (w ∷ xs)
Ascending-cons w [] b h = tt
Ascending-cons w (x ∷ xs) b h = (b, h)

Ascending-tail : (w : Text) (xs : List Text) → Ascending (w ∷ xs) → Below w xs × Ascending xs
Ascending-tail w [] h = (tt, tt)
Ascending-tail w (x ∷ xs) h = h

insert_vendor-Below :
    (w v : Text) (xs : List Text) → Below w xs → text_ltb w v ≡ true → Below w (insert_vendor v xs)
unfolding insert_vendor
insert_vendor-Below w v [] b l = l
insert_vendor-Below w v (x ∷ xs) b l = elim (Bool-cases (text_eq x v)) [
  | inl e ↦ rw e b
  | inr e ↦ rw e (elim (Bool-cases (text_ltb x v)) [ inl f ↦ rw f b | inr f ↦ rw f l ])
]

insert_vendor-Ascending :
    (v : Text) (ws : List Text) → Ascending ws → Ascending (insert_vendor v ws)
unfolding insert_vendor
insert_vendor-Ascending v [] h = tt
insert_vendor-Ascending v (w ∷ ws) h = elim (Bool-cases (text_eq w v)) [
  | inl e ↦ rw e h
  | inr e ↦ rw e (elim (Bool-cases (text_ltb w v)) [
    | inl f ↦
        let (b, rest) = Ascending-tail w ws h in
        rw f (
          Ascending-cons w (insert_vendor v ws) (insert_vendor-Below w v ws b f)
            (insert_vendor-Ascending v ws rest))
    | inr f ↦ rw f (text_total w v e f, h)
  ])
]

vendors_of-Ascending : (rows : Map AssetRow) → Ascending (vendors_of rows)
unfolding vendors_of
vendors_of-Ascending [] = tt
vendors_of-Ascending ((id, row) ∷ rows) = elim (Bool-cases (is_empty row.mac_vendor)) [
  | inl e ↦ rw e (vendors_of-Ascending rows)
  | inr e ↦ rw e (insert_vendor-Ascending row.mac_vendor _ (vendors_of-Ascending rows))
]

has-vendors_of :
    (v : Text) (rows : Map AssetRow)
    → has v (vendors_of rows) ≡ (not (is_empty v) && some_row_has v rows)
unfolding has vendors_of some_row_has
has-vendors_of v [] = ground arith
has-vendors_of v ((id, row) ∷ rows) = elim (Bool-cases (is_empty row.mac_vendor)) [
  | inl e ↦ rw e (
      has-vendors_of v rows ∙ elim (Bool-cases (text_eq row.mac_vendor v)) [
        | inl f ↦ rw (sym (text_eq→eq row.mac_vendor v f)) (rw e refl)
        | inr f ↦ rw f refl
      ])
  | inr e ↦ rw e (
      has-insert_vendor v row.mac_vendor (vendors_of rows)
      ∙ rw (has-vendors_of v rows) (elim (Bool-cases (text_eq row.mac_vendor v)) [
        | inl f ↦
            let given : is_empty v ≡ false =
              ap is_empty (sym (text_eq→eq row.mac_vendor v f)) ∙ e in
            rw f (rw given (ground arith))
        | inr f ↦ rw f refl
      ]))
]

-- The vendors that are listed, when the query does not fail, are exactly those of the rows, the empty
-- one left out, each once and in ascending order.
pub list_vendors_exact :
    (t : Tables)
    → Gives
        (λ vs.
          ((v : Text) → has v vs ≡ (not (is_empty v) && some_row_has v t.assets)) × Ascending vs)
        (list_vendors false t)
unfolding list_vendors
list_vendors_exact t = (λ v. has-vendors_of v t.assets, vendors_of-Ascending t.assets)
