-- ===== src/Analyzer/Ssdp/Colons.antt =====
-- SSDP headers are written "Name: value", and the code cuts a line at its first '='.
use asset_discovery.Analyzer.Names.{cut_at, or_whole, split_kv}
use asset_discovery.Analyzer.Ssdp.{add_header, header_loop, put_missing, trim_line}
use asset_discovery.Prelude.{
  All, Bool, Bool-cases, List, Option, Option-cases, [], ap, arith, false, if◌then◌else◌, inl, inr,
  none, refl, some, sym, true, ◌++◌, ◌==◌, ◌∙◌, ◌∷◌, ◌≡◌, ◌⊎◌,
}
use asset_discovery.Prelude.Map.{Map, lookup, lookup-insert}
use asset_discovery.Prelude.Text.{
  Text, is_empty, is_space, text_eq_iff, to_lower, trim_left, trim_space,
}
use asset_discovery.Prelude.Text.Decimal.{absent, absent-append}
use mathlib.Core.List.{append-nil, append_assoc, reverse, reverse-append, reverse-reverse}

-- A colon stands in the text, and no '=' before it.
unfoldable pub colon_first : Text → Bool
colon_first [] = false
colon_first (c ∷ s) =
    let rest = colon_first s in if c == 58 then true else if c == 61 then false else rest

Spaces : Text → Type 0
Spaces = All (λ c. is_space c ≡ true)

-- A text is what trim_left leaves behind some spaces.
abbrev LeftTrimmed : Text → Text → Type 0
LeftTrimmed s t = (w : Text) × Spaces w × (s ≡ w ++ t)

trim_left_lem : (s : Text) → LeftTrimmed s (trim_left s)
unfolding trim_left Spaces
trim_left_lem [] = ([], tt, refl)
trim_left_lem (c ∷ s) = elim (Bool-cases (is_space c)) [
  | inl e ↦ let (w, sp, eq) = trim_left_lem s in rw e (c ∷ w, (e, sp), ap (◌∷◌ c) eq)
  | inr e ↦ rw e ([], tt, refl)
]

colon_first-Spaces : (w : Text) → Spaces w → colon_first w ≡ false
unfolding Spaces colon_first is_space
colon_first-Spaces [] h = refl
colon_first-Spaces (c ∷ w) h = ground (arith, colon_first-Spaces w h.1, h.0)

colon_first-left : (w s : Text) → Spaces w → colon_first (w ++ s) ≡ colon_first s
unfolding Spaces colon_first is_space
colon_first-left [] s h = refl
colon_first-left (c ∷ w) s h = ground (arith, colon_first-left w s h.1, h.0)

colon_first-right : (s w : Text) → Spaces w → colon_first (s ++ w) ≡ colon_first s
unfolding colon_first
colon_first-right [] w h = colon_first-Spaces w h
colon_first-right (c ∷ s) w h = ground (arith, colon_first-right s w h)

absent-Spaces : (w : Text) → Spaces w → absent 58 w ≡ true
unfolding Spaces absent is_space
absent-Spaces [] h = refl
absent-Spaces (c ∷ w) h = ground (arith, absent-Spaces w h.1, h.0)

Spaces-append : (v w : Text) → Spaces v → Spaces w → Spaces (v ++ w)
unfolding Spaces
Spaces-append [] w a b = b
Spaces-append (c ∷ v) w a b = (a.0, Spaces-append v w a.1 b)

Spaces-reverse : (w : Text) → Spaces w → Spaces (reverse w)
unfolding Spaces
Spaces-reverse [] h = tt
Spaces-reverse (c ∷ w) h =
    rw mathlib.Core.List.reverse-cons
      (Spaces-append (reverse w) (c ∷ []) (Spaces-reverse w h.1) (h.0, tt))

-- A text is what trim_space leaves, between spaces.
trim_space_lem : (s : Text) → (v w : Text) × Spaces v × Spaces w × (s ≡ v ++ (trim_space s ++ w))
unfolding trim_space
trim_space_lem s =
    let (v, sv, e) = trim_left_lem s in
    let (w, sw, f) = trim_left_lem (reverse (trim_left s)) in
    let mid : trim_left s ≡ reverse (trim_left (reverse (trim_left s))) ++ reverse w =
      sym (reverse-reverse (trim_left s)) ∙ ap reverse f ∙ reverse-append w _ in
    (v, reverse w, sv, Spaces-reverse w sw, e ∙ ap (λ t. v ++ t) mid)

colon_first-trim_space : (s : Text) → colon_first (trim_space s) ≡ colon_first s
colon_first-trim_space s =
    let (v, w, sv, sw, e) = trim_space_lem s in
    sym (
      ap colon_first e
      ∙ colon_first-left v (trim_space s ++ w) sv
      ∙ colon_first-right (trim_space s) w sw)

absent-trim_space : (s : Text) → absent 58 (trim_space s) ≡ absent 58 s
absent-trim_space s =
    let (v, w, sv, sw, e) = trim_space_lem s in
    sym (
      ap (absent 58) e
      ∙ absent-append 58 v (trim_space s ++ w)
      ∙ rw (absent-Spaces v sv)
          (absent-append 58 (trim_space s) w ∙ rw (absent-Spaces w sw) (ground arith)))

absent-to_lower : (s : Text) → absent 58 (to_lower s) ≡ absent 58 s
unfolding to_lower absent
absent-to_lower [] = refl
absent-to_lower (c ∷ s) = ground (arith, absent-to_lower s)

-- What stands before the first '=' has the colon.
colon_in_key : (s : Text) → colon_first s ≡ true → absent 58 (or_whole s (cut_at 61 s)).0 ≡ false
unfolding colon_first absent cut_at
colon_in_key [] h = cc
colon_in_key (c ∷ s) h = elim (Option-cases (cut_at 61 s)) [
  | inl e ↦ rw e (ground (arith, h, rw e at (colon_in_key s)))
  | inr ((k, v), e) ↦ rw e (ground (arith, h, rw e at (colon_in_key s)))
]

-- The name of a header that is stored for such a line has a colon.
stored_colon :
    (line k v : Text)
    → colon_first line ≡ true
    → split_kv line ≡ some (k, v)
    → absent 58 (to_lower (trim_space k)) ≡ false
unfolding split_kv
stored_colon line k v h e = elim (Bool-cases (is_empty (trim_space line))) [
  | inl f ↦ cc (rw f at e)
  | inr f ↦
      let s = trim_space line in
      let whole : or_whole s (cut_at 61 s) ≡ (k, v) = cc (rw f at e) in
      absent-to_lower (trim_space k)
      ∙ absent-trim_space k
      ∙ ap (λ (p : Text × Text). absent 58 p.0) (sym whole)
      ∙ colon_in_key s (colon_first-trim_space line ∙ h)
]

-- Lines that are blank or have a colon before any '='.
abbrev pub ColonLines : List Text → Type 0
ColonLines = All (λ l. (is_empty (trim_line l) ≡ true) ⊎ (colon_first (trim_line l) ≡ true))

-- A message all of whose lines after the first are such.
abbrev pub ColonHeaders : List Text → Type 0
ColonHeaders [] = Unit
ColonHeaders (l ∷ ls) = ColonLines ls

-- A name without a colon.
module _ (name : Text) (plain : absent 58 name ≡ true) where
  add_header_other :
      (hs : Map Text) (line : Text)
      → colon_first line ≡ true
      → lookup name (add_header hs line) ≡ lookup name hs
  unfolding add_header
  add_header_other hs line h = elim (Option-cases (split_kv line)) [
    | inl e ↦ rw e refl
    | inr ((k, v), e) ↦ rw e (elim (Bool-cases (is_empty (to_lower (trim_space k)))) [
      | inl f ↦ rw f refl
      | inr f ↦ rw f (
          put_other hs (to_lower (trim_space k)) v (lookup (to_lower (trim_space k)) hs)
            (stored_colon line k v h e))
    ])
  ]
    where
      put_other :
          (hs : Map Text) (key v : Text) (o : Option Text)
          → absent 58 key ≡ false
          → lookup name (put_missing hs key v o) ≡ lookup name hs
      put_other hs key v none c =
          lookup-insert key name v hs ∙ ground (arith, text_eq_iff key name, c, plain)
      put_other hs key v (some old) c = refl

  headers_other :
      (hs : Map Text) (ls : List Text)
      → ColonLines ls
      → lookup name (header_loop false hs ls) ≡ lookup name hs
  unfolding header_loop
  headers_other hs [] a = refl
  headers_other hs (l ∷ ls) a = elim (Bool-cases (is_empty (trim_line l))) [
    | inl e ↦ rw e refl
    | inr e ↦ rw e (
        headers_other (add_header hs (trim_line l)) ls a.1
        ∙ add_header_other hs (trim_line l) (not_blank (is_empty (trim_line l)) e a.0))
  ]
    where
      not_blank :
          (b : Bool)
          → b ≡ false
          → (b ≡ true) ⊎ (colon_first (trim_line l) ≡ true)
          → colon_first (trim_line l) ≡ true
      not_blank b e (inl f) = cc
      not_blank b e (inr f) = f

  pub ColonHeaders-unread :
      (ls : List Text) → ColonHeaders ls → lookup name (header_loop true [] ls) ≡ none
  unfolding header_loop lookup
  ColonHeaders-unread [] a = refl
  ColonHeaders-unread (l ∷ ls) a = elim (Bool-cases (is_empty (trim_line l))) [
    | inl e ↦ rw e refl
    | inr e ↦ rw e (headers_other [] ls a)
  ]
