-- ===== src/Prelude/Text/Decimal.antt =====
-- Decimal numbers: the digits determine the number, and none is a colon.
use asset_discovery.Prelude.{
  All, Bool, Bool-cases, List, [], ap, arith, false, if◌then◌else◌, inl, inr, ltb, map, refl, suc,
  sym, true, zero, ℕ, ◌&&◌, ◌*◌, ◌++◌, ◌+◌, ◌/◌, ◌<◌, ◌==◌, ◌∙◌, ◌∷◌, ◌≡◌,
}
use asset_discovery.Prelude.Text.{Text, digit_char, digits, itoa}
use mathlib.Core.List.{reverse-cons, reverse, reverse-reverse}

abbrev value : List ℕ → ℕ
value [] = 0
value (d ∷ ds) = d + 10 * value ds

value-digits : (fuel n : ℕ) → n < fuel → value (digits fuel n) ≡ n
unfolding digits
value-digits zero n h = elim h [ ]
value-digits (suc fuel) n h = elim (Bool-cases (ltb n 10)) [
  | inl e ↦ rw e (omega arith)
  | inr e ↦ rw e (omega (arith, value-digits fuel (n / 10) (ground arith)))
]

abbrev Digits : List ℕ → Type 0
Digits = All (λ d. d < 10)

Digits-digits : (fuel n : ℕ) → Digits (digits fuel n)
unfolding digits
Digits-digits zero n = tt
Digits-digits (suc fuel) n = elim (Bool-cases (ltb n 10)) [
  | inl e ↦ rw e (ground arith, tt)
  | inr e ↦ rw e (omega arith, Digits-digits fuel (n / 10))
]

map-digit_char_inj : (xs ys : List ℕ) → map digit_char xs ≡ map digit_char ys → xs ≡ ys
map-digit_char_inj [] [] e = refl
map-digit_char_inj [] (y ∷ ys) e = cc
map-digit_char_inj (x ∷ xs) [] e = cc
map-digit_char_inj (x ∷ xs) (y ∷ ys) e = ground (arith, map-digit_char_inj xs ys)

reverse_inj : (xs ys : List ℕ) → reverse xs ≡ reverse ys → xs ≡ ys
reverse_inj xs ys e = sym (reverse-reverse xs) ∙ ap reverse e ∙ reverse-reverse ys

-- strconv.Itoa is injective.
pub itoa_inj : (m n : ℕ) → itoa m ≡ itoa n → m ≡ n
unfolding itoa
itoa_inj m n e =
    let same = map-digit_char_inj _ _ (reverse_inj _ _ e) in
    sym (value-digits (suc m) m (omega arith))
    ∙ ap value same
    ∙ value-digits (suc n) n (omega arith)

-- c does not stand in s.
unfoldable pub absent : ℕ → Text → Bool
absent c [] = true
absent c (b ∷ s) = if b == c then false else absent c s

pub absent-append : (c : ℕ) (s t : Text) → absent c (s ++ t) ≡ (absent c s && absent c t)
unfolding absent
absent-append c [] t = refl
absent-append c (b ∷ s) t = ground (arith, absent-append c s t)

absent-reverse : (c : ℕ) (s : Text) → absent c (reverse s) ≡ absent c s
unfolding absent
absent-reverse c [] = refl
absent-reverse c (b ∷ s) =
    rw (reverse-cons b s) (ground (arith, absent-append c (reverse s) (b ∷ []), absent-reverse c s))

absent-Digits : (ds : List ℕ) → Digits ds → absent 58 (map digit_char ds) ≡ true
unfolding absent
absent-Digits [] h = refl
absent-Digits (d ∷ ds) h = ground (arith, absent-Digits ds h.1, h.0)

pub colon_absent-itoa : (n : ℕ) → absent 58 (itoa n) ≡ true
unfolding itoa
colon_absent-itoa n =
    absent-reverse 58 _ ∙ absent-Digits (digits (suc n) n) (Digits-digits (suc n) n)

-- A text is cut at its last occurrence of c in one way.
pub cut_last :
    (c : ℕ) (p q v w : Text)
    → absent c v ≡ true
    → absent c w ≡ true
    → p ++ c ∷ v ≡ q ++ c ∷ w
    → (p ≡ q) × (v ≡ w)
unfolding absent
cut_last c [] [] v w hv hw e = (refl, ground arith)
cut_last c [] (b ∷ q) v w hv hw e = absurd (ground (arith, absent-append c q (c ∷ w)))
cut_last c (a ∷ p) [] v w hv hw e = absurd (ground (arith, absent-append c p (c ∷ v)))
cut_last c (a ∷ p) (b ∷ q) v w hv hw e =
    let rest = cut_last c p q v w hv hw (ground arith) in (ground (arith, rest.0), rest.1)
