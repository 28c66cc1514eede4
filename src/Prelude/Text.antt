-- ===== src/Prelude/Text.antt =====
-- Go strings as lists of bytes, with the functions of Go's `strings` package that the program
-- calls. `to_lower` maps the ASCII letters: the texts that the program compares are ASCII.
pub mod Decimal
pub mod Order
use Prim.Native.Char.{code}
use Prim.Native.String.{String}
use asset_discovery.Prelude.Tests.{◌==◌, ltb, leb, if◌then◌else◌}
use asset_discovery.Prelude.Lists.{length, drop}
use Prim.Native.Nat.{ℕ, zero, suc, ◌+◌, ◌-◌, ◌/◌, ◌%◌}
use mathlib.Core.Path.{◌≡◌, refl}
use mathlib.Core.Logic.{◌↔◌}
use mathlib.Core.Bool.{Bool, true, false, ◌&&◌, ◌||◌}
use mathlib.Core.List.{List, [], ◌∷◌, map, reverse}
use native.Mathlib.Omega.{arith}

abbrev pub Text : Type 0
Text = List ℕ

-- A literal.
abbrev pub text : String → Text
text String.[] = []
text (String.◌∷◌ c s) = code c ∷ text s

-- `a == b` on strings.
unfoldable pub text_eq : Text → Text → Bool
text_eq [] [] = true
text_eq [] (b ∷ bt) = false
text_eq (a ∷ at) [] = false
text_eq (a ∷ at) (b ∷ bt) = a == b && text_eq at bt

pub text_eq→eq : (a b : Text) → text_eq a b ≡ true → a ≡ b
unfolding text_eq
text_eq→eq [] [] h = refl
text_eq→eq [] (b ∷ bt) h = cc
text_eq→eq (a ∷ at) [] h = cc
text_eq→eq (a ∷ at) (b ∷ bt) h = ground (arith, text_eq→eq at bt)

pub text_eq_refl : (a : Text) → text_eq a a ≡ true
unfolding text_eq
text_eq_refl [] = refl
text_eq_refl (a ∷ at) = ground (arith, text_eq_refl at)

pub text_eq_iff : (a b : Text) → (text_eq a b ≡ true) ↔ (a ≡ b)
text_eq_iff a b = (text_eq→eq a b, λ e. rw e (text_eq_refl b))

-- `s == ""`
unfoldable pub is_empty {ℓ} : {A : Type ℓ} → List A → Bool
is_empty [] = true
is_empty (a ∷ at) = false

lower_byte : ℕ → ℕ
lower_byte c = if leb b'A' c && leb c b'Z' then c + 32 else c

-- strings.ToLower
unfoldable pub to_lower : Text → Text
unfolding lower_byte
to_lower = map lower_byte

upper_byte : ℕ → ℕ
upper_byte c = if leb b'a' c && leb c b'z' then c - 32 else c

-- strings.ToUpper
unfoldable pub to_upper : Text → Text
unfolding upper_byte
to_upper = map upper_byte

-- strings.HasPrefix s p
unfoldable pub has_prefix : Text → Text → Bool
has_prefix s [] = true
has_prefix [] (p ∷ ps) = false
has_prefix (c ∷ s) (p ∷ ps) = c == p && has_prefix s ps

-- strings.Contains s p
unfoldable pub contains : Text → Text → Bool
unfolding has_prefix
contains [] p = has_prefix [] p
contains (c ∷ s) p = has_prefix (c ∷ s) p || contains s p

-- The ASCII characters that unicode.IsSpace accepts.
unfoldable pub is_space : ℕ → Bool
is_space c = c == 32 || (leb 9 c && leb c 13)

unfoldable pub trim_left : Text → Text
unfolding is_space
trim_left [] = []
trim_left (c ∷ s) = let rest = trim_left s in if is_space c then rest else c ∷ s

-- strings.TrimSpace
unfoldable pub trim_space : Text → Text
unfolding trim_left
trim_space s = reverse (trim_left (reverse (trim_left s)))

-- The words of strings.Fields, `word` being the letters of the current one, the last one first.
unfoldable pub fields_from : Text → Text → List Text
unfolding is_empty is_space
fields_from word [] = if is_empty word then [] else reverse word ∷ []
fields_from word (c ∷ cs) =
    let here = fields_from [] cs in
    let on = fields_from (c ∷ word) cs in
    if is_space c then (if is_empty word then here else reverse word ∷ here) else on

-- strings.Fields
unfoldable pub fields : Text → List Text
unfolding fields_from
fields = fields_from []

-- The decimal digits of a number, the lowest first. The fuel is enough where it exceeds n.
unfoldable pub digits : ℕ → ℕ → List ℕ
digits zero n = []
digits (suc fuel) n =
    let rest = digits fuel (n / 10) in if ltb n 10 then n ∷ [] else (n % 10) ∷ rest

abbrev pub digit_char : ℕ → ℕ
digit_char d = 48 + d

-- strconv.Itoa of a number that is not negative
unfoldable pub itoa : ℕ → Text
unfolding digits
itoa n = reverse (map digit_char (digits (suc n) n))

-- strings.TrimSuffix s p
unfoldable pub trim_suffix : Text → Text → Text
unfolding has_prefix
trim_suffix s p =
    if has_prefix (reverse s) (reverse p) then reverse (drop (length p) (reverse s)) else s
