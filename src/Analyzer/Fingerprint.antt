-- ===== src/Analyzer/Fingerprint.antt =====
-- The fingerprint of the parameter request list of internal/analyzer/dhcp.go prints decimal numbers.
use asset_discovery.Prelude.{All-take, Bool-cases, if◌then◌else◌, inl, inr}
use asset_discovery.Analyzer.Dhcpv4.{
  append_uint, fingerprint, fingerprint_codes, fingerprint_rest, max_codes,
}
use asset_discovery.Prelude.{All, List, ap, false, sym, take, ◌++◌, ◌∙◌, ◌∷◌}
use asset_discovery.Prelude.Text.{Text, text, text_eq→eq}
use mathlib.Core.List.{append-nil, append_assoc}
use native.Mathlib.Decide.{ℕ_discrete}
use asset_discovery.Analyzer.Dhcpv4.{uint_digits}
use asset_discovery.Prelude.{Bool, [], arith, refl, suc, true, zero, ℕ, ◌&&◌, ◌<◌, ◌==◌, ◌||◌, ◌≡◌}
use asset_discovery.Prelude.Text.{itoa, text_eq}

abbrev pub all_below : ℕ → (ℕ → Bool) → Bool
all_below zero f = true
all_below (suc n) f = f n && all_below n f

all_below-lt : (n : ℕ) (f : ℕ → Bool) (v : ℕ) → all_below n f ≡ true → v < n → f v ≡ true
all_below-lt zero f v h b = absurd (omega (arith, b))
all_below-lt (suc n) f v h b = elim (ℕ_discrete v n) [
  | yes e ↦ rw e (ground (arith, h))
  | no e ↦ all_below-lt n f v (ground (arith, h)) (omega (arith, b, e))
]

uint_digits_bytes : all_below 256 (λ v. v == 0 || text_eq (uint_digits 3 v []) (itoa v)) ≡ true
unfolding uint_digits text_eq itoa
uint_digits_bytes = refl

append_uint_lem :
    (b : Text) (v : ℕ)
    → append_uint b v ≡ (if v == 0 then b ++ text "0" else b ++ uint_digits 3 v [])
unfolding append_uint
append_uint_lem b v = refl

byte-itoa : (v : ℕ) → v < 256 → (v == 0) ≡ false → uint_digits 3 v [] ≡ itoa v
byte-itoa v h nonzero = text_eq→eq (uint_digits 3 v []) (itoa v) (
    rw nonzero at (
      all_below-lt 256 (λ v. v == 0 || text_eq (uint_digits 3 v []) (itoa v)) v uint_digits_bytes
        h))

itoa_zero : itoa 0 ≡ text "0"
unfolding itoa
itoa_zero = refl

append_uint-itoa : (b : Text) (v : ℕ) → v < 256 → append_uint b v ≡ b ++ itoa v
append_uint-itoa b v h = elim (Bool-cases (v == 0)) [
  | inl e ↦
      let zero_byte : v ≡ 0 = ground (arith, e) in
      append_uint_lem b v ∙ rw (e, zero_byte, itoa_zero) refl
  | inr e ↦ append_uint_lem b v ∙ rw (e, byte-itoa v h e) refl
]

-- The numbers in decimal, a comma before each.
abbrev pub comma_tail : List ℕ → Text
comma_tail [] = []
comma_tail (c ∷ cs) = 44 ∷ itoa c ++ comma_tail cs

-- The numbers in decimal, with commas between.
abbrev pub comma_list : List ℕ → Text
comma_list [] = []
comma_list (c ∷ cs) = itoa c ++ comma_tail cs

fingerprint_rest_lem :
    (cs : List ℕ) (out : Text)
    → All (λ c. c < 256) cs
    → fingerprint_rest out cs ≡ out ++ comma_tail cs
unfolding fingerprint_rest
fingerprint_rest_lem [] out h = sym (append-nil out)
fingerprint_rest_lem (c ∷ cs) out h =
    fingerprint_rest_lem cs _ h.1
    ∙ rw (append_uint-itoa (out ++ text ",") c h.0) (
        append_assoc (out ++ text ",") (itoa c) (comma_tail cs)
        ∙ append_assoc out (text ",") (itoa c ++ comma_tail cs))

fingerprint_codes_lem : (cs : List ℕ) → All (λ c. c < 256) cs → fingerprint_codes cs ≡ comma_list cs
fingerprint_codes_lem [] h = refl
fingerprint_codes_lem (c ∷ cs) h =
    fingerprint_rest_lem cs (append_uint [] c) h.1
    ∙ ap (λ t. t ++ comma_tail cs) (append_uint-itoa [] c h.0)

-- The fingerprint of a parameter request list of bytes is its first sixteen codes in decimal, with commas
-- between: the three bytes of room that appendUint has are always enough.
pub fingerprint_decimal :
    (pri : List ℕ) → All (λ c. c < 256) pri → fingerprint pri ≡ comma_list (take max_codes pri)
unfolding fingerprint
fingerprint_decimal pri h =
    fingerprint_codes_lem (take max_codes pri) (All-take (λ c. c < 256) max_codes pri h)
