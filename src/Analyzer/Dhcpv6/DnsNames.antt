-- ===== src/Analyzer/Dhcpv6/DnsNames.antt =====
-- The names that decodeDNSName reads back.
use asset_discovery.Analyzer.Dhcpv6.{decode_dns_name, decode_labels, join_dots}
use asset_discovery.Prelude.{
  length-drop, All, List, [], ap, arith, drop, length, length-append, refl, suc, take, zero, ℕ,
  ◌++◌, ◌+◌, ◌<◌, ◌∷◌, ◌≡◌, ◌≤◌,
}
use asset_discovery.Prelude.Text.{Text}

-- A label as DNS has it: of one to 63 bytes.
pub record IsLabel (l : Text) : Type 0 where
  pub some_byte : 0 < length l
  pub short : length l < 64

-- The wire format of a name: each label after its length, and a zero.
unfoldable pub wire_name : List Text → List ℕ
wire_name [] = 0 ∷ []
wire_name (l ∷ ls) = length l ∷ l ++ wire_name ls

take-append_left : (l r : List ℕ) → take (length l) (l ++ r) ≡ l
take-append_left [] r = refl
take-append_left (c ∷ l) r = rw (take-append_left l r)

drop-append_left : (l r : List ℕ) → drop (length l) (l ++ r) ≡ r
drop-append_left [] r = refl
drop-append_left (c ∷ l) r = drop-append_left l r

length-wire_name : (ls : List Text) → length ls < length (wire_name ls)
unfolding wire_name
length-wire_name [] = omega arith
length-wire_name (l ∷ ls) = omega (arith, length-append l (wire_name ls), length-wire_name ls)

labels_back :
    (fuel count : ℕ) (ls : List Text) (tail : List ℕ)
    → All IsLabel ls
    → length ls < fuel
    → count + length ls ≤ 192
    → decode_labels fuel count (wire_name ls ++ tail) ≡ ls
unfolding decode_labels wire_name
labels_back zero count ls tail a f c = ground (arith, f)
labels_back (suc fuel) count [] tail a f c = refl
labels_back (suc fuel) count (l ∷ ls) tail a f c =
    let whole = mathlib.Core.List.append_assoc l (wire_name ls) tail in
    rw
      (
        whole,
        take-append_left l (wire_name ls ++ tail),
        drop-append_left l (wire_name ls ++ tail),
        labels_back fuel (suc count) ls tail a.1 (omega (arith, f)) (omega (arith, c)),
      )
      (ground (arith, a.0.some_byte, a.0.short, c, length-append l (wire_name ls ++ tail)))

-- The wire format of a name of at most 192 labels, each of one to 63 bytes, with anything after it, is
-- read back as the labels with dots between them.
pub decode-wire_name :
    (ls : List Text) (tail : List ℕ)
    → All IsLabel ls
    → length ls ≤ 192
    → decode_dns_name (wire_name ls ++ tail) ≡ join_dots ls
unfolding decode_dns_name
decode-wire_name ls tail a c = ap join_dots (
    labels_back (suc (length (wire_name ls ++ tail))) 0 ls tail a
      (omega (arith, length-append (wire_name ls) tail, length-wire_name ls)) (omega (arith, c)))

-- Fuel beyond the length of the bytes makes no difference.
decode_labels-fuel :
    (f g count : ℕ) (b : List ℕ)
    → length b < f
    → length b < g
    → decode_labels f count b ≡ decode_labels g count b
unfolding decode_labels
decode_labels-fuel zero g count b h k = absurd (omega (arith, h))
decode_labels-fuel (suc f) zero count b h k = absurd (omega (arith, k))
decode_labels-fuel (suc f) (suc g) count [] h k = refl
decode_labels-fuel (suc f) (suc g) count (n ∷ b) h k =
    let shorter = length-drop n b in
    rw
      (decode_labels-fuel f g (suc count) (drop n b) (omega (arith, shorter, h))
        (omega (arith, shorter, k)))
      refl
