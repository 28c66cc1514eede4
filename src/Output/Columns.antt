-- ===== src/Output/Columns.antt =====
-- How wide the lines of a box are on a terminal.
use asset_discovery.Asset.Types.{AssetSnapshot}
use asset_discovery.Output.{
  Line, body_line, bottom_border, bottom_left, bottom_right, horizontal, inner_width, longest,
  repeat, vertical, Printer, asset_lines,
}
use asset_discovery.Prelude.{
  All, Bool, List, [], arith, if◌then◌else◌, leb, length, ltb, refl, suc, true, zero, ℕ, ◌&&◌, ◌++◌,
  ◌+◌, ◌-◌, ◌∙◌, ◌∷◌, ◌≡◌, ◌≤◌,
}
use asset_discovery.Prelude.Text.{Text, text}

-- The characters of a text in UTF-8: the bytes that continue one do not count.
unfoldable pub columns : Text → ℕ
columns [] = 0
columns (c ∷ s) = (if leb 128 c && ltb c 192 then 0 else 1) + columns s

columns-append : (s t : Text) → columns (s ++ t) ≡ columns s + columns t
unfolding columns
columns-append [] t = omega arith
columns-append (c ∷ s) t = omega (arith, columns-append s t)

columns-repeat : (n : ℕ) (s : Text) → columns s ≡ 1 → columns (repeat n s) ≡ n
unfolding columns repeat
columns-repeat zero s h = refl
columns-repeat (suc n) s h = columns-append s (repeat n s) ∙ omega (arith, h, columns-repeat n s h)

unfoldable pub is_ascii : Text → Bool
is_ascii [] = true
is_ascii (c ∷ s) = ltb c 128 && is_ascii s

abbrev pub Ascii : Text → Type 0
Ascii s = is_ascii s ≡ true

columns-Ascii : (s : Text) → Ascii s → columns s ≡ length s
unfolding columns is_ascii
columns-Ascii [] h = refl
columns-Ascii (c ∷ s) h = ground (arith, columns-Ascii s)

grow : (n m : ℕ) (xs : List Line) → n ≤ m → All (λ x. length x ≤ n) xs → All (λ x. length x ≤ m) xs
grow n m [] le h = tt
grow n m (x ∷ xs) le h = (omega (arith, h.0, le), grow n m xs le h.1)

longest-le : (lines : List Line) → All (λ l. length l ≤ longest lines) lines
unfolding longest
longest-le [] = tt
longest-le (l ∷ ls) =
    (ground arith, grow (longest ls) (longest (l ∷ ls)) ls (ground arith) (longest-le ls))

inner_width-le : (lines : List Line) → All (λ l. length l ≤ inner_width lines) lines
unfolding inner_width
inner_width-le lines =
    grow (longest lines) (inner_width lines) lines (ground arith) (longest-le lines)

columns-bottom_border : (w : ℕ) → columns (bottom_border w) ≡ w + 2
unfolding bottom_border
columns-bottom_border w =
    let l : columns bottom_left ≡ 1 = unfold columns in refl in
    let r : columns bottom_right ≡ 1 = unfold columns in refl in
    let line = columns-repeat w horizontal (unfold columns in refl) in
    columns-append (bottom_left ++ repeat w horizontal) bottom_right
    ∙ omega (arith, l, r, line, columns-append bottom_left (repeat w horizontal))

columns-body_line : (w : ℕ) (l : Line) → Ascii l → length l ≤ w → columns (body_line w l) ≡ w + 3
unfolding body_line
columns-body_line w l a h =
    let pad = repeat (w - length l) (text " ") in
    let v : columns vertical ≡ 1 = unfold columns in refl in
    let s : columns (text " ") ≡ 1 = unfold columns in refl in
    let p = columns-repeat (w - length l) (text " ") s in
    let start = vertical ++ text " " in
    columns-append (start ++ l ++ pad) vertical
    ∙ omega (
      arith,
      v,
      s,
      p,
      h,
      columns-Ascii l a,
      columns-append (start ++ l) pad,
      columns-append start l,
      columns-append vertical (text " "),
    )

-- The widths of the lines of a box: those of the body, and the border below.
abbrev pub Wider : ℕ → List Line → Type 0
Wider w = All (λ l. columns (body_line w l) ≡ columns (bottom_border w) + 1)

All-Wider :
    (w : ℕ) (lines : List Line) → All Ascii lines → All (λ l. length l ≤ w) lines → Wider w lines
All-Wider w [] a h = tt
All-Wider w (l ∷ ls) a h =
    (omega (arith, columns-body_line w l a.0 h.0, columns-bottom_border w), All-Wider w ls a.1 h.1)

-- In the box of an asset whose lines are ASCII, every line of the body is one column wider than the
-- border below it.
pub asset_box_misaligned :
    (pr : Printer) (s : AssetSnapshot)
    → All Ascii (asset_lines pr s)
    → Wider (inner_width (asset_lines pr s)) (asset_lines pr s)
asset_box_misaligned pr s a = All-Wider _ (asset_lines pr s) a (inner_width-le (asset_lines pr s))
