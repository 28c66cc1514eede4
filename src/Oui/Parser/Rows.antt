-- ===== src/Oui/Parser/Rows.antt =====
-- What the parser of the registry keeps of a file.
use asset_discovery.Oui.{
  clean_vendor, collect_hex, hex_loop, in_range, is_digit, is_lower_hex, is_separator, is_upper_hex,
  nonempty_text, normalize_prefix, prepend,
}
use asset_discovery.Oui.Parser.{
  CsvReader, Parsed, ParsedLine, add_line, entry, is_comment, is_registry, malformed, parse,
  parse_fields, parse_line, parse_lines, parse_registry_csv_line, parse_row, skipped,
  split_registry_row, with_prefix,
}
use asset_discovery.Prelude.{
  All, Bool, Bool-cases, List, Option, [], arith, false, inl, inr, length, ltb, none, refl, some,
  sym, true, ℕ, ◌++◌, ◌-◌, ◌||◌, ◌∷◌, ◌≡◌, ◌≤◌,
}
use asset_discovery.Prelude.Map.{Map, insert}
use asset_discovery.Prelude.Text.{
  Text, is_empty, is_space, text, text_eq, text_eq→eq, to_lower, to_upper, trim_left, trim_space,
}
use mathlib.Core.List.{reverse, reverse-reverse}

abbrev pub is_hex : ℕ → Bool
is_hex c = is_digit c || is_upper_hex c

-- Hexadecimal digits, the letters in upper case.
abbrev pub UpperHex : Text → Type 0
UpperHex = All (λ c. is_hex c ≡ true)

-- A predicate holds of the result, if there is one.
abbrev WhenSome : (Text → Type 0) → Option Text → Type 0
WhenSome P none = Unit
WhenSome P (some t) = P t

prepend-UpperHex :
    (c : ℕ) (o : Option Text)
    → is_hex c ≡ true
    → WhenSome UpperHex o
    → WhenSome UpperHex (prepend c o)
prepend-UpperHex c none h w = tt
prepend-UpperHex c (some t) h w = (h, w)

hex_loop-UpperHex : (s : Text) → WhenSome UpperHex (hex_loop s)
unfolding hex_loop
hex_loop-UpperHex [] = tt
hex_loop-UpperHex (c ∷ s) =
    let rest = hex_loop-UpperHex s in
    elim (Bool-cases (is_separator c)) [
      | inl e ↦ rw e rest
      | inr e ↦ elim (Bool-cases (is_digit c)) [
        | inl f ↦ rw (e, f) (prepend-UpperHex c (hex_loop s) (rw f refl) rest)
        | inr f ↦ elim (Bool-cases (is_lower_hex c)) [
          | inl g ↦ rw (e, f, g) (prepend-UpperHex (c - 32) (hex_loop s) (ground (arith, g)) rest)
          | inr g ↦ elim (Bool-cases (is_upper_hex c)) [
            | inl k ↦ rw (e, f, g, k) (prepend-UpperHex c (hex_loop s) (rw (f, k) refl) rest)
            | inr k ↦ rw (e, f, g, k) tt
          ]
        ]
      ]
    ]

-- A prefix as the lookup keeps it: six to twelve such digits.
pub record IsPrefix (p : Text) : Type 0 where
  pub digits : UpperHex p
  pub at_least : 6 ≤ length p
  pub at_most : length p ≤ 12

normalize_prefix-IsPrefix : (s : Text) → WhenSome IsPrefix (normalize_prefix s)
unfolding normalize_prefix collect_hex
normalize_prefix-IsPrefix s =
    go (hex_loop (trim_space (trim_space s))) (hex_loop-UpperHex (trim_space (trim_space s)))
  where
    ranged : (t : Text) → UpperHex t → WhenSome IsPrefix (in_range (nonempty_text (some t)))
    ranged t h = elim (Bool-cases (is_empty t)) [
      | inl e ↦ rw e tt
      | inr e ↦ rw e (elim (Bool-cases (ltb (length t) 6 || ltb 12 (length t))) [
        | inl f ↦ rw f tt
        | inr f ↦
            rw f (record { digits = h; at_least = ground (arith, f); at_most = ground (arith, f) })
      ])
    ]

    go : (o : Option Text) → WhenSome UpperHex o → WhenSome IsPrefix (in_range (nonempty_text o))
    go none h = tt
    go (some t) h = ranged t h

trim_left-UpperHex : (t : Text) → UpperHex t → trim_left t ≡ t
unfolding trim_left is_space
trim_left-UpperHex [] h = refl
trim_left-UpperHex (c ∷ t) h = ground (arith, h.0)

UpperHex-append : (s t : Text) → UpperHex s → UpperHex t → UpperHex (s ++ t)
UpperHex-append [] t a b = b
UpperHex-append (c ∷ s) t a b = (a.0, UpperHex-append s t a.1 b)

UpperHex-reverse : (t : Text) → UpperHex t → UpperHex (reverse t)
UpperHex-reverse [] h = tt
UpperHex-reverse (c ∷ t) h =
    rw mathlib.Core.List.reverse-cons
      (UpperHex-append (reverse t) (c ∷ []) (UpperHex-reverse t h.1) (h.0, tt))

trim_space-UpperHex : (t : Text) → UpperHex t → trim_space t ≡ t
unfolding trim_space
trim_space-UpperHex t h =
    rw (trim_left-UpperHex t h, trim_left-UpperHex (reverse t) (UpperHex-reverse t h))
      (reverse-reverse t)

hex_loop-id : (t : Text) → UpperHex t → hex_loop t ≡ some t
unfolding hex_loop
hex_loop-id [] h = refl
hex_loop-id (c ∷ t) h = rw (hex_loop-id t h.1) (ground (arith, h.0))

-- The prefixes that normalizePrefix leaves as they are.
IsPrefix-normal : (t : Text) → IsPrefix t → normalize_prefix t ≡ some t
unfolding normalize_prefix collect_hex is_empty
IsPrefix-normal [] h = absurd (omega (arith, h.at_least))
IsPrefix-normal (c ∷ t) h =
    let trimmed = trim_space-UpperHex (c ∷ t) h.digits in
    rw (trimmed, trimmed, hex_loop-id (c ∷ t) h.digits) (ground (arith, h.at_least, h.at_most))

-- What every entry of the parser is: a prefix that normalizePrefix leaves as it is, and a vendor that is
-- neither empty nor "private" in any case.
pub record IsRegistered (e : Text × Text) : Type 0 where
  pub prefix : IsPrefix e.0
  pub normal : normalize_prefix e.0 ≡ some e.0
  pub named : is_empty e.1 ≡ false
  pub not_private : text_eq (to_lower e.1) (text "private") ≡ false

abbrev LineRegistered : ParsedLine → Type 0
LineRegistered (entry e) = IsRegistered (e.prefix, e.vendor)
LineRegistered skipped = Unit
LineRegistered malformed = Unit

with_prefix-Registered :
    (registry vendor : Text) (o : Option Text)
    → WhenSome IsPrefix o
    → LineRegistered (with_prefix registry vendor o)
with_prefix-Registered registry vendor none h = tt
with_prefix-Registered registry vendor (some p) h =
    elim (Bool-cases (is_empty vendor || text_eq (to_lower vendor) (text "private"))) [
      | inl e ↦ rw e tt
      | inr e ↦ rw e (record {
        prefix = h;
        normal = IsPrefix-normal p h;
        named = ground (arith, e);
        not_private = ground (arith, e);
      })
    ]

parse_row-Registered : (row : List Text) → LineRegistered (parse_row row)
unfolding parse_row
parse_row-Registered [] = tt
parse_row-Registered (r ∷ []) = tt
parse_row-Registered (r ∷ a ∷ []) = tt
parse_row-Registered (r ∷ a ∷ v ∷ more) =
    elim (Bool-cases (is_registry (to_upper (trim_space r)))) [
      | inr e ↦ rw e tt
      | inl e ↦ rw e (elim (Bool-cases (is_empty (trim_space a))) [
        | inl f ↦ rw f tt
        | inr f ↦ rw f (
            with_prefix-Registered (to_upper (trim_space r)) (clean_vendor v)
              (normalize_prefix (trim_space a)) (normalize_prefix-IsPrefix (trim_space a)))
      ])
    ]

parse_line-Registered : (csv : CsvReader) (raw : Text) → LineRegistered (parse_line csv raw)
unfolding parse_line parse_registry_csv_line
parse_line-Registered csv raw =
    elim (Bool-cases (is_empty (trim_space raw) || is_comment (trim_space raw))) [
      | inl e ↦ rw e tt
      | inr e ↦ rw e (go (split_registry_row csv (trim_space raw)))
    ]
  where
    go : (o : Option (List Text)) → LineRegistered (parse_fields o)
    go none = tt
    go (some row) = parse_row-Registered row

All-insert :
    (k v : Text) (m : Map Text)
    → IsRegistered (k, v)
    → All IsRegistered m
    → All IsRegistered (insert k v m)
unfolding insert
All-insert k v [] h a = (h, tt)
All-insert k v ((j, w) ∷ m) h a = elim (Bool-cases (text_eq j k)) [
  | inl e ↦
      rw e (mathlib.Core.Path.subst (λ t. IsRegistered (t, v)) (sym (text_eq→eq j k e)) h, a.1)
  | inr e ↦ rw e (a.0, All-insert k v m h a.1)
]

add_line-Registered :
    (p : Parsed) (l : ParsedLine)
    → LineRegistered l
    → All IsRegistered p.entries
    → All IsRegistered (add_line p l).entries
add_line-Registered p (entry e) h a = elim (Bool-cases (is_empty e.prefix)) [
  | inl f ↦ rw f a
  | inr f ↦ rw f (All-insert e.prefix e.vendor p.entries h a)
]
add_line-Registered p skipped h a = a
add_line-Registered p malformed h a = a

parse_lines-Registered :
    (csv : CsvReader) (lines : List Text) (p : Parsed)
    → All IsRegistered p.entries
    → All IsRegistered (parse_lines csv p lines).entries
unfolding parse_lines
parse_lines-Registered csv [] p a = a
parse_lines-Registered csv (l ∷ lines) p a =
    parse_lines-Registered csv lines (add_line p (parse_line csv l))
      (add_line-Registered p (parse_line csv l) (parse_line-Registered csv l) a)

-- Whatever the reader of CSV rows and the lines of the file, every entry that the parser keeps has a prefix of
-- six to twelve hexadecimal digits in upper case, which a second normalization leaves as it is, and a
-- vendor that is neither empty nor "private" in any case.
pub parse-Registered :
    (csv : CsvReader) (lines : List Text) → All IsRegistered (parse csv lines).entries
unfolding parse
parse-Registered csv lines =
    parse_lines-Registered csv lines (record { entries = []; errors = 0 }) tt

-- A row of any of the three registries, with a vendor that is kept, is an entry for every prefix of six to
-- twelve digits: the registry does not restrict the number of digits.
pub prefix_length_unchecked :
    (r p v : Text) (more : List Text)
    → IsPrefix p
    → is_registry (to_upper (trim_space r)) ≡ true
    → is_empty (clean_vendor v) ≡ false
    → text_eq (to_lower (clean_vendor v)) (text "private") ≡ false
    → parse_row (r ∷ p ∷ v ∷ more)
      ≡ entry (record { prefix = p; vendor = clean_vendor v; registry = to_upper (trim_space r) })
unfolding parse_row is_empty
prefix_length_unchecked r [] v more h k n m = absurd (omega (arith, h.at_least))
prefix_length_unchecked r (c ∷ p) v more h k n m =
    let same = trim_space-UpperHex (c ∷ p) h.digits in
    rw (same, k, IsPrefix-normal (c ∷ p) h, n, m) refl
