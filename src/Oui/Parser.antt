-- ===== src/Oui/Parser.antt =====
-- internal/oui/parser.go: the rows of the IEEE registry. encoding/csv is not in the repository: the
-- reader of one row is a parameter, none for its error. Parse takes the lines that its scanner
-- delivers, each of at most a megabyte; line numbers and the texts of the errors are left out.
pub mod Rows
use asset_discovery.Analyzer.Names.{cut_at}
use asset_discovery.Oui.{clean_vendor, normalize_prefix}
use asset_discovery.Prelude.{
  All, Bool, Bool-cases, List, Option, Option-cases, [], ap, arith, drop, false, get_elem?, Gives,
  if◌then◌else◌, inl, inr, leb, leb→le, length, length-append, length-drop, length-take, lt→ltb,
  ltb, ltb→lt, map, none, not, refl, some, suc, sym, take, take-append-drop, true, zero, ==_iff, ℕ,
  ◌%◌, ◌&&◌, ◌*◌, ◌++◌, ◌+◌, ◌-◌, ◌/◌, ◌<◌, ◌==◌, ◌^◌, ◌||◌, ◌↔◌, ◌∙◌, ◌∷◌, ◌≡◌, ◌≢◌, ◌≤◌, ◌⊎◌,
}
use asset_discovery.Prelude.Map.{Map, insert}
use asset_discovery.Prelude.Text.{
  Text, has_prefix, is_empty, text, text_eq, to_lower, to_upper, trim_space,
}

abbrev pub CsvReader : Type 0
CsvReader = Text → Option (List Text)

pub record ParsedEntry : Type 0 where
  pub prefix : Text
  pub vendor : Text
  pub registry : Text

-- What a line becomes: an entry, no entry or an error.
pub data ParsedLine : Type 0 where
  entry : ParsedEntry → ParsedLine
  skipped : ParsedLine
  malformed : ParsedLine

abbrev pub is_registry : Text → Bool
is_registry s = text_eq s (text "MA-L") || (text_eq s (text "MA-M") || text_eq s (text "MA-S"))

-- The text before the first comma, if there are two commas.
unfoldable pub first_of_three : Text → Option Text
unfolding cut_at
first_of_three line = elim (cut_at 44 line) [
  | none ↦ none
  | some (k, v) ↦ elim (cut_at 44 v) [ none ↦ none | some w ↦ some k ]
]

abbrev pub read_row : CsvReader → Text → Option Text → Option (List Text)
read_row csv line none = some []
read_row csv line (some first) =
    let head = to_upper (trim_space first) in
    let row = csv line in
    if text_eq head (text "REGISTRY") || is_registry head then row else some []

-- splitRegistryRow
unfoldable pub split_registry_row : CsvReader → Text → Option (List Text)
unfolding first_of_three to_upper trim_space text_eq
split_registry_row csv line = read_row csv line (first_of_three line)

abbrev pub with_prefix : Text → Text → Option Text → ParsedLine
with_prefix registry vendor none = malformed
with_prefix registry vendor (some prefix) =
    if is_empty vendor || text_eq (to_lower vendor) (text "private")
    then skipped
    else entry (record { prefix = prefix; vendor = vendor; registry = registry })

-- What parseRegistryCSVLine makes of a row of fields.
unfoldable pub parse_row : List Text → ParsedLine
unfolding normalize_prefix clean_vendor to_upper to_lower trim_space text_eq is_empty
parse_row (r ∷ a ∷ v ∷ more) =
    let registry = to_upper (trim_space r) in
    let assignment = trim_space a in
    let row = with_prefix registry (clean_vendor v) (normalize_prefix assignment) in
    if not (is_registry registry) then skipped else if is_empty assignment then malformed else row
parse_row _ = skipped

abbrev pub parse_fields : Option (List Text) → ParsedLine
parse_fields none = malformed
parse_fields (some row) = parse_row row

-- parseRegistryCSVLine
unfoldable pub parse_registry_csv_line : CsvReader → Text → ParsedLine
unfolding split_registry_row parse_row
parse_registry_csv_line csv line = parse_fields (split_registry_row csv line)

abbrev pub is_comment : Text → Bool
is_comment line =
    has_prefix line (text "#") || (has_prefix line (text ";") || has_prefix line (text "//"))

-- parseLine
unfoldable pub parse_line : CsvReader → Text → ParsedLine
unfolding parse_registry_csv_line has_prefix is_empty trim_space
parse_line csv raw =
    let line = trim_space raw in
    if is_empty line || is_comment line then skipped else parse_registry_csv_line csv line

-- The entries and the number of malformed lines.
pub record Parsed : Type 0 where
  pub entries : Map Text
  pub errors : ℕ

-- An entry without a prefix is skipped.
abbrev pub add_line : Parsed → ParsedLine → Parsed
add_line p (entry e) =
    if is_empty e.prefix then p else record p { entries = insert e.prefix e.vendor p.entries }
add_line p skipped = p
add_line p malformed = record p { errors = p.errors + 1 }

unfoldable pub parse_lines : CsvReader → Parsed → List Text → Parsed
unfolding parse_line insert
parse_lines csv p [] = p
parse_lines csv p (l ∷ ls) = parse_lines csv (add_line p (parse_line csv l)) ls

-- Parse
unfoldable pub parse : CsvReader → List Text → Parsed
unfolding parse_lines
parse csv lines = parse_lines csv (record { entries = []; errors = 0 }) lines

-- prefixMatchesRegistry, which nothing calls
unfoldable pub prefix_matches_registry : Text → Text → Bool
prefix_matches_registry prefix registry =
    let n = length prefix in
    if text_eq registry (text "MA-L")
    then n == 6
    else if text_eq registry (text "MA-M")
    then n == 6 || n == 8
    else if text_eq registry (text "MA-S")
    then leb 6 n && leb n 12
    else false
