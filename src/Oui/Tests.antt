-- ===== src/Oui/Tests.antt =====
-- The vendor lookup at a small registry.
use asset_discovery.Oui.{collect_hex, new_lookup, normalize_mac, vendor_for_mac}
use asset_discovery.Oui.Prefix.{Longest, vendor_for_mac-Longest}
use asset_discovery.Prelude.{
  All, Bool, Bool-cases, List, Option, Option-cases, [], ap, arith, drop, false, get_elem?, Gives,
  if◌then◌else◌, inl, inr, leb, leb→le, length, length-append, length-drop, length-take, lt→ltb,
  ltb, ltb→lt, map, none, not, refl, some, suc, sym, take, take-append-drop, true, zero, ==_iff, ℕ,
  ◌%◌, ◌&&◌, ◌*◌, ◌++◌, ◌+◌, ◌-◌, ◌/◌, ◌<◌, ◌==◌, ◌^◌, ◌||◌, ◌↔◌, ◌∙◌, ◌∷◌, ◌≡◌, ◌≢◌, ◌≤◌, ◌⊎◌,
}
use asset_discovery.Prelude.Map.{Map}
use asset_discovery.Prelude.Text.{Text, is_empty, text, text_eq, to_lower, to_upper, trim_space}
use asset_discovery.Oui.Parser.{CsvReader, parse, prefix_matches_registry}
use asset_discovery.Oui.Parser.Rows.{IsRegistered, parse-Registered}

abbrev registry : Map Text
registry = (text "286FB9", text "Nokia") ∷ (text "28-6F-B9-A", text "Sub  Block") ∷ []

longest_prefix_wins :
    vendor_for_mac (new_lookup registry) (text "28:6f:b9:a1:22:33") ≡ some (text "Sub Block")
unfolding vendor_for_mac new_lookup asset_discovery.Prelude.Map.lookup
    asset_discovery.Prelude.Map.insert asset_discovery.Prelude.Text.text_eq
    asset_discovery.Prelude.Text.is_empty trim_space asset_discovery.Prelude.Text.is_space
longest_prefix_wins = refl

vendor_for_mac-Longest_example :
    Longest
      (new_lookup registry).entries
      (text "286FB9A12233")
      (vendor_for_mac (new_lookup registry) (text "28:6f:b9:a1:22:33"))
unfolding normalize_mac collect_hex trim_space asset_discovery.Prelude.Text.is_empty
vendor_for_mac-Longest_example =
    vendor_for_mac-Longest registry (text "28:6f:b9:a1:22:33") (text "286FB9A12233") refl

-- A reader that splits one row.
abbrev one_row : CsvReader
one_row line = some (text "MA-L" ∷ text "28-6f-b9-a1-22-33" ∷ text "Nokia" ∷ [])

parse-Registered_example :
    All IsRegistered (parse one_row (text "MA-L,28-6f-b9-a1-22-33,Nokia" ∷ [])).entries
parse-Registered_example = parse-Registered one_row (text "MA-L,28-6f-b9-a1-22-33,Nokia" ∷ [])

-- The check that the parser does not make.
long_assignment_mismatched : prefix_matches_registry (text "286FB9A12233") (text "MA-L") ≡ false
unfolding prefix_matches_registry text_eq
long_assignment_mismatched = refl
