-- ===== src/Oui.antt =====
-- internal/oui/lookup.go, and the prefixes of parser.go: the vendor of a MAC address by the longest
-- prefix that is registered. A Go map of prefixes is a Map, and the error texts are left out.
pub mod Parser
pub mod Prefix
pub mod Tests
use asset_discovery.Prelude.{
  Bool, List, Option, [], if◌then◌else◌, leb, length, ltb, none, some, take, ℕ, ◌&&◌, ◌++◌, ◌-◌,
  ◌==◌, ◌||◌, ◌∷◌,
}
use asset_discovery.Prelude.Map.{Map, insert, lookup}
use asset_discovery.Prelude.Text.{Text, fields, is_empty, trim_space}

abbrev pub is_separator : ℕ → Bool
is_separator c = c == 58 || c == 45 || c == 46

abbrev pub is_digit : ℕ → Bool
is_digit c = leb 48 c && leb c 57

abbrev pub is_lower_hex : ℕ → Bool
is_lower_hex c = leb 97 c && leb c 102

abbrev pub is_upper_hex : ℕ → Bool
is_upper_hex c = leb 65 c && leb c 70

abbrev pub prepend : ℕ → Option Text → Option Text
prepend c none = none
prepend c (some t) = some (c ∷ t)

-- The loop of collectHex; none where it meets another character.
unfoldable pub hex_loop : Text → Option Text
hex_loop [] = some []
hex_loop (c ∷ cs) =
    let rest = hex_loop cs in
    if is_separator c
    then rest
    else if is_digit c
    then prepend c rest
    else if is_lower_hex c
    then prepend (c - 32) rest
    else if is_upper_hex c
    then prepend c rest
    else none

abbrev pub nonempty_text : Option Text → Option Text
nonempty_text none = none
nonempty_text (some t) = if is_empty t then none else some t

unfoldable pub collect_hex : Text → Option Text
unfolding hex_loop
collect_hex input = nonempty_text (hex_loop (trim_space input))

abbrev pub in_range : Option Text → Option Text
in_range none = none
in_range (some hex) = if ltb (length hex) 6 || ltb 12 (length hex) then none else some hex

-- none for an error
unfoldable pub normalize_prefix : Text → Option Text
unfolding collect_hex
normalize_prefix input = in_range (collect_hex (trim_space input))

abbrev pub whole : Option Text → Option Text
whole none = none
whole (some hex) = if length hex == 12 then some hex else none

unfoldable pub normalize_mac : Text → Option Text
unfolding collect_hex
normalize_mac input = whole (collect_hex input)

-- strings.Join with a space
unfoldable pub join_spaces : List Text → Text
join_spaces [] = []
join_spaces (w ∷ []) = w
join_spaces (w ∷ v ∷ ws) = w ++ 32 ∷ join_spaces (v ∷ ws)

unfoldable pub clean_vendor : Text → Text
unfolding fields join_spaces
clean_vendor vendor = join_spaces (fields (trim_space vendor))

pub record Lookup : Type 0 where
  pub entries : Map Text
  pub prefix_lens : List ℕ

-- The lengths in descending order, each once.
unfoldable pub insert_length : ℕ → List ℕ → List ℕ
insert_length n [] = n ∷ []
insert_length n (m ∷ ms) =
    let rest = insert_length n ms in
    if n == m then m ∷ ms else if ltb m n then n ∷ m ∷ ms else m ∷ rest

abbrev pub add_normalized : Lookup → Text → Option Text → Lookup
add_normalized l vendor none = l
add_normalized l vendor (some norm) = if is_empty vendor then l else record {
  entries = insert norm (clean_vendor vendor) l.entries;
  prefix_lens = insert_length (length norm) l.prefix_lens;
}

-- One round of the loop of NewLookup.
unfoldable pub add_entry : Lookup → Text → Text → Lookup
unfolding normalize_prefix clean_vendor insert_length
add_entry l prefix vendor = add_normalized l vendor (normalize_prefix prefix)

unfoldable pub add_entries : Lookup → Map Text → Lookup
unfolding add_entry
add_entries l [] = l
add_entries l ((prefix, vendor) ∷ entries) = add_entries (add_entry l prefix vendor) entries

-- NewLookup, for the order in which Go happens to walk the map.
unfoldable pub new_lookup : Map Text → Lookup
unfolding add_entries
new_lookup entries = add_entries (record { entries = []; prefix_lens = [] }) entries

abbrev pub or_else : Option Text → Option Text → Option Text
or_else none d = d
or_else (some v) d = some v

-- The loop over the lengths; a prefix is cut from twelve characters, so it is never out of range.
unfoldable pub longest_match : Map Text → Text → List ℕ → Option Text
longest_match entries norm [] = none
longest_match entries norm (n ∷ ns) =
    or_else (lookup (take n norm) entries) (longest_match entries norm ns)

abbrev pub match_normalized : Lookup → Option Text → Option Text
match_normalized l none = none
match_normalized l (some norm) = longest_match l.entries norm l.prefix_lens

-- VendorForMAC of a lookup that is not nil.
unfoldable pub vendor_for_mac : Lookup → Text → Option Text
unfolding normalize_mac longest_match
vendor_for_mac l mac = if is_empty l.entries then none else match_normalized l (normalize_mac mac)
