-- ===== src/Analyzer/Names.antt =====
-- trimLocal, splitKV and portKey of internal/analyzer/util.go.
use asset_discovery.Prelude.{Option, [], if◌then◌else◌, none, some, ℕ, ◌==◌, ◌∷◌}
use asset_discovery.Prelude.Text.{Text, is_empty, itoa, text, to_lower, trim_space, trim_suffix}

unfoldable pub trim_local : Text → Text
unfolding trim_space trim_suffix to_lower
trim_local name = trim_suffix (to_lower (trim_suffix (trim_space name) (text "."))) (text ".local")

abbrev pub cut_cons : ℕ → Option (Text × Text) → Option (Text × Text)
cut_cons c none = none
cut_cons c (some (k, v)) = some (c ∷ k, v)

-- The text before and after the first byte c, if there is one.
unfoldable pub cut_at : ℕ → Text → Option (Text × Text)
cut_at c [] = none
cut_at c (b ∷ s) = let rest = cut_at c s in if b == c then some ([], s) else cut_cons b rest

abbrev pub or_whole : Text → Option (Text × Text) → Text × Text
or_whole s none = (s, [])
or_whole s (some kv) = kv

-- Key and value of a line, if it is not blank.
unfoldable pub split_kv : Text → Option (Text × Text)
unfolding cut_at
split_kv b = let s = trim_space b in if is_empty s then none else some (or_whole s (cut_at 61 s))

unfoldable pub port_key : ℕ → Text
port_key p = itoa p
