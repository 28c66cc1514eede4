-- ===== src/Prelude/Text/Order.antt =====
-- The order of strings by their bytes, as Go's `<` and SQLite's BINARY collation have it.
use asset_discovery.Prelude.{Bool, true, false, [], ◌∷◌, ◌==◌, ltb, if◌then◌else◌}
use asset_discovery.Prelude.Text.{Text}

-- a < b
unfoldable pub text_ltb : Text → Text → Bool
text_ltb a [] = false
text_ltb [] (b ∷ bt) = true
text_ltb (a ∷ at) (b ∷ bt) = if a == b then text_ltb at bt else ltb a b
