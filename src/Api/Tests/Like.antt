-- ===== src/Api/Tests/Like.antt =====
-- A LIKE as SQLite documents it: `%` stands for any text, `_` for one character, and the case of ASCII
-- letters makes no difference.
use asset_discovery.Prelude.{
  Bool, [], arith, false, if◌then◌else◌, refl, true, ℕ, ◌&&◌, ◌++◌, ◌==◌, ◌||◌, ◌∷◌, ◌≡◌,
}
use asset_discovery.Prelude.Text.{Text, contains, has_prefix, is_empty, text, text_eq, to_lower}
use asset_discovery.Prelude.Text.Decimal.{absent}
use asset_discovery.Storage.{Codec}
use asset_discovery.Storage.Tests.{codec}
use asset_discovery.Api.Search.{LikeLaw}

-- One of the suffixes of the text, from the whole to the empty one.
unfoldable pub any_suffix : (Text → Bool) → Text → Bool
any_suffix f [] = f []
any_suffix f (c ∷ s) = f (c ∷ s) || any_suffix f s

abbrev matches_byte : ℕ → ℕ → Bool
matches_byte p c = p == b'_' || text_eq (to_lower (p ∷ [])) (to_lower (c ∷ []))

abbrev like_byte : ℕ → (Text → Bool) → Text → Bool
like_byte p f [] = false
like_byte p f (c ∷ s) = matches_byte p c && f s

unfoldable pub like : Text → Text → Bool
unfolding any_suffix
like [] s = is_empty s
like (p ∷ ps) s = if p == b'%' then any_suffix (like ps) s else like_byte p (like ps) s

like-percent : (s : Text) → like (text "%") s ≡ true
unfolding like any_suffix is_empty
like-percent [] = refl
like-percent (c ∷ s) = ground (arith, like-percent s)

like-prefix :
    (q s : Text)
    → absent b'%' q ≡ true
    → absent b'_' q ≡ true
    → like (q ++ text "%") s ≡ has_prefix (to_lower s) (to_lower q)
unfolding like has_prefix to_lower absent text_eq
like-prefix [] s h k = like-percent s
like-prefix (p ∷ q) [] h k = ground arith
like-prefix (p ∷ q) (c ∷ s) h k = ground (arith, like-prefix q s)

any_suffix-contains :
    (q s : Text)
    → absent b'%' q ≡ true
    → absent b'_' q ≡ true
    → any_suffix (like (q ++ text "%")) s ≡ contains (to_lower s) (to_lower q)
unfolding any_suffix contains to_lower
any_suffix-contains q [] h k = like-prefix q [] h k
any_suffix-contains q (c ∷ s) h k = rw (like-prefix q (c ∷ s) h k, any_suffix-contains q s h k) refl

-- The codec of the tests with this LIKE.
abbrev pub searching : Codec
searching = record codec { like = like }

pub searching-LikeLaw : LikeLaw searching
unfolding like
searching-LikeLaw q s h k = any_suffix-contains q s h k
