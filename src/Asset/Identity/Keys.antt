-- ===== src/Asset/Identity/Keys.antt =====
-- A MAC address is determined by its printed form and by its key.
use asset_discovery.Asset.Identity.{
  generate_asset_id, hex_digit, mac_key, mac_string, mac_tail, shard_count, shard_index,
}
use asset_discovery.Asset.Types.{Mac}
use asset_discovery.Prelude.{
  Bool, [], ap, arith, leb, not, refl, sym, true, ℕ, ◌%◌, ◌&&◌, ◌++◌, ◌/◌, ◌<◌, ◌∙◌, ◌∷◌, ◌≡◌, ◌↔◌,
}
use asset_discovery.Prelude.Text.{Text, is_empty, text, to_lower}

hex_digit_inj : (m n : ℕ) → hex_digit m ≡ hex_digit n → m ≡ n
unfolding hex_digit
hex_digit_inj m n e = ground arith

hex_pair_inj :
    (a b : ℕ)
    → hex_digit (a / 16) ≡ hex_digit (b / 16)
    → hex_digit (a % 16) ≡ hex_digit (b % 16)
    → a ≡ b
hex_pair_inj a b h l =
    omega (arith, hex_digit_inj (a / 16) (b / 16) h, hex_digit_inj (a % 16) (b % 16) l)

mac_tail_inj : (a b : Mac) → mac_tail a ≡ mac_tail b → a ≡ b
unfolding mac_tail
mac_tail_inj [] [] e = refl
mac_tail_inj [] (y ∷ b) e = cc
mac_tail_inj (x ∷ a) [] e = cc
mac_tail_inj (x ∷ a) (y ∷ b) e = cc (hex_pair_inj x y (cc) (cc), mac_tail_inj a b (cc))

-- net.HardwareAddr.String is injective.
pub mac_string_inj : (a b : Mac) → mac_string a ≡ mac_string b → a ≡ b
unfolding mac_string
mac_string_inj [] [] e = refl
mac_string_inj [] (y ∷ b) e = cc
mac_string_inj (x ∷ a) [] e = cc
mac_string_inj (x ∷ a) (y ∷ b) e = cc (hex_pair_inj x y (cc) (cc), mac_tail_inj a b (cc))

-- No byte of the text is an upper-case letter.
no_upper : Text → Bool
no_upper [] = true
no_upper (c ∷ s) = not (leb b'A' c && leb c b'Z') && no_upper s

to_lower_same : (s : Text) → no_upper s ≡ true → to_lower s ≡ s
unfolding no_upper to_lower
to_lower_same [] h = refl
to_lower_same (c ∷ s) h = ground (arith, to_lower_same s)

no_upper-hex_digit : (n : ℕ) → not (leb b'A' (hex_digit n) && leb (hex_digit n) b'Z') ≡ true
unfolding hex_digit
no_upper-hex_digit n = ground arith

no_upper-mac_tail : (mac : Mac) → no_upper (mac_tail mac) ≡ true
unfolding no_upper mac_tail
no_upper-mac_tail [] = refl
no_upper-mac_tail (b ∷ mac) =
    rw (no_upper-hex_digit (b / 16), no_upper-hex_digit (b % 16), no_upper-mac_tail mac)

no_upper-mac_string : (mac : Mac) → no_upper (mac_string mac) ≡ true
unfolding no_upper mac_string
no_upper-mac_string [] = refl
no_upper-mac_string (b ∷ mac) =
    rw (no_upper-hex_digit (b / 16), no_upper-hex_digit (b % 16), no_upper-mac_tail mac)

-- The key of a MAC address is its printed form behind "mac:".
pub mac_key-cons : (b : ℕ) (mac : Mac) → mac_key (b ∷ mac) ≡ text "mac:" ++ mac_string (b ∷ mac)
unfolding mac_key is_empty
mac_key-cons b mac = ap (λ s. text "mac:" ++ s) (to_lower_same _ (no_upper-mac_string (b ∷ mac)))

append_left_inj : (a b : Text) → text "mac:" ++ a ≡ text "mac:" ++ b → a ≡ b
append_left_inj a b e = cc

generate_asset_id_inj : (a b : Mac) → generate_asset_id a ≡ generate_asset_id b → a ≡ b
unfolding generate_asset_id
generate_asset_id_inj [] [] e = refl
generate_asset_id_inj [] (y ∷ b) e = unfold mac_key is_empty in cc
generate_asset_id_inj (x ∷ a) [] e = unfold mac_key is_empty in cc
generate_asset_id_inj (x ∷ a) (y ∷ b) e =
    mac_string_inj (x ∷ a) (y ∷ b)
      (append_left_inj _ _ (sym (mac_key-cons x a) ∙ e ∙ mac_key-cons y b))

pub is_empty-mac_key : (mac : Mac) → is_empty (mac_key mac) ≡ is_empty mac
unfolding mac_key is_empty
is_empty-mac_key [] = refl
is_empty-mac_key (b ∷ mac) = refl

-- Two addresses have one asset id exactly when they are equal, and only the empty address has the
-- empty id.
pub generate_asset_id_faithful :
    (a b : Mac)
    → ((generate_asset_id a ≡ generate_asset_id b) ↔ (a ≡ b))
      × (is_empty (generate_asset_id a) ≡ is_empty a)
unfolding generate_asset_id
generate_asset_id_faithful a b =
    ((generate_asset_id_inj a b, λ e. ap generate_asset_id e), is_empty-mac_key a)

pub shard_index-lt : (mac : Mac) → shard_index mac < shard_count
unfolding shard_index
shard_index-lt mac = ground arith
