-- ===== src/Analyzer/Net.antt =====
-- Addresses: the predicates of internal/analyzer/util.go, NormalizeIPv4Addr and CloneMAC of
-- internal/asset/util.go, with what they use of the package net. A nil slice is the empty one.

use asset_discovery.Asset.Types.{Mac}
use asset_discovery.Prelude.{
  Bool, List, Option, [], drop, false, if◌then◌else◌, length, none, not, some, take, true, ℕ, ◌%◌,
  ◌&&◌, ◌++◌, ◌/◌, ◌==◌, ◌||◌, ◌∷◌,
}
use asset_discovery.Prelude.Text.{Text, itoa, text_eq}

unfoldable pub any_nonzero : List ℕ → Bool
any_nonzero [] = false
any_nonzero (b ∷ bs) = not (b == 0) || any_nonzero bs

unfoldable pub all_equal : ℕ → List ℕ → Bool
all_equal v [] = true
all_equal v (b ∷ bs) = b == v && all_equal v bs

-- isUsableMAC
unfoldable pub is_usable : Mac → Bool
unfolding any_nonzero
is_usable mac = length mac == 6 && any_nonzero mac

-- isBroadcastMAC
unfoldable pub is_broadcast : Mac → Bool
unfolding all_equal
is_broadcast mac = length mac == 6 && all_equal 255 mac

-- isLocallyAdministeredMAC: bit 1 of the first byte
unfoldable pub is_locally_administered : Mac → Bool
is_locally_administered [] = false
is_locally_administered (b ∷ mac) = b / 2 % 2 == 1

unfoldable pub bytes_eq : List ℕ → List ℕ → Bool
unfolding text_eq
bytes_eq a b = text_eq a b

-- To4 of a net.IP: four bytes, or the sixteen of an IPv4-mapped address.
unfoldable pub to4 : List ℕ → Option (List ℕ)
unfolding all_equal
to4 ip =
    if length ip == 4
    then some ip
    else if (length ip == 16 && all_equal 0 (take 10 ip)) && all_equal 255 (take 2 (drop 10 ip))
    then some (drop 12 ip)
    else none

-- The bytes in decimal, with dots between.
unfoldable pub dotted : List ℕ → Text
dotted [] = []
dotted (b ∷ []) = itoa b
dotted (b ∷ c ∷ bs) = itoa b ++ 46 ∷ dotted (c ∷ bs)

abbrev pub dotted_or_empty : Option (List ℕ) → Text
dotted_or_empty none = []
dotted_or_empty (some v4) = dotted v4

unfoldable pub normalize_ipv4 : List ℕ → Text
unfolding to4 dotted
normalize_ipv4 ip = dotted_or_empty (to4 ip)

abbrev pub all_zero : Option (List ℕ) → Bool
all_zero none = false
all_zero (some v4) = all_equal 0 v4

-- IsUnspecified
unfoldable pub is_unspecified : List ℕ → Bool
unfolding all_equal to4
is_unspecified ip = all_zero (to4 ip) || (length ip == 16 && all_equal 0 ip)
