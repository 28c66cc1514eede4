-- ===== src/Analyzer/Ipv6.antt =====
-- NormalizeIPv6Addr of internal/asset/util.go, with what it uses of the package net: the text of an
-- IPv6 address (lower-case groups, the first longest run of at least two zero groups as "::").
use asset_discovery.Analyzer.Net.{to4}
use asset_discovery.Asset.Identity.{hex_digit}
use asset_discovery.Prelude.{
  Bool, List, Option, [], false, if◌then◌else◌, length, leb, ltb, none, some, suc, true, zero, ℕ,
  ◌%◌, ◌&&◌, ◌*◌, ◌++◌, ◌+◌, ◌/◌, ◌==◌, ◌||◌, ◌∷◌,
}
use asset_discovery.Prelude.Text.{Text}

-- The groups of sixteen bits.
unfoldable pub groups : List ℕ → List ℕ
groups (a ∷ b ∷ bs) = (a * 256 + b) ∷ groups bs
groups _ = []

-- A group in hexadecimal, without zeros in front.
unfoldable pub group_text : ℕ → Text
unfolding hex_digit
group_text g =
    let d3 = hex_digit (g / 4096) in
    let d2 = hex_digit (g / 256 % 16) in
    let d1 = hex_digit (g / 16 % 16) in
    let d0 = hex_digit (g % 16) in
    if leb 4096 g
    then d3 ∷ d2 ∷ d1 ∷ d0 ∷ []
    else if leb 256 g
    then d2 ∷ d1 ∷ d0 ∷ []
    else if leb 16 g
    then d1 ∷ d0 ∷ []
    else d0 ∷ []

-- The number of zero groups in front.
unfoldable pub zero_run : List ℕ → ℕ
zero_run [] = 0
zero_run (g ∷ gs) = let rest = zero_run gs in if g == 0 then suc rest else 0

-- The place and the length of the first longest run of zeros, from place i on, given the longest
-- before it.
unfoldable pub longest_zeros : ℕ → List ℕ → ℕ × ℕ → ℕ × ℕ
unfolding zero_run
longest_zeros i [] best = best
longest_zeros i (g ∷ gs) (at, len) =
    let n = zero_run (g ∷ gs) in
    longest_zeros (i + 1) gs (if leb 2 n && ltb len n then (i, n) else (at, len))

-- The groups from place i on; a run of zeros of length `len` at place `at` is left out.
unfoldable pub print_groups : ℕ → ℕ × ℕ → List ℕ → Text
unfolding group_text
print_groups i run [] = []
print_groups i (at, len) (g ∷ gs) =
    let rest = print_groups (i + 1) (at, len) gs in
    if leb 2 len && (leb at i && ltb i (at + len))
    then (if i == at then 58 ∷ 58 ∷ rest else rest)
    else if i == 0 || (leb 2 len && i == at + len)
    then group_text g ++ rest
    else 58 ∷ group_text g ++ rest

-- The text of an address of sixteen bytes.
unfoldable pub ipv6_text : List ℕ → Text
unfolding groups longest_zeros print_groups
ipv6_text ip = let gs = groups ip in print_groups 0 (longest_zeros 0 gs (0, 0)) gs

abbrev pub not_mapped : Option (List ℕ) → Bool
not_mapped none = true
not_mapped (some v4) = false

-- NormalizeIPv6Addr: the empty text for an address that is none of IPv6
unfoldable pub normalize_ipv6 : List ℕ → Text
unfolding to4 ipv6_text
normalize_ipv6 ip = if length ip == 16 && not_mapped (to4 ip) then ipv6_text ip else []

abbrev pub byte_at : ℕ → List ℕ → ℕ
byte_at i [] = 0
byte_at zero (b ∷ bs) = b
byte_at (suc i) (b ∷ bs) = byte_at i bs

abbrev pub link_local4 : Option (List ℕ) → List ℕ → Bool
link_local4 (some v4) ip = byte_at 0 v4 == 169 && byte_at 1 v4 == 254
link_local4 none ip = (length ip == 16 && byte_at 0 ip == 254) && byte_at 1 ip / 64 == 2

-- IsLinkLocalUnicast
unfoldable pub is_link_local : List ℕ → Bool
unfolding to4
is_link_local ip = link_local4 (to4 ip) ip
