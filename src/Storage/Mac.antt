-- ===== src/Storage/Mac.antt =====
-- net.ParseMAC, with which internal/storage/sqlite.go reads the column mac.
use asset_discovery.Asset.Identity.{hex_digit, mac_string, mac_tail}
use asset_discovery.Asset.Types.{Mac}
use asset_discovery.Prelude.{
  All, Bool, Option, [], ap, arith, get_elem?, if◌then◌else◌, leb, length, none, refl, some, true,
  ℕ, ◌%◌, ◌&&◌, ◌*◌, ◌+◌, ◌-◌, ◌/◌, ◌<◌, ◌==◌, ◌||◌, ◌∷◌, ◌≡◌,
}
use asset_discovery.Prelude.Text.{Text}

-- A hexadecimal digit of either case.
unfoldable pub hex_value : ℕ → Option ℕ
hex_value c =
    if leb 48 c && leb c 57
    then some (c - 48)
    else if leb 97 c && leb c 102
    then some (c - 87)
    else if leb 65 c && leb c 70
    then some (c - 55)
    else none

abbrev pub hex_pair : Option ℕ → Option ℕ → Option ℕ
hex_pair none l = none
hex_pair (some h) none = none
hex_pair (some h) (some l) = some (h * 16 + l)

abbrev pub cons_byte : Option ℕ → Option Mac → Option Mac
cons_byte none m = none
cons_byte (some b) none = none
cons_byte (some b) (some m) = some (b ∷ m)

-- Pairs of digits with the byte e between them.
unfoldable pub paired_bytes : ℕ → Text → Option Mac
unfolding hex_value
paired_bytes e (a ∷ b ∷ []) = cons_byte (hex_pair (hex_value a) (hex_value b)) (some [])
paired_bytes e (a ∷ b ∷ c ∷ s) =
    let rest = paired_bytes e s in
    if c == e then cons_byte (hex_pair (hex_value a) (hex_value b)) rest else none
paired_bytes e s = none

-- Groups of four digits with dots between them.
unfoldable pub dotted_bytes : Text → Option Mac
unfolding hex_value
dotted_bytes (a ∷ b ∷ c ∷ d ∷ []) =
    cons_byte (hex_pair (hex_value a) (hex_value b))
      (cons_byte (hex_pair (hex_value c) (hex_value d)) (some []))
dotted_bytes (a ∷ b ∷ c ∷ d ∷ e ∷ s) =
    let rest = dotted_bytes s in
    if e == 46
    then cons_byte (hex_pair (hex_value a) (hex_value b))
        (cons_byte (hex_pair (hex_value c) (hex_value d)) rest)
    else none
dotted_bytes s = none

-- The lengths of an EUI-48, an EUI-64 and an IP over InfiniBand address.
abbrev pub is_mac_length : ℕ → Bool
is_mac_length n = n == 6 || (n == 8 || n == 20)

-- nil for an error
abbrev pub sized : Option Mac → Mac
sized none = []
sized (some m) = if is_mac_length (length m) then m else []

abbrev pub at_or_zero : Option ℕ → ℕ
at_or_zero none = 0
at_or_zero (some c) = c

unfoldable pub parse_mac : Text → Mac
unfolding paired_bytes dotted_bytes
parse_mac s =
    let e = at_or_zero (get_elem? s 2) in
    if e == 58 || e == 45
    then sized (paired_bytes e s)
    else if at_or_zero (get_elem? s 4) == 46
    then sized (dotted_bytes s)
    else []

-- An address that prints to a text that ParseMAC reads: its length, and its bytes.
pub record IsHardware (m : Mac) : Type 0 where
  pub size : is_mac_length (length m) ≡ true
  pub bytes : All (λ b. b < 256) m

hex_value-hex_digit : (n : ℕ) → n < 16 → hex_value (hex_digit n) ≡ some n
unfolding hex_value hex_digit
hex_value-hex_digit n h = ground arith

hex_pair-byte :
    (b : ℕ)
    → b < 256
    → hex_pair (hex_value (hex_digit (b / 16))) (hex_value (hex_digit (b % 16))) ≡ some b
hex_pair-byte b h =
    rw (hex_value-hex_digit (b / 16) (omega arith), hex_value-hex_digit (b % 16) (omega arith))
      (ap some (omega arith))

paired_bytes-tail :
    (b : ℕ) (m : Mac)
    → b < 256
    → All (λ c. c < 256) m
    → paired_bytes 58 (mac_string (b ∷ m)) ≡ some (b ∷ m)
unfolding paired_bytes mac_string mac_tail
paired_bytes-tail b [] h hs = rw (hex_pair-byte b h) refl
paired_bytes-tail b (c ∷ m) h hs = rw (hex_pair-byte b h, paired_bytes-tail c m hs.0 hs.1) refl

-- ParseMAC reads what HardwareAddr.String prints.
pub parse_mac-mac_string : (m : Mac) → IsHardware m → parse_mac (mac_string m) ≡ m
unfolding parse_mac mac_string
parse_mac-mac_string [] h = refl
parse_mac-mac_string (b ∷ []) h = absurd (let e = h.size in cc)
parse_mac-mac_string (b ∷ c ∷ m) h =
    rw (paired_bytes-tail b (c ∷ m) h.bytes.0 h.bytes.1) (rw h.size refl)
