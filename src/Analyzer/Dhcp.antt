-- ===== src/Analyzer/Dhcp.antt =====
-- internal/utils/dhcp.go: the options of a DHCPv4 message. A nil slice is the empty one.
use asset_discovery.Asset.Types.{Mac}
use asset_discovery.Prelude.{
  List, Option, [], if◌then◌else◌, length, ltb, none, some, take, ℕ, ◌==◌, ◌∷◌,
}

pub record DhcpOption : Type 0 where
  pub code : ℕ
  pub payload : List ℕ

pub record Dhcpv4 : Type 0 where
  pub client_hw : Mac
  pub your_client_ip : List ℕ
  pub client_ip : List ℕ
  pub options : List DhcpOption

-- FindDHCPOption: the data of the first option of that code
unfoldable pub find_option : ℕ → List DhcpOption → Option (List ℕ)
find_option code [] = none
find_option code (o ∷ os) =
    let rest = find_option code os in if o.code == code then some o.payload else rest

abbrev pub or_empty : Option (List ℕ) → List ℕ
or_empty none = []
or_empty (some d) = d

-- dhcpOptionString, and the copies of DHCPv4ParamRequestList and DHCPv4RelayInfo
unfoldable pub option_bytes : ℕ → Dhcpv4 → List ℕ
unfolding find_option
option_bytes code d = or_empty (find_option code d.options)

-- dhcpOptionIPv4
unfoldable pub option_ipv4 : ℕ → Dhcpv4 → List ℕ
unfolding option_bytes
option_ipv4 code d = let d4 = option_bytes code d in if ltb (length d4) 4 then [] else take 4 d4

abbrev pub first_or_zero : List ℕ → ℕ
first_or_zero [] = 0
first_or_zero (b ∷ bs) = b

-- dhcpOptionUint16
unfoldable pub option_uint16 : ℕ → Dhcpv4 → ℕ
unfolding option_bytes
option_uint16 code d = first_or_zero (option_bytes code d)

-- Groups of four bytes; what is left over is dropped.
unfoldable pub addresses : List ℕ → List (List ℕ)
addresses (a ∷ b ∷ c ∷ d ∷ bs) = (a ∷ b ∷ c ∷ d ∷ []) ∷ addresses bs
addresses _ = []

-- The codes, from RFC 2132 and RFC 3046, that the layer's constants have.
abbrev pub opt_dns : ℕ
opt_dns = 6

abbrev pub opt_hostname : ℕ
opt_hostname = 12

abbrev pub opt_domain_name : ℕ
opt_domain_name = 15

abbrev pub opt_request_ip : ℕ
opt_request_ip = 50

abbrev pub opt_lease_time : ℕ
opt_lease_time = 51

abbrev pub opt_message_type : ℕ
opt_message_type = 53

abbrev pub opt_server_id : ℕ
opt_server_id = 54

abbrev pub opt_params_request : ℕ
opt_params_request = 55

abbrev pub opt_class_id : ℕ
opt_class_id = 60

abbrev pub opt_relay_info : ℕ
opt_relay_info = 82

unfoldable pub dns_servers : Dhcpv4 → List (List ℕ)
unfolding option_bytes addresses
dns_servers d = addresses (option_bytes opt_dns d)
