-- ===== src/Asset/Infer/Vendors.antt =====
-- The names of vendors that inferFromVendorHostname looks for in a vendor in lower case.
use asset_discovery.Asset.Infer.{
  contains_any, infer_from_vendor_hostname, infer_hostnames, router_vendors,
}
use asset_discovery.Prelude.{List, [], arith, false, refl, ◌∷◌, ◌≡◌}
use asset_discovery.Prelude.Text.{Text, contains, has_prefix, text, to_lower}

-- A text that starts with an A is not in a text in lower case.
upper_absent : (s p : Text) → contains (to_lower s) (65 ∷ p) ≡ false
unfolding contains has_prefix to_lower
upper_absent [] p = refl
upper_absent (c ∷ s) p = ground (arith, upper_absent s p)

-- The names in lower case.
abbrev pub lower_vendors : List Text
lower_vendors =
    text "apple"
    ∷ text "samsung"
    ∷ text "huawei"
    ∷ text "google"
    ∷ text "microsoft"
    ∷ router_vendors

-- For a vendor that has, in lower case, none of the names that are written in lower case, the device type
-- and the operating system are inferred from the host names alone: the one name with an upper-case
-- letter is never found.
pub infer-lower_vendors :
    (vendor : Text) (hostnames : List Text)
    → contains_any (to_lower vendor) lower_vendors ≡ false
    → infer_from_vendor_hostname vendor hostnames ≡ infer_hostnames hostnames
unfolding infer_from_vendor_hostname contains_any
infer-lower_vendors vendor hostnames h = ground (arith, h, upper_absent vendor (text "nthropic"))
