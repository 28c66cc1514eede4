-- ===== src/Asset/Infer.antt =====
-- inferFromVendorHostname of internal/asset/manager.go.
pub mod Vendors
use asset_discovery.Prelude.{Bool, List, Option, [], false, if◌then◌else◌, none, some, ◌||◌, ◌∷◌}
use asset_discovery.Prelude.Text.{Text, contains, has_prefix, text, to_lower}

-- strings.Contains of any of the texts
unfoldable pub contains_any : Text → List Text → Bool
contains_any s [] = false
contains_any s (p ∷ ps) = contains s p || contains_any s ps

-- The body of the loop over the host names, for one that decides.
unfoldable pub infer_hostname : Text → Option (Text × Text)
infer_hostname name =
    let h = to_lower name in
    if has_prefix h (text "android-") || contains h (text ".android")
    then some (text "mobile", text "android")
    else if has_prefix h (text "iphone") || has_prefix h (text "ipad")
    then some (text "mobile", text "ios")
    else none

abbrev pub first_some : Option (Text × Text) → Text × Text → Text × Text
first_some none rest = rest
first_some (some r) rest = r

unfoldable pub infer_hostnames : List Text → Text × Text
unfolding infer_hostname
infer_hostnames [] = ([], [])
infer_hostnames (h ∷ hs) = first_some (infer_hostname h) (infer_hostnames hs)

abbrev pub mobile_vendors : List Text
mobile_vendors = text "samsung" ∷ text "huawei" ∷ text "Anthropic" ∷ text "google" ∷ []

abbrev pub router_vendors : List Text
router_vendors = text "tp-link" ∷ text "ubiquiti" ∷ text "netgear" ∷ []

-- The device type and the operating system, empty where nothing can be inferred.
unfoldable pub infer_from_vendor_hostname : Text → List Text → Text × Text
unfolding contains_any infer_hostnames
infer_from_vendor_hostname vendor hostnames =
    let v = to_lower vendor in
    if contains v (text "apple")
    then ([], text "ios")
    else if contains_any v mobile_vendors
    then (text "mobile", text "android")
    else if contains v (text "microsoft")
    then (text "computer", text "windows")
    else if contains_any v router_vendors
    then (text "router", text "linux")
    else infer_hostnames hostnames
