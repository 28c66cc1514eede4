-- ===== src/Output.antt =====
-- internal/output/stdout.go: the summary, line by line. The values %v of fmt and the layouts of time
-- are parameters. multi.go is write_all.
pub mod Columns
mod Tests
use asset_discovery.Asset.Identity.{mac_string}
use asset_discovery.Asset.Shard.{is_offline, is_online}
use asset_discovery.Asset.Types.{
  AssetSnapshot, Any, IpEntry, Service, Status, offline, online, unset,
}
use asset_discovery.Prelude.{
  All, All-append, All-take, Bool, Bool-cases, Gives, List, Option, Option-cases, [], ap, arith,
  drop, false, get_elem?, if◌then◌else◌, inl, inr, leb, leb→le, length, length-append, length-drop,
  length-take, lt→ltb, ltb, ltb→lt, map, none, not, refl, some, suc, sym, take, take-append-drop,
  true, zero, ==_iff, ℕ, ◌%◌, ◌&&◌, ◌*◌, ◌++◌, ◌+◌, ◌-◌, ◌/◌, ◌<◌, ◌==◌, ◌^◌, ◌||◌, ◌↔◌, ◌∙◌, ◌∷◌,
  ◌≡◌, ◌≢◌, ◌≤◌, ◌⊎◌,
}
use asset_discovery.Prelude.Map.{Map, lookup}
use asset_discovery.Prelude.Text.{Text, is_empty, itoa, text}
use asset_discovery.Prelude.Text.Order.{text_ltb}
use asset_discovery.Prelude.Time.{Time, is_zero}

-- fmt.Sprintf("%v", v), and Format with the layouts of a date and of a time of day.
pub record Printer : Type 0 where
  pub print_value : Any → Text
  pub print_date : Time → Text
  pub print_clock : Time → Text

-- A line of a box; its contentLen is its length in bytes.
abbrev pub Line : Type 0
Line = Text

-- kv: no line for an empty value
unfoldable pub kv : Text → Text → List Line
kv key val = if is_empty val then [] else (key ++ text " : " ++ val) ∷ []

-- strings.Join(parts, ", ")
unfoldable pub join_comma : List Text → Text
join_comma [] = []
join_comma (p ∷ []) = p
join_comma (p ∷ q ∷ ps) = p ++ text ", " ++ join_comma (q ∷ ps)

-- sort.Strings with the entries of the keys
unfoldable pub insert_by_key {ℓ} : {A : Type ℓ} → Text × A → Map A → Map A
unfolding text_ltb
insert_by_key e [] = e ∷ []
insert_by_key (k, a) ((j, b) ∷ m) =
    let rest = insert_by_key (k, a) m in if text_ltb j k then (j, b) ∷ rest else (k, a) ∷ (j, b) ∷ m

unfoldable pub sorted_entries {ℓ} : {A : Type ℓ} → Map A → Map A
unfolding insert_by_key
sorted_entries [] = []
sorted_entries (e ∷ m) = insert_by_key e (sorted_entries m)

unfoldable pub ip_parts : Map IpEntry → List Text
ip_parts [] = []
ip_parts ((ip, e) ∷ m) = (if e.is_active then ip ++ text " (active)" else ip) ∷ ip_parts m

unfoldable pub format_ip_map : Map IpEntry → Text
unfolding join_comma sorted_entries ip_parts
format_ip_map m = join_comma (ip_parts (sorted_entries m))

unfoldable pub format_service : Printer → Service → Text
format_service pr svc =
    svc.protocol
    ++ text "/"
    ++ itoa svc.port
    ++ text " ["
    ++ (if svc.is_client then text "client" else text "server")
    ++ text "]"
    ++ (if is_empty svc.name then [] else text "  " ++ svc.name)
    ++ (if is_empty svc.product then [] else text "  " ++ svc.product)
    ++ (if is_zero svc.last_seen then [] else text "  last " ++ pr.print_clock svc.last_seen)

unfoldable pub service_lines : Printer → List Service → List Line
unfolding format_service
service_lines pr [] = []
service_lines pr (svc ∷ svcs) = (text "  " ++ format_service pr svc) ∷ service_lines pr svcs

unfoldable pub extra_lines : Printer → Map Any → List Line
extra_lines pr [] = []
extra_lines pr ((k, v) ∷ m) = (text "  " ++ k ++ text " : " ++ pr.print_value v) ∷ extra_lines pr m

-- A title and its lines, where there are any.
abbrev pub titled {ℓ} : {A : Type ℓ} → Text → List A → List Line → List Line
titled title xs lines = if is_empty xs then [] else title ∷ lines

unfoldable pub asset_lines : Printer → AssetSnapshot → List Line
unfolding kv mac_string format_ip_map join_comma service_lines extra_lines sorted_entries
asset_lines pr s =
    kv (text "MAC") (mac_string s.mac)
    ++ kv (text "Vendor") s.mac_vendor
    ++ kv (text "IPv4") (format_ip_map s.ipv4s)
    ++ kv (text "IPv6") (format_ip_map s.ipv6s)
    ++ kv (text "Hostnames") (join_comma s.hostnames)
    ++ kv (text "OS") s.os
    ++ kv (text "Model") s.model
    ++ kv (text "DeviceType") s.device_type
    ++ titled (text "Services :") s.services (service_lines pr s.services)
    ++ titled (text "Extras :") s.extra (extra_lines pr (sorted_entries s.extra))
    ++ kv (text "First seen") (pr.print_date s.first_seen)
    ++ kv (text "Last seen") (pr.print_date s.last_seen)
    ++ kv (text "Seen count") (itoa s.seen_count)

-- strings.Repeat
unfoldable pub repeat : ℕ → Text → Text
repeat zero s = []
repeat (suc n) s = s ++ repeat n s

-- The box drawing characters in UTF-8.
abbrev pub horizontal : Text
horizontal = 226 ∷ 148 ∷ 128 ∷ []

abbrev pub vertical : Text
vertical = 226 ∷ 148 ∷ 130 ∷ []

abbrev pub top_left : Text
top_left = 226 ∷ 148 ∷ 140 ∷ []

abbrev pub top_right : Text
top_right = 226 ∷ 148 ∷ 144 ∷ []

abbrev pub bottom_left : Text
bottom_left = 226 ∷ 148 ∷ 148 ∷ []

abbrev pub bottom_right : Text
bottom_right = 226 ∷ 148 ∷ 152 ∷ []

unfoldable pub longest : List Line → ℕ
longest [] = 0
longest (l ∷ ls) = let n = longest ls in if ltb n (length l) then length l else n

-- innerWidth
unfoldable pub inner_width : List Line → ℕ
unfolding longest
inner_width lines = let n = longest lines in if ltb n 30 then 30 else n

abbrev pub status_name : Status → Text
status_name unset = []
status_name online = text "online"
status_name offline = text "offline"

-- The border with the title, whose widths are lengths in bytes.
unfoldable pub top_border : ℕ → Text → Text → Text
unfolding repeat
top_border width title status =
    let left = horizontal ++ text " " ++ title ++ text " " in
    let right = text " " ++ status ++ text " " in
    let space = width - length left - length right in
    top_left ++ left ++ repeat (if ltb space 3 then 3 else space) horizontal ++ right ++ top_right

unfoldable pub body_line : ℕ → Line → Text
unfolding repeat
body_line width l = vertical ++ text " " ++ l ++ repeat (width - length l) (text " ") ++ vertical

unfoldable pub bottom_border : ℕ → Text
unfolding repeat
bottom_border width = bottom_left ++ repeat width horizontal ++ bottom_right

-- printAssetBox, line by line, without the last empty one
unfoldable pub asset_box : Printer → AssetSnapshot → List Text
unfolding asset_lines inner_width top_border body_line bottom_border
asset_box pr s =
    let lines = asset_lines pr s in
    let width = inner_width lines in
    top_border width s.id (status_name s.status) ∷ map (body_line width) lines
    ++ bottom_border width ∷ []

-- byStatus of the status that the test picks
unfoldable pub by_status : (Status → Bool) → List AssetSnapshot → ℕ
by_status picks [] = 0
by_status picks (s ∷ ss) = let n = by_status picks ss in if picks s.status then suc n else n

unfoldable pub boxes : Printer → List AssetSnapshot → List Text
unfolding asset_box
boxes pr [] = []
boxes pr (s ∷ ss) = asset_box pr s ++ [] ∷ boxes pr ss

-- printSummary, line by line
unfoldable pub print_summary : Printer → List AssetSnapshot → List Text
unfolding by_status boxes
print_summary pr ss =
    []
    ∷ text "=== discovery summary ==="
    ∷ (text "  assets discovered : "
        ++ itoa (length ss)
        ++ text "  (online: "
        ++ itoa (by_status is_online ss)
        ++ text ", offline: "
        ++ itoa (by_status is_offline ss)
        ++ text ")")
    ∷ []
    ∷ boxes pr ss

abbrev pub first_error {ℓ} : {E : Type ℓ} → Option E → Option E → Option E
first_error none rest = rest
first_error (some e) rest = some e

-- MultiSink.WriteAssets: the first error ends it.
unfoldable pub write_all {ℓ κ} : {S : Type ℓ} {E : Type κ} → List (S → Option E) → S → Option E
write_all [] s = none
write_all (sink ∷ sinks) s = first_error (sink s) (write_all sinks s)
