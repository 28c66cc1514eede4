-- ===== src/Output/Tests.antt =====
-- The box of the laptop.
use asset_discovery.Asset.Tests.{laptop}
use asset_discovery.Asset.Types.{AssetSnapshot, snapshot}
use asset_discovery.Output.{Printer, asset_lines, inner_width, join_comma, print_summary}
use asset_discovery.Output.Columns.{Wider, asset_box_misaligned, is_ascii}
use asset_discovery.Prelude.{[], take, refl, ◌∷◌, ◌≡◌}
use asset_discovery.Prelude.Text.{is_empty, itoa, text}

abbrev printer : Printer
printer = record {
  print_value = λ v. text "v";
  print_date = λ t. text "2024-05-01";
  print_clock = λ t. text "10:00";
}

abbrev bare_laptop : AssetSnapshot
bare_laptop = record (snapshot laptop) { services = [] }

joined : join_comma (text "a" ∷ text "b" ∷ []) ≡ text "a, b"
unfolding join_comma
joined = refl

counts_line :
    take 3 (print_summary printer (bare_laptop ∷ bare_laptop ∷ []))
    ≡ []
      ∷ text "=== discovery summary ==="
      ∷ text "  assets discovered : 2  (online: 2, offline: 0)"
      ∷ []
unfolding print_summary snapshot itoa
counts_line = refl

asset_box_misaligned_example :
    Wider (inner_width (asset_lines printer bare_laptop)) (asset_lines printer bare_laptop)
unfolding asset_lines is_empty snapshot is_ascii itoa
asset_box_misaligned_example =
    asset_box_misaligned printer bare_laptop (refl, (refl, (refl, (refl, (refl, tt)))))
