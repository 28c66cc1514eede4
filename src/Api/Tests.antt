-- ===== src/Api/Tests.antt =====
-- The API on a table with one row.
mod Like
use asset_discovery.Api.{AssetFilter, matching, no_filter}
use asset_discovery.Api.Search.{Selected, matching-Selected}
use asset_discovery.Api.Tests.Like.{like, any_suffix, searching, searching-LikeLaw}
use asset_discovery.Asset.Identity.{generate_asset_id}
use asset_discovery.Asset.Tests.{laptop_mac}
use asset_discovery.Asset.Types.{AssetId}
use asset_discovery.Prelude.Text.Decimal.{absent}
use asset_discovery.Storage.{AssetRow}
use mathlib.Core.List.{Memᴰ}
use asset_discovery.Api.Detail.{list_vendors}
use asset_discovery.Api.Handlers.{
  handle_asset_detail, handle_assets, reply, trim_prefix, ui_refresh_ms,
}
use asset_discovery.Api.Pages.{Page, list_assets-Page, match_count}
use asset_discovery.Api.Query.{list_assets}
use asset_discovery.Api.Vendors.{Ascending, list_vendors_exact, some_row_has}
use asset_discovery.Asset.Merge.{has}
use asset_discovery.Prelude.{
  All, All-append, All-take, Bool, Bool-cases, Gives, List, Option, Option-cases, [], ap, arith,
  drop, false, get_elem?, if◌then◌else◌, inl, inr, leb, leb→le, length, length-append, length-drop,
  length-take, lt→ltb, ltb, ltb→lt, map, none, not, refl, some, suc, sym, take, take-append-drop,
  true, zero, ==_iff, ℕ, ◌%◌, ◌&&◌, ◌*◌, ◌++◌, ◌+◌, ◌-◌, ◌/◌, ◌<◌, ◌==◌, ◌^◌, ◌||◌, ◌↔◌, ◌∙◌, ◌∷◌,
  ◌≡◌, ◌≢◌, ◌≤◌, ◌⊎◌,
}
use asset_discovery.Prelude.Text.{Text, contains, is_empty, text, to_lower}
use asset_discovery.Prelude.Time.{pos}
use asset_discovery.Storage.Tests.{codec, no_failure, stored_row, table_of_one}

abbrev one_place : AssetFilter
one_place = record no_filter { q = text "nok"; limit = pos 1 }

list_assets-Page_example :
    Gives
      (Page (match_count codec one_place table_of_one))
      (list_assets codec no_failure one_place table_of_one)
list_assets-Page_example = list_assets-Page codec no_failure one_place table_of_one refl

matching-Selected_example :
    Memᴰ {A = AssetId × AssetRow}
      (generate_asset_id laptop_mac, stored_row)
      (matching searching one_place table_of_one table_of_one.assets)
    ↔ (Memᴰ {A = AssetId × AssetRow} (generate_asset_id laptop_mac, stored_row) table_of_one.assets
        × Selected searching one_place table_of_one (generate_asset_id laptop_mac) stored_row)
unfolding absent
matching-Selected_example =
    matching-Selected searching one_place table_of_one table_of_one.assets
      (generate_asset_id laptop_mac) stored_row searching-LikeLaw refl refl

-- The search finds the vendor.
is_found : length (matching searching one_place table_of_one table_of_one.assets) ≡ 1
unfolding matching like any_suffix to_lower is_empty asset_discovery.Prelude.Text.text_eq
is_found = refl

list_vendors_exact_example :
    Gives
      (λ vs.
        ((v : Text) → has v vs ≡ (not (is_empty v) && some_row_has v table_of_one.assets))
        × Ascending vs)
      (list_vendors false table_of_one)
list_vendors_exact_example = list_vendors_exact table_of_one

nested_path :
    handle_asset_detail codec no_failure table_of_one (text "/api/assets/a/b") ≡ reply 400 none
unfolding handle_asset_detail trim_prefix asset_discovery.Prelude.Text.has_prefix is_empty
    asset_discovery.Api.Handlers.has_slash
nested_path = refl

no_interval : ui_refresh_ms (pos 0) ≡ 5000
unfolding ui_refresh_ms
no_interval = refl
