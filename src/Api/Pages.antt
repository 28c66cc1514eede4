-- ===== src/Api/Pages.antt =====
-- The page that ListAssets returns.
use asset_discovery.Api.{AssetFilter, matching, page_limit}
use asset_discovery.Api.Query.{
  AssetListItem, AssetListResponse, comes_before, fetched, insert_ordered, last_seen_of,
  list_assets, list_items, ordered,
}
use asset_discovery.Asset.Types.{AssetId}
use asset_discovery.Prelude.{
  Bool, Bool-cases, Gives, List, [], ap, arith, false, inl, inr, length, length-take, refl, suc,
  sym, take, true, zero, ℕ, ◌+◌, ◌<◌, ◌==◌, ◌∙◌, ◌∷◌, ◌≡◌, ◌≤◌,
}
use asset_discovery.Prelude.Map.{Map}
use asset_discovery.Prelude.Text.{Text}
use asset_discovery.Storage.{AssetRow, Codec, Tables}
use Prim.Native.Nat.{min}

page_limit_range : (f : AssetFilter) → (1 ≤ page_limit f) × (page_limit f ≤ 1000)
unfolding page_limit
page_limit_range f = (ground arith, ground arith)

length-insert_ordered :
    (sort : Text) (id : AssetId) (row : AssetRow) (rows : Map AssetRow)
    → length (insert_ordered sort (id, row) rows) ≡ suc (length rows)
unfolding insert_ordered
length-insert_ordered sort id row [] = refl
length-insert_ordered sort id row ((j, other) ∷ rows) =
    elim (Bool-cases (comes_before sort other row)) [
      | inl e ↦ rw e (ap suc (length-insert_ordered sort id row rows))
      | inr e ↦ rw e refl
    ]

length-ordered : (sort : Text) (rows : Map AssetRow) → length (ordered sort rows) ≡ length rows
unfolding ordered
length-ordered sort [] = refl
length-ordered sort ((id, row) ∷ rows) =
    length-insert_ordered sort id row (ordered sort rows) ∙ ap suc (length-ordered sort rows)

length-list_items :
    (fails : ℕ → Bool) (n : ℕ) (t : Tables) (rows : Map AssetRow)
    → length (list_items fails n t rows) ≡ length rows
unfolding list_items
length-list_items fails n t [] = refl
length-list_items fails n t ((id, row) ∷ rows) = ap suc (length-list_items fails (n + 2) t rows)

-- The number of assets that the filter matches.
abbrev pub match_count : Codec → AssetFilter → Tables → ℕ
match_count cx f t = length (matching cx f t t.assets)

length-fetched :
    (cx : Codec) (f : AssetFilter) (t : Tables)
    → length (fetched cx f t) ≡ min (page_limit f + 1) (match_count cx f t)
unfolding fetched
length-fetched cx f t =
    length-take (page_limit f + 1) (ordered f.sort (matching cx f t t.assets))
    ∙ ap (min (page_limit f + 1)) (length-ordered f.sort (matching cx f t t.assets))

-- The last sighting of the last item.
abbrev pub last_shown : Text → List AssetListItem → Text
last_shown seen [] = seen
last_shown seen (x ∷ xs) = last_shown x.last_seen xs

last_shown-list_items :
    (fails : ℕ → Bool) (n : ℕ) (t : Tables) (seen : Text) (rows : Map AssetRow)
    → last_shown seen (list_items fails n t rows) ≡ last_seen_of seen rows
unfolding list_items last_seen_of
last_shown-list_items fails n t seen [] = refl
last_shown-list_items fails n t seen ((id, row) ∷ rows) =
    last_shown-list_items fails (n + 2) t row.last_seen rows

take-all {ℓ} : {A : Type ℓ} (n : ℕ) (xs : List A) → length xs ≤ n → take n xs ≡ xs
take-all zero [] h = refl
take-all zero (x ∷ xs) h = absurd (ground arith)
take-all (suc n) [] h = refl
take-all (suc n) (x ∷ xs) h = ap (λ ys. x ∷ ys) (take-all n xs (ground arith))

pub record Page (count : ℕ) (r : AssetListResponse) : Type 0 where
  pub range : (1 ≤ r.limit) × (r.limit ≤ 1000)
  pub size : length r.items ≡ min r.limit count
  pub no_cursor : count < r.limit → r.next_cursor ≡ []
  pub full_cursor : count ≡ r.limit → r.next_cursor ≡ last_shown [] r.items

-- The page of a list of assets, when the query does not fail: it has from 1 to 1000 places and as many
-- items as the filter matches, up to its places. There is no cursor where fewer match. Where exactly as
-- many match, so that no further page exists, the cursor is still the last sighting of the last item.
pub list_assets-Page :
    (cx : Codec) (fails : ℕ → Bool) (f : AssetFilter) (t : Tables)
    → fails 0 ≡ false
    → Gives (Page (match_count cx f t)) (list_assets cx fails f t)
unfolding list_assets
list_assets-Page cx fails f t ok =
    let limit = page_limit f in
    let rows = fetched cx f t in
    let shown = list_items fails 1 t (take limit rows) in
    let count = length-list_items fails 1 t (take limit rows) ∙ length-take limit rows in
    let all = length-fetched cx f t in
    let size : length shown ≡ min limit (match_count cx f t) = omega (arith, count, all) in
    rw ok record {
      range = page_limit_range f;
      size = size;
      no_cursor =
          λ h. let less : (length shown == limit) ≡ false = ground (arith, size, h) in rw less refl;
      full_cursor = λ h.
          let equal : (length shown == limit) ≡ true = ground (arith, size, h) in
          let whole = take-all limit rows (omega (arith, all, h)) in
          rw equal (
            sym
              (last_shown-list_items fails 1 t [] (take limit rows) ∙ ap (last_seen_of []) whole));
    }
