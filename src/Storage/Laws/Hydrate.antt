-- ===== src/Storage/Laws/Hydrate.antt =====
-- What the manager is promised of the database holds of the tables that the program writes.
use asset_discovery.Asset.Identity.{mac_string}
use asset_discovery.Asset.Lifecycle.Load.{SnapshotLaw}
use asset_discovery.Asset.Shard.Locked.{HydratorLaw}
use asset_discovery.Asset.Types.{AssetId, AssetSnapshot}
use asset_discovery.Prelude.{
  All, Bool, Bool-cases, List, Option, [], false, if◌then◌else◌, inl, inr, none, refl, some, suc,
  sym, take, true, zero, ℕ, ◌+◌, ◌==◌, ◌||◌, ◌∷◌, ◌≡◌,
}
use asset_discovery.Prelude.Map.{Map}
use asset_discovery.Prelude.Map.Laws.{Entries}
use asset_discovery.Prelude.Text.{Text, is_empty, text_eq, text_eq→eq}
use asset_discovery.Prelude.Text.Order.{text_ltb}
use asset_discovery.Prelude.Time.{is_zero}
use asset_discovery.Storage.{AssetRow, Codec, Tables, time_fmt}
use asset_discovery.Storage.Laws.{DbLaw, RowLaw, SavedLaw}
use asset_discovery.Storage.Laws.Rows.{save_batch-DbLaw}
use asset_discovery.Storage.Load.{
  cons_option, LoadOptions, find_by_mac, insert_by_seen, load_asset_by_mac, load_assets,
  load_children, load_each, load_found, order_by_seen, read_asset, seen_since, select_assets,
}
use asset_discovery.Storage.Mac.{parse_mac-mac_string}
use asset_discovery.Storage.Save.{save_batch}
use mathlib.Core.Path.{subst}

-- If there is a result, a predicate holds of it.
abbrev pub IfSome {ℓ} : {A : Type ℓ} → (A → Type 0) → Option A → Type 0
IfSome P none = Unit
IfSome P (some a) = P a

abbrev Rows : List (AssetId × AssetRow) → Type 0
Rows = Entries RowLaw

-- The row that is read is lawful, and its printed address is the column.
ReadFrom : Text → AssetSnapshot → Type 0
ReadFrom mac s = (mac_string s.mac ≡ mac) × SnapshotLaw s

load_children-ReadFrom :
    (cx : Codec) (fails : ℕ → Bool) (n : ℕ) (t : Tables) (id : AssetId) (row : AssetRow)
    → RowLaw id row
    → IfSome (ReadFrom row.mac) (load_children cx fails n t (id, row))
unfolding load_children read_asset ReadFrom
load_children-ReadFrom cx fails n t id row l =
    let m = parse_mac-mac_string l.address l.hardware in
    elim (Bool-cases (fails n || (fails (n + 1) || fails (n + 2)))) [
      | inl e ↦ rw e tt
      | inr e ↦ rw e (rw l.printed (rw m (refl, l.named)))
    ]

find_by_mac_lem :
    (mac : Text) (rows : Map AssetRow)
    → Rows rows
    → IfSome (λ r. RowLaw r.0 r.1 × (r.1.mac ≡ mac)) (find_by_mac mac rows)
unfolding find_by_mac
find_by_mac_lem mac [] l = tt
find_by_mac_lem mac ((id, row) ∷ rows) l = elim (Bool-cases (text_eq row.mac mac)) [
  | inl e ↦ rw e (l.0, text_eq→eq row.mac mac e)
  | inr e ↦ rw e (find_by_mac_lem mac rows l.1)
]

load_found-ReadFrom :
    (cx : Codec) (fails : ℕ → Bool) (t : Tables) (mac : Text) (o : Option (AssetId × AssetRow))
    → IfSome (λ r. RowLaw r.0 r.1 × (r.1.mac ≡ mac)) o
    → IfSome (ReadFrom mac) (load_found cx fails t o)
unfolding load_found
load_found-ReadFrom cx fails t mac none l = tt
load_found-ReadFrom cx fails t mac (some (id, row)) (l, e) =
    rw (sym e) (load_children-ReadFrom cx fails 1 t id row l)

load_asset_by_mac-ReadFrom :
    (cx : Codec) (fails : ℕ → Bool) (t : Tables) (mac : Text)
    → DbLaw t
    → IfSome (ReadFrom mac) (load_asset_by_mac cx fails t mac)
unfolding load_asset_by_mac
load_asset_by_mac-ReadFrom cx fails t mac d = elim (Bool-cases (is_empty mac)) [
  | inl e ↦ rw e tt
  | inr e ↦ rw e (elim (Bool-cases (fails 0)) [
    | inl f ↦ rw f tt
    | inr f ↦ rw f (load_found-ReadFrom cx fails t mac _ (find_by_mac_lem mac t.assets d))
  ])
]

IfSome-at {ℓ} : {A : Type ℓ} (P : A → Type 0) (o : Option A) (a : A) → IfSome P o → o ≡ some a → P a
IfSome-at P none a p e = cc
IfSome-at P (some b) a p e = subst P (let q : some b ≡ some a = e in cc) p

pub load_asset_by_mac-HydratorLaw :
    (cx : Codec) (fails : ℕ → Bool) (t : Tables)
    → DbLaw t
    → HydratorLaw (some (load_asset_by_mac cx fails t))
unfolding ReadFrom
load_asset_by_mac-HydratorLaw cx fails t d mac s e =
    IfSome-at (ReadFrom mac) _ s (load_asset_by_mac-ReadFrom cx fails t mac d) e

seen_since-Rows : (since : Text) (rows : Map AssetRow) → Rows rows → Rows (seen_since since rows)
unfolding seen_since
seen_since-Rows since [] l = tt
seen_since-Rows since ((id, row) ∷ rows) l = elim (Bool-cases (text_ltb row.last_seen since)) [
  | inl e ↦ rw e (seen_since-Rows since rows l.1)
  | inr e ↦ rw e (l.0, seen_since-Rows since rows l.1)
]

insert_by_seen-Rows :
    (id : AssetId) (row : AssetRow) (rows : Map AssetRow)
    → RowLaw id row
    → Rows rows
    → Rows (insert_by_seen (id, row) rows)
unfolding insert_by_seen
insert_by_seen-Rows id row [] l ls = (l, tt)
insert_by_seen-Rows id row ((j, other) ∷ rows) l ls =
    elim (Bool-cases (text_ltb row.last_seen other.last_seen)) [
      | inl e ↦ rw e (ls.0, insert_by_seen-Rows id row rows l ls.1)
      | inr e ↦ rw e (l, ls)
    ]

order_by_seen-Rows : (rows : Map AssetRow) → Rows rows → Rows (order_by_seen rows)
unfolding order_by_seen
order_by_seen-Rows [] l = tt
order_by_seen-Rows ((id, row) ∷ rows) l =
    insert_by_seen-Rows id row _ l.0 (order_by_seen-Rows rows l.1)

take-Rows : (n : ℕ) (rows : Map AssetRow) → Rows rows → Rows (take n rows)
take-Rows zero rows l = tt
take-Rows (suc n) [] l = tt
take-Rows (suc n) ((id, row) ∷ rows) l = (l.0, take-Rows n rows l.1)

if-Rows : (b : Bool) (x y : Map AssetRow) → Rows x → Rows y → Rows (if b then x else y)
if-Rows true x y l k = l
if-Rows false x y l k = k

select_assets-Rows :
    (cx : Codec) (opts : LoadOptions) (t : Tables) → DbLaw t → Rows (select_assets cx opts t)
unfolding select_assets
select_assets-Rows cx opts t d =
    let shown =
      if-Rows (is_zero opts.since) t.assets _ d
        (seen_since-Rows (time_fmt cx opts.since) t.assets d) in
    let sorted = order_by_seen-Rows _ shown in
    if-Rows (opts.limit == 0) _ _ sorted (take-Rows opts.limit _ sorted)

cons_option-All :
    (P : AssetSnapshot → Type 0) (o : Option AssetSnapshot) (os : Option (List AssetSnapshot))
    → IfSome P o
    → IfSome (All P) os
    → IfSome (All P) (cons_option o os)
cons_option-All P none os h hs = tt
cons_option-All P (some s) none h hs = tt
cons_option-All P (some s) (some ss) h hs = (h, hs)

IfSome-mono {ℓ} :
    {A : Type ℓ} (P Q : A → Type 0) (o : Option A) → ((a : A) → P a → Q a) → IfSome P o → IfSome Q o
IfSome-mono P Q none f h = tt
IfSome-mono P Q (some a) f h = f a h

load_each-SnapshotLaw :
    (cx : Codec) (fails : ℕ → Bool) (n : ℕ) (t : Tables) (rows : Map AssetRow)
    → Rows rows
    → IfSome (All SnapshotLaw) (load_each cx fails n t rows)
unfolding load_each ReadFrom
load_each-SnapshotLaw cx fails n t [] l = tt
load_each-SnapshotLaw cx fails n t ((id, row) ∷ rows) l =
    cons_option-All SnapshotLaw _ _
      (IfSome-mono (ReadFrom row.mac) SnapshotLaw (load_children cx fails n t (id, row))
        (λ s r. r.1) (load_children-ReadFrom cx fails n t id row l.0))
      (load_each-SnapshotLaw cx fails (n + 3) t rows l.1)

pub load_assets-SnapshotLaw :
    (cx : Codec) (fails : ℕ → Bool) (opts : LoadOptions) (t : Tables)
    → DbLaw t
    → IfSome (All SnapshotLaw) (load_assets cx fails opts t)
unfolding load_assets
load_assets-SnapshotLaw cx fails opts t d = elim (Bool-cases (fails 0)) [
  | inl e ↦ rw e tt
  | inr e ↦ rw e (load_each-SnapshotLaw cx fails 1 t _ (select_assets-Rows cx opts t d))
]

-- Where every row of the assets is one of a hardware address under its id, as in a new database, it
-- stays so when a batch of such snapshots is saved, whether or not the save fails. From the tables
-- afterwards LoadAssetByMAC returns, for a text, only an asset whose address prints to the text and
-- whose id is the one of the address, and LoadAssets only assets with the id of their address: what
-- the manager asks of a hydrator and of loaded snapshots.
pub save_batch-Hydrates :
    (cx : Codec) (fails reads : ℕ → Bool) (opts : LoadOptions) (t : Tables)
    (ss : List AssetSnapshot)
    → DbLaw t
    → All SavedLaw ss
    → let t' = (save_batch cx fails t ss).0 in
      DbLaw t'
      × HydratorLaw (some (load_asset_by_mac cx reads t'))
      × IfSome (All SnapshotLaw) (load_assets cx reads opts t')
save_batch-Hydrates cx fails reads opts t ss d l =
    let d' = save_batch-DbLaw cx fails t ss d l in
    (d', load_asset_by_mac-HydratorLaw cx reads _ d', load_assets-SnapshotLaw cx reads opts _ d')
