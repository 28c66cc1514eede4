-- ===== src/Storage/Laws/Rows.antt =====
-- Every statement of SaveBatch keeps the table of assets lawful.
use asset_discovery.Asset.Types.{AssetId, AssetSnapshot, IpEntry, Service}
use asset_discovery.Prelude.{
  All, All-append, Bool, Bool-cases, List, Option, [], inl, inr, none, refl, some, ℕ, ◌&&◌, ◌==◌,
  ◌∷◌, ◌≡◌,
}
use asset_discovery.Prelude.Map.{Map, lookup}
use asset_discovery.Prelude.Map.Laws.{Entries-insert, Entries-lookup}
use asset_discovery.Prelude.Text.{Text, is_empty}
use asset_discovery.Prelude.Time.{Time}
use asset_discovery.Storage.{
  AssetRow, Codec, HostnameRow, Statement, Tables, conflict_asset, execute, insert_asset,
  insert_hostname, insert_ip, insert_service,
}
use asset_discovery.Storage.Laws.{DbLaw, RowLaw, SavedLaw, execute_all, save_batch_atomic}
use asset_discovery.Storage.Save.{
  asset_row, batch_statements, hostname_row, replace_child_rows, save_batch, upsert_asset,
  upsert_hostnames, upsert_ip_rows, upsert_services,
}

-- A row of assets that a statement writes is lawful.
StatementLaw : Statement → Type 0
StatementLaw (insert_asset id row) = RowLaw id row
StatementLaw _ = Unit

conflict_asset-RowLaw :
    (id : AssetId) (o : Option AssetRow) (row : AssetRow)
    → ((old : AssetRow) → o ≡ some old → RowLaw id old)
    → RowLaw id row
    → RowLaw id (conflict_asset o row)
unfolding conflict_asset
conflict_asset-RowLaw id none row h l = l
conflict_asset-RowLaw id (some old) row h l = elim (Bool-cases (is_empty row.mac)) [
  | inl e ↦
      let k = h old refl in
      record {
        address = k.address;
        hardware = k.hardware;
        printed = rw e k.printed;
        named = k.named;
      }
  | inr e ↦ record {
    address = l.address;
    hardware = l.hardware;
    printed = rw e l.printed;
    named = l.named;
  }
]

execute-DbLaw : (st : Statement) (t : Tables) → StatementLaw st → DbLaw t → DbLaw (execute st t)
unfolding execute StatementLaw
execute-DbLaw (insert_asset id row) t l d =
    Entries-insert RowLaw id _ t.assets
      (conflict_asset-RowLaw id (lookup id t.assets) row
        (λ old e. Entries-lookup RowLaw id old t.assets d e) l)
      d
execute-DbLaw (insert_ip id ip row) t l d = d
execute-DbLaw (insert_hostname id h row) t l d = d
execute-DbLaw (insert_service id row) t l d = d

execute_all-DbLaw :
    (sts : List Statement) (t : Tables) → All StatementLaw sts → DbLaw t → DbLaw (execute_all sts t)
unfolding execute_all
execute_all-DbLaw [] t l d = d
execute_all-DbLaw (st ∷ sts) t l d =
    execute_all-DbLaw sts (execute st t) l.1 (execute-DbLaw st t l.0 d)

upsert_ip_rows-StatementLaw :
    (cx : Codec) (id : AssetId) (v : ℕ) (m : Map IpEntry)
    → All StatementLaw (upsert_ip_rows cx id v m)
unfolding upsert_ip_rows StatementLaw
upsert_ip_rows-StatementLaw cx id v [] = tt
upsert_ip_rows-StatementLaw cx id v ((ip, e) ∷ m) = (tt, upsert_ip_rows-StatementLaw cx id v m)

upsert_hostnames-StatementLaw :
    (id : AssetId) (row : HostnameRow) (hs : List Text)
    → All StatementLaw (upsert_hostnames id row hs)
unfolding upsert_hostnames StatementLaw
upsert_hostnames-StatementLaw id row [] = tt
upsert_hostnames-StatementLaw id row (h ∷ hs) = elim (Bool-cases (is_empty h)) [
  | inl e ↦ rw e (upsert_hostnames-StatementLaw id row hs)
  | inr e ↦ rw e (tt, upsert_hostnames-StatementLaw id row hs)
]

upsert_services-StatementLaw :
    (cx : Codec) (id : AssetId) (at : Time) (svcs : List Service)
    → All StatementLaw (upsert_services cx id at svcs)
unfolding upsert_services StatementLaw
upsert_services-StatementLaw cx id at [] = tt
upsert_services-StatementLaw cx id at (svc ∷ svcs) =
    elim (Bool-cases (is_empty svc.protocol && svc.port == 0)) [
      | inl e ↦ rw e (upsert_services-StatementLaw cx id at svcs)
      | inr e ↦ rw e (tt, upsert_services-StatementLaw cx id at svcs)
    ]

replace_child_rows-StatementLaw :
    (cx : Codec) (s : AssetSnapshot) → All StatementLaw (replace_child_rows cx s)
unfolding replace_child_rows
replace_child_rows-StatementLaw cx s =
    let v4 = upsert_ip_rows-StatementLaw cx s.id 4 s.ipv4s in
    let v6 = upsert_ip_rows-StatementLaw cx s.id 6 s.ipv6s in
    let names = upsert_hostnames-StatementLaw s.id (hostname_row cx s) s.hostnames in
    let svcs = upsert_services-StatementLaw cx s.id s.last_seen s.services in
    All-append StatementLaw _ _ v4
      (All-append StatementLaw _ _ v6 (All-append StatementLaw _ _ names svcs))

batch_statements-StatementLaw :
    (cx : Codec) (ss : List AssetSnapshot)
    → All SavedLaw ss
    → All StatementLaw (batch_statements cx ss)
unfolding batch_statements upsert_asset StatementLaw asset_row
batch_statements-StatementLaw cx [] l = tt
batch_statements-StatementLaw cx (s ∷ ss) l = (
  record { address = s.mac; hardware = l.0.hardware; printed = refl; named = l.0.law },
  All-append StatementLaw _ _ (replace_child_rows-StatementLaw cx s)
      (batch_statements-StatementLaw cx ss l.1),
)

-- Whether or not the batch commits.
pub save_batch-DbLaw :
    (cx : Codec) (fails : ℕ → Bool) (t : Tables) (ss : List AssetSnapshot)
    → DbLaw t
    → All SavedLaw ss
    → DbLaw (save_batch cx fails t ss).0
save_batch-DbLaw cx fails t ss d l = elim (save_batch_atomic cx fails t ss) [
  | inl e ↦ rw e (execute_all-DbLaw _ t (batch_statements-StatementLaw cx ss l) d)
  | inr (e, w) ↦ rw e d
]
