-- ===== src/Storage/Laws/Children.antt =====
-- What the statements of one snapshot do to the rows of a child table.
use asset_discovery.Asset.Types.{AssetId, IpEntry, Service}
use asset_discovery.Prelude.{
  Bool, Bool-cases, List, Option, [], ap, arith, false, if◌then◌else◌, inl, inr, none, refl, some,
  sym, true, ℕ, ◌&&◌, ◌==◌, ◌||◌, ◌∙◌, ◌∷◌, ◌≡◌, ◌⊎◌,
}
use asset_discovery.Prelude.Map.{Map, insert, lookup, lookup-insert, lookup-insert_self}
use asset_discovery.Prelude.Map.Laws.{IsMap, IsMap-insert}
use asset_discovery.Prelude.Text.{Text, is_empty, text_eq, text_eq_refl, text_eq→eq}
use asset_discovery.Prelude.Time.{Time}
use asset_discovery.Storage.{
  Codec, HostnameRow, IpRow, ServiceRow, Tables, conflict_hostname, conflict_ip, conflict_service,
  execute, port_key_text, put_row, rows_of, rows_or_none,
}
use asset_discovery.Storage.Laws.{execute_all}
use asset_discovery.Storage.Save.{
  ip_row, service_row, upsert_hostnames, upsert_ip_rows, upsert_services,
}

module _ {ℓ} {R : Type ℓ} where
  -- No key stands in both maps.
  abbrev pub Apart : Map R → Map R → Type ℓ
  Apart m rows = (k : Text) → (lookup k m ≡ none) ⊎ (lookup k rows ≡ none)

  abbrev pub or_else : Option R → Option R → Option R
  or_else none b = b
  or_else (some a) b = some a

  pub Apart-head :
      (k : Text) (r : R) (m rows : Map R) → Apart ((k, r) ∷ m) rows → lookup k rows ≡ none
  unfolding lookup
  Apart-head k r m rows apart = elim (apart k) [
    | inl e ↦ absurd (let e' : some r ≡ none = rw (text_eq_refl k) at e in cc)
    | inr e ↦ e
  ]

  pub Apart-tail :
      (j : Text) (r r' : R) (m rows : Map R)
      → lookup j m ≡ none
      → Apart ((j, r) ∷ m) rows
      → Apart m (insert j r' rows)
  unfolding lookup
  Apart-tail j r r' m rows h apart k = elim (Bool-cases (text_eq j k)) [
    | inl e ↦ inl (rw (sym (text_eq→eq j k e)) h)
    | inr e ↦ rw (lookup-insert j k r' rows) (rw e (rw e at (apart k)))
  ]

module _ {ℓ} {R : Type ℓ} (conflict : Option R → R → R) where
  -- The rows of one asset after new ones, and the table after new rows of one asset.
  unfoldable pub add_rows : Map R → Map R → Map R
  add_rows [] rows = rows
  add_rows ((k, r) ∷ m) rows = add_rows m (insert k (conflict (lookup k rows) r) rows)

  unfoldable pub put_rows : AssetId → Map R → Map (Map R) → Map (Map R)
  put_rows id [] t = t
  put_rows id ((k, r) ∷ m) t = put_rows id m (put_row conflict id k r t)

  pub rows_of-put_rows :
      (id : AssetId) (m : Map R) (t : Map (Map R))
      → rows_of id (put_rows id m t) ≡ add_rows m (rows_of id t)
  unfolding put_rows add_rows put_row rows_of
  rows_of-put_rows id [] t = refl
  rows_of-put_rows id ((k, r) ∷ m) t =
      rows_of-put_rows id m (put_row conflict id k r t)
      ∙ ap (λ o. add_rows m (rows_or_none o)) (lookup-insert_self id _ t)

  pub IsMap-add_rows : (m rows : Map R) → IsMap rows → IsMap (add_rows m rows)
  unfolding add_rows
  IsMap-add_rows [] rows h = h
  IsMap-add_rows ((k, r) ∷ m) rows h = IsMap-add_rows m _ (IsMap-insert k _ rows h)

  -- The rows afterwards are the new ones and, under other keys, those from before.
  pub lookup-add_rows :
      ((r : R) → conflict none r ≡ r)
      → (m rows : Map R) → IsMap m
      → Apart m rows
      → (k : Text) → lookup k (add_rows m rows) ≡ or_else (lookup k m) (lookup k rows)
  unfolding add_rows lookup
  lookup-add_rows new [] rows h apart k = refl
  lookup-add_rows new ((j, r) ∷ m) rows h apart k =
      let fresh = Apart-head j r m rows apart in
      let r' = conflict (lookup j rows) r in
      let same : r' ≡ r = ap (λ o. conflict o r) fresh ∙ new r in
      lookup-add_rows new m (insert j r' rows) h.1 (Apart-tail j r r' m rows h.0 apart) k
      ∙ rw (lookup-insert j k r' rows) (elim (Bool-cases (text_eq j k)) [
        | inl e ↦ rw e (rw (sym (text_eq→eq j k e)) (rw h.0 (ap some same)))
        | inr e ↦ rw e refl
      ])

-- The key is there.
abbrev pub is_some {ℓ} : {A : Type ℓ} → Option A → Bool
is_some none = false
is_some (some a) = true

module _ {ℓ} {R : Type ℓ} (conflict : Option R → R → R) where
  pub is_some-add_rows :
      (m rows : Map R) (k : Text)
      → is_some (lookup k (add_rows conflict m rows))
        ≡ (is_some (lookup k m) || is_some (lookup k rows))
  unfolding add_rows lookup
  is_some-add_rows [] rows k = refl
  is_some-add_rows ((j, r) ∷ m) rows k =
      let r' = conflict (lookup j rows) r in
      is_some-add_rows m (insert j r' rows) k
      ∙ rw (lookup-insert j k r' rows)
          (elim (Bool-cases (text_eq j k)) [ inl e ↦ rw e (ground arith) | inr e ↦ rw e refl ])

-- The new rows of a snapshot, by key.
unfoldable pub ip_rows : Codec → ℕ → Map IpEntry → Map IpRow
ip_rows cx v [] = []
ip_rows cx v ((ip, e) ∷ m) = (ip, ip_row cx v e) ∷ ip_rows cx v m

unfoldable pub hostname_rows : HostnameRow → List Text → Map HostnameRow
hostname_rows row [] = []
hostname_rows row (h ∷ hs) =
    let rest = hostname_rows row hs in if is_empty h then rest else (h, row) ∷ rest

unfoldable pub service_rows : Codec → Time → List Service → Map ServiceRow
service_rows cx at [] = []
service_rows cx at (svc ∷ svcs) =
    let rest = service_rows cx at svcs in
    if is_empty svc.protocol && svc.port == 0
    then rest
    else (port_key_text svc.protocol svc.port, service_row cx at svc) ∷ rest

pub execute_all-upsert_ip_rows :
    (cx : Codec) (id : AssetId) (v : ℕ) (m : Map IpEntry) (t : Tables)
    → execute_all (upsert_ip_rows cx id v m) t
      ≡ record t { ips = put_rows conflict_ip id (ip_rows cx v m) t.ips }
unfolding execute_all upsert_ip_rows put_rows ip_rows execute
execute_all-upsert_ip_rows cx id v [] t = refl
execute_all-upsert_ip_rows cx id v ((ip, e) ∷ m) t = execute_all-upsert_ip_rows cx id v m _

pub execute_all-upsert_hostnames :
    (id : AssetId) (row : HostnameRow) (hs : List Text) (t : Tables)
    → execute_all (upsert_hostnames id row hs) t
      ≡ record t { hostnames = put_rows conflict_hostname id (hostname_rows row hs) t.hostnames }
unfolding execute_all upsert_hostnames put_rows hostname_rows execute
execute_all-upsert_hostnames id row [] t = refl
execute_all-upsert_hostnames id row (h ∷ hs) t = elim (Bool-cases (is_empty h)) [
  | inl e ↦ rw e (execute_all-upsert_hostnames id row hs t)
  | inr e ↦ rw e (execute_all-upsert_hostnames id row hs _)
]

pub execute_all-upsert_services :
    (cx : Codec) (id : AssetId) (at : Time) (svcs : List Service) (t : Tables)
    → execute_all (upsert_services cx id at svcs) t
      ≡ record t { services = put_rows conflict_service id (service_rows cx at svcs) t.services }
unfolding execute_all upsert_services put_rows service_rows execute service_row
execute_all-upsert_services cx id at [] t = refl
execute_all-upsert_services cx id at (svc ∷ svcs) t =
    elim (Bool-cases (is_empty svc.protocol && svc.port == 0)) [
      | inl e ↦ rw e (execute_all-upsert_services cx id at svcs t)
      | inr e ↦ rw e (execute_all-upsert_services cx id at svcs _)
    ]
