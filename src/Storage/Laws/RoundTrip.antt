-- ===== src/Storage/Laws/RoundTrip.antt =====
-- LoadAssetByMAC reads back what SaveBatch wrote of a new asset.
use asset_discovery.Asset.Identity.{generate_asset_id, mac_string}
use asset_discovery.Asset.Identity.Keys.{mac_string_inj}
use asset_discovery.Asset.Types.{AssetId, AssetSnapshot, Mac}
use asset_discovery.Prelude.{
  Bool, Bool-cases, Gives, List, [], ap, arith, false, inl, inr, none, refl, some, sym, true, ℕ,
  ◌++◌, ◌∙◌, ◌∷◌, ◌≡◌,
}
use asset_discovery.Prelude.Map.{Map, insert, lookup}
use asset_discovery.Prelude.Map.Laws.{Entries}
use asset_discovery.Prelude.Text.{is_empty, text_eq, text_eq_iff, text_eq_refl, text_eq→eq}
use asset_discovery.Storage.{
  AssetRow, Codec, Tables, conflict_asset, conflict_hostname, conflict_ip, conflict_service,
  execute, rows_of,
}
use asset_discovery.Storage.Laws.{
  DbLaw, RowLaw, SavedLaw, execute_all, execute_all-append, save_batch_atomic,
}
use asset_discovery.Storage.Laws.Addresses.{read_ips, saved_ips}
use asset_discovery.Storage.Laws.Children.{
  add_rows, execute_all-upsert_hostnames, execute_all-upsert_ip_rows, execute_all-upsert_services,
  hostname_rows, ip_rows, is_some-add_rows, put_rows, rows_of-put_rows, service_rows,
}
use asset_discovery.Storage.Laws.Clean.{
  Clean, CodecLaw, Fresh, SameAsset, keyed, parse_time_str-time_fmt,
}
use asset_discovery.Storage.Laws.Reading.{
  IsMap-service_rows, add_rows-nil, has-load_hostnames, is_some-hostname_rows,
  load_services-service_rows,
}
use asset_discovery.Storage.Load.{
  find_by_mac, load_asset_by_mac, load_children, load_found, read_asset,
}
use asset_discovery.Storage.Mac.{IsHardware, parse_mac-mac_string}
use asset_discovery.Storage.Save.{
  asset_row, batch_statements, hostname_row, replace_child_rows, save_batch, upsert_asset,
  upsert_hostnames, upsert_ip_rows, upsert_services,
}
use mathlib.Core.List.{append-nil}

-- The tables after the statements of one snapshot.
unfoldable pub saved : Codec → AssetSnapshot → Tables → Tables
saved cx s t = record {
  assets = insert s.id (conflict_asset (lookup s.id t.assets) (asset_row cx s)) t.assets;
  ips =
      put_rows conflict_ip s.id (ip_rows cx 6 s.ipv6s)
        (put_rows conflict_ip s.id (ip_rows cx 4 s.ipv4s) t.ips);
  hostnames =
      put_rows conflict_hostname s.id (hostname_rows (hostname_row cx s) s.hostnames) t.hostnames;
  services = put_rows conflict_service s.id (service_rows cx s.last_seen s.services) t.services;
}

pub execute_all-snapshot :
    (cx : Codec) (s : AssetSnapshot) (t : Tables)
    → execute_all (batch_statements cx (s ∷ [])) t ≡ saved cx s t
unfolding batch_statements upsert_asset replace_child_rows execute_all execute saved
execute_all-snapshot cx s t =
    let v4 = upsert_ip_rows cx s.id 4 s.ipv4s in
    let v6 = upsert_ip_rows cx s.id 6 s.ipv6s in
    let names = upsert_hostnames s.id (hostname_row cx s) s.hostnames in
    let svcs = upsert_services cx s.id s.last_seen s.services in
    rw (append-nil (v4 ++ (v6 ++ (names ++ svcs)))) (
      execute_all-append v4 (v6 ++ (names ++ svcs)) _
      ∙ ap (execute_all (v6 ++ (names ++ svcs))) (execute_all-upsert_ip_rows cx s.id 4 s.ipv4s _)
      ∙ execute_all-append v6 (names ++ svcs) _
      ∙ ap (execute_all (names ++ svcs)) (execute_all-upsert_ip_rows cx s.id 6 s.ipv6s _)
      ∙ execute_all-append names svcs _
      ∙ ap (execute_all svcs) (execute_all-upsert_hostnames s.id (hostname_row cx s) s.hostnames _)
      ∙ execute_all-upsert_services cx s.id s.last_seen s.services _)

find_by_mac-insert :
    (mac : Mac) (id : AssetId) (row : AssetRow) (rows : Map AssetRow)
    → row.mac ≡ mac_string mac
    → id ≡ generate_asset_id mac
    → Entries RowLaw rows
    → lookup id rows ≡ none
    → find_by_mac (mac_string mac) (insert id row rows) ≡ some (id, row)
unfolding find_by_mac insert lookup
find_by_mac-insert mac id row [] e n l h = rw e (rw (text_eq_refl (mac_string mac)) refl)
find_by_mac-insert mac id row ((j, r) ∷ rows) e n l h = elim (Bool-cases (text_eq j id)) [
  | inl f ↦ absurd (let h' : some r ≡ none = rw f at h in cc)
  | inr f ↦ rw f (elim (Bool-cases (text_eq r.mac (mac_string mac))) [
    | inl g ↦
        let same = mac_string_inj l.0.address mac (sym l.0.printed ∙ text_eq→eq r.mac _ g) in
        let j≡id : j ≡ id = l.0.named ∙ ap generate_asset_id same ∙ sym n in
        absurd (ground (arith, f, text_eq_iff j id, j≡id))
    | inr g ↦ rw g (find_by_mac-insert mac id row rows e n l.1 (rw f at h))
  ])
]

pub save_batch_succeeds :
    (cx : Codec) (fails : ℕ → Bool) (t : Tables) (ss : List AssetSnapshot)
    → (save_batch cx fails t ss).1 ≡ true
    → (save_batch cx fails t ss).0 ≡ execute_all (batch_statements cx ss) t
save_batch_succeeds cx fails t ss h = elim (save_batch_atomic cx fails t ss) [
  | inl e ↦ ap (λ r. r.0) e
  | inr (e, w) ↦ absurd (let q : false ≡ true = sym (ap (λ r. r.1) e) ∙ h in cc)
]

-- The row of the asset, read from the tables afterwards.
read_saved :
    (cx : Codec) (s : AssetSnapshot) (t : Tables)
    → CodecLaw cx
    → Clean cx s
    → IsHardware s.mac
    → Fresh s.id t
    → SameAsset s (read_asset cx (saved cx s t) (s.id, asset_row cx s))
unfolding read_asset saved asset_row saved_ips conflict_service lookup
read_saved cx s t law c hw fresh =
    let ips : rows_of s.id (saved cx s t).ips ≡ saved_ips cx s =
      rows_of-put_rows conflict_ip s.id (ip_rows cx 6 s.ipv6s) _
      ∙ ap (add_rows conflict_ip (ip_rows cx 6 s.ipv6s)) (
          rows_of-put_rows conflict_ip s.id (ip_rows cx 4 s.ipv4s) t.ips
          ∙ ap (add_rows conflict_ip (ip_rows cx 4 s.ipv4s)) fresh.ips) in
    let names = hostname_rows (hostname_row cx s) s.hostnames in
    let hosts : rows_of s.id (saved cx s t).hostnames ≡ add_rows conflict_hostname names [] =
      rows_of-put_rows conflict_hostname s.id names t.hostnames
      ∙ ap (add_rows conflict_hostname names) fresh.hostnames in
    let svcs : rows_of s.id (saved cx s t).services ≡ service_rows cx s.last_seen s.services =
      rows_of-put_rows conflict_service s.id (service_rows cx s.last_seen s.services) t.services
      ∙ ap (add_rows conflict_service (service_rows cx s.last_seen s.services)) fresh.services
      ∙ add_rows-nil conflict_service (λ r. refl) _
          (IsMap-service_rows cx s.last_seen s.services c.services_clean c.services_map) in
    record {
      id = refl;
      mac = parse_mac-mac_string s.mac hw;
      ipv4s = λ ip. rw ips (read_ips cx s ip law c).0;
      ipv6s = λ ip. rw ips (read_ips cx s ip law c).1;
      hostnames = λ h. rw hosts (
          has-load_hostnames (add_rows conflict_hostname names []) h
          ∙ is_some-add_rows conflict_hostname names [] h
          ∙ rw (is_some-hostname_rows (hostname_row cx s) s.hostnames h) (ground arith));
      services = λ k. rw svcs (
          ap (λ l. lookup k (keyed l))
            (load_services-service_rows cx s.last_seen s.services law c.services_clean));
      mac_vendor = refl;
      device_type = refl;
      model = refl;
      os = refl;
      extra = c.extra_read;
      first_seen = parse_time_str-time_fmt cx s.first_seen law c.first_printable;
      last_seen = parse_time_str-time_fmt cx s.last_seen law c.last_printable;
      seen_count = refl;
      status = refl;
    }

printed_nonempty : (m : Mac) → IsHardware m → is_empty (mac_string m) ≡ false
unfolding mac_string is_empty
printed_nonempty [] h = absurd (let e = h.size in cc)
printed_nonempty (b ∷ m) h = refl

find_saved :
    (cx : Codec) (s : AssetSnapshot) (t : Tables)
    → DbLaw t
    → Fresh s.id t
    → SavedLaw s
    → find_by_mac (mac_string s.mac) (saved cx s t).assets ≡ some (s.id, asset_row cx s)
unfolding saved conflict_asset asset_row
find_saved cx s t d fresh sl =
    rw fresh.assets
      (find_by_mac-insert s.mac s.id (asset_row cx s) t.assets refl sl.law d fresh.assets)

-- A snapshot with a hardware address and its id, saved by a batch that reports success to tables that
-- have no row of its id, is what LoadAssetByMAC returns for its address, when no query fails: every
-- field is as before, the maps and the services by their keys, the host names as a set without the
-- empty one. Asked are leases of whole seconds, no address in both maps, services of servers on
-- distinct ports that carry their own time, extras that JSON reads back, and times before the year
-- 10000.
pub save_batch-load_asset_by_mac :
    (cx : Codec) (fails reads : ℕ → Bool) (t : Tables) (s : AssetSnapshot)
    → CodecLaw cx
    → ((n : ℕ) → reads n ≡ false)
    → DbLaw t
    → Fresh s.id t
    → SavedLaw s
    → Clean cx s
    → (save_batch cx fails t (s ∷ [])).1 ≡ true
    → Gives
        (SameAsset s)
        (load_asset_by_mac cx reads (save_batch cx fails t (s ∷ [])).0 (mac_string s.mac))
unfolding load_asset_by_mac load_found load_children
save_batch-load_asset_by_mac cx fails reads t s law ok d fresh sl c done =
    let after = save_batch_succeeds cx fails t (s ∷ []) done ∙ execute_all-snapshot cx s t in
    let named = printed_nonempty s.mac sl.hardware in
    let found : find_by_mac (mac_string s.mac) (saved cx s t).assets ≡ some (s.id, asset_row cx s) =
      find_saved cx s t d fresh sl in
    rw after (
      rw named
        (rw (ok 0) (rw found (rw (ok 1, ok 2, ok 3) (read_saved cx s t law c sl.hardware fresh)))))
