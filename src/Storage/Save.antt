-- ===== src/Storage/Save.antt =====
-- SaveBatch of internal/storage/sqlite.go with upsertAsset, replaceChildRows and upsertIPRow: the
-- statements of a batch, in one transaction. `fails n` tells whether the call number n of the driver
-- fails, BeginTx being number 0 and Commit the last; a transaction that does not commit changes
-- nothing.
use asset_discovery.Asset.Identity.{mac_string}
use asset_discovery.Asset.Types.{AssetId, AssetSnapshot, IpEntry, Service}
use asset_discovery.Prelude.{
  Bool, List, Option, [], false, if◌then◌else◌, none, some, suc, true, ℕ, ◌&&◌, ◌++◌, ◌+◌, ◌/◌,
  ◌==◌, ◌∷◌,
}
use asset_discovery.Prelude.Map.{Map}
use asset_discovery.Prelude.Text.{Text, is_empty}
use asset_discovery.Prelude.Time.{Duration, Time, is_zero, second, sub_ℕ, ℤ, pos, negsuc}
use asset_discovery.Storage.{
  AssetRow, Codec, HostnameRow, IpRow, ServiceRow, Statement, Tables, execute, extra_column,
  insert_asset, insert_hostname, insert_ip, insert_service, time_fmt,
}

-- int64(d.Seconds()), which cuts off the fraction; the rounding of the float64 is left out.
unfoldable pub whole_seconds : Duration → ℤ
whole_seconds (pos n) = pos (n / second)
whole_seconds (negsuc n) = sub_ℕ 0 ((n + 1) / second)

-- The VALUES of upsertAsset. The text of no address is empty, as macStr has it.
unfoldable pub asset_row : Codec → AssetSnapshot → AssetRow
unfolding time_fmt extra_column mac_string
asset_row cx s = record {
  status = s.status;
  mac = mac_string s.mac;
  mac_vendor = s.mac_vendor;
  device_type = s.device_type;
  model = s.model;
  os = s.os;
  extra_json = extra_column cx s.extra;
  first_seen = time_fmt cx s.first_seen;
  last_seen = time_fmt cx s.last_seen;
  seen_count = s.seen_count;
}

unfoldable pub upsert_asset : Codec → AssetSnapshot → Statement
unfolding asset_row
upsert_asset cx s = insert_asset s.id (asset_row cx s)

unfoldable pub ip_row : Codec → ℕ → IpEntry → IpRow
unfolding time_fmt whole_seconds
ip_row cx version e = record {
  version = version;
  first_seen = time_fmt cx e.first_seen;
  last_seen = time_fmt cx e.last_seen;
  lease_seconds = whole_seconds e.lease;
  is_active = e.is_active;
}

unfoldable pub upsert_ip_rows : Codec → AssetId → ℕ → Map IpEntry → List Statement
unfolding ip_row
upsert_ip_rows cx id version [] = []
upsert_ip_rows cx id version ((ip, e) ∷ m) =
    insert_ip id ip (ip_row cx version e) ∷ upsert_ip_rows cx id version m

unfoldable pub hostname_row : Codec → AssetSnapshot → HostnameRow
unfolding time_fmt
hostname_row cx s = record {
  first_seen = time_fmt cx s.first_seen;
  last_seen = time_fmt cx s.last_seen;
}

unfoldable pub upsert_hostnames : AssetId → HostnameRow → List Text → List Statement
upsert_hostnames id row [] = []
upsert_hostnames id row (h ∷ hs) =
    let rest = upsert_hostnames id row hs in
    if is_empty h then rest else insert_hostname id h row ∷ rest

unfoldable pub service_row : Codec → Time → Service → ServiceRow
unfolding time_fmt
service_row cx asset_last_seen svc = record {
  protocol = svc.protocol;
  port = svc.port;
  name = svc.name;
  version = svc.version;
  product = svc.product;
  vendor = svc.vendor;
  banner = svc.banner;
  is_active = svc.is_active;
  last_seen =
      if is_zero svc.last_seen then time_fmt cx asset_last_seen else time_fmt cx svc.last_seen;
}

unfoldable pub upsert_services : Codec → AssetId → Time → List Service → List Statement
unfolding service_row
upsert_services cx id asset_last_seen [] = []
upsert_services cx id asset_last_seen (svc ∷ svcs) =
    let rest = upsert_services cx id asset_last_seen svcs in
    if is_empty svc.protocol && svc.port == 0
    then rest
    else insert_service id (service_row cx asset_last_seen svc) ∷ rest

unfoldable pub replace_child_rows : Codec → AssetSnapshot → List Statement
unfolding upsert_ip_rows upsert_hostnames hostname_row upsert_services
replace_child_rows cx s =
    upsert_ip_rows cx s.id 4 s.ipv4s
    ++ (upsert_ip_rows cx s.id 6 s.ipv6s
        ++ (upsert_hostnames s.id (hostname_row cx s) s.hostnames
            ++ upsert_services cx s.id s.last_seen s.services))

-- The loop of SaveBatch.
unfoldable pub batch_statements : Codec → List AssetSnapshot → List Statement
unfolding upsert_asset replace_child_rows
batch_statements cx [] = []
batch_statements cx (s ∷ ss) = upsert_asset cx s ∷ replace_child_rows cx s ++ batch_statements cx ss

-- The statements one after the other, up to the first that fails: the number of the next call.
unfoldable pub run_statements : (ℕ → Bool) → ℕ → List Statement → Tables → Option (ℕ × Tables)
unfolding execute
run_statements fails n [] t = some (n, t)
run_statements fails n (st ∷ sts) t =
    let rest = run_statements fails (suc n) sts (execute st t) in if fails n then none else rest

-- Commit, or the deferred Rollback: the tables, and whether there was no error.
unfoldable pub finish_tx : (ℕ → Bool) → Tables → Option (ℕ × Tables) → Tables × Bool
finish_tx fails t none = (t, false)
finish_tx fails t (some (n, t')) = if fails n then (t, false) else (t', true)

unfoldable pub save_batch : Codec → (ℕ → Bool) → Tables → List AssetSnapshot → Tables × Bool
unfolding batch_statements run_statements finish_tx
save_batch cx fails t ss =
    if is_empty ss
    then (t, true)
    else if fails 0
    then (t, false)
    else finish_tx fails t (run_statements fails 1 (batch_statements cx ss) t)
