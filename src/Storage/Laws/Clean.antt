-- ===== src/Storage/Laws/Clean.antt =====
-- The snapshots that a database keeps as they are, and the reading of their entries.
use asset_discovery.Asset.Merge.{has}
use asset_discovery.Asset.Types.{AssetId, AssetSnapshot, IpEntry, Service}
use asset_discovery.Prelude.{
  All, Bool-cases, List, [], ap, arith, false, if◌then◌else◌, inl, inr, leb, none, not, refl, sym,
  true, ==_iff, ℕ, ◌%◌, ◌&&◌, ◌*◌, ◌/◌, ◌<◌, ◌==◌, ◌^◌, ◌∙◌, ◌∷◌, ◌≡◌, ◌≤◌, ◌⊎◌,
}
use asset_discovery.Prelude.Map.{Map, lookup}
use asset_discovery.Prelude.Map.Laws.{Entries, IsMap}
use asset_discovery.Prelude.Text.{Text, is_empty}
use asset_discovery.Prelude.Time.{Time, is_zero, max_int64, pos, second, sub_ℕ, wrap_int64}
use asset_discovery.Storage.{
  Codec, Tables, extra_column, parse_time_str, port_key_text, read_extra, rows_of, time_fmt,
}
use asset_discovery.Storage.Load.{lease_of, read_ip, read_service}
use asset_discovery.Storage.Save.{ip_row, service_row, whole_seconds}

-- The first time that RFC 3339 cannot print, the start of the year 10000.
abbrev pub year_10000 : Time
year_10000 = 315_537_897_600 * second

-- What time.Format and time.Parse do with a time that RFC 3339 can print.
pub record CodecLaw (cx : Codec) : Type 0 where
  pub printed : (t : Time) → t < year_10000 → is_empty (cx.format_time t) ≡ false
  pub parsed : (t : Time) → t < year_10000 → cx.parse_time (cx.format_time t) ≡ t

-- A lease of whole seconds, and times that can be printed.
pub record CleanEntry (e : IpEntry) : Type 0 where
  pub seconds : ℕ
  pub lease_whole : e.lease ≡ pos (seconds * second)
  pub lease_fits : seconds * second ≤ max_int64
  pub first_printable : e.first_seen < year_10000
  pub last_printable : e.last_seen < year_10000

-- A server's service that is not skipped and carries its own time.
pub record CleanService (svc : Service) : Type 0 where
  pub server : svc.is_client ≡ false
  pub named : (is_empty svc.protocol && svc.port == 0) ≡ false
  pub dated : is_zero svc.last_seen ≡ false
  pub printable : svc.last_seen < year_10000

-- The services by the key of their table.
unfoldable pub keyed : List Service → Map Service
keyed [] = []
keyed (svc ∷ svcs) = (port_key_text svc.protocol svc.port, svc) ∷ keyed svcs

pub record Clean (cx : Codec) (s : AssetSnapshot) : Type 0 where
  pub ipv4s_map : IsMap s.ipv4s
  pub ipv6s_map : IsMap s.ipv6s
  pub ips_apart : (ip : Text) → (lookup ip s.ipv4s ≡ none) ⊎ (lookup ip s.ipv6s ≡ none)
  pub ipv4s_clean : Entries (λ ip e. CleanEntry e) s.ipv4s
  pub ipv6s_clean : Entries (λ ip e. CleanEntry e) s.ipv6s
  pub services_map : IsMap (keyed s.services)
  pub services_clean : All CleanService s.services
  pub extra_read : read_extra cx (extra_column cx s.extra) ≡ s.extra
  pub first_printable : s.first_seen < year_10000
  pub last_printable : s.last_seen < year_10000

-- The tables have no row of the asset.
pub record Fresh (id : AssetId) (t : Tables) : Type 0 where
  pub assets : lookup id t.assets ≡ none
  pub ips : rows_of id t.ips ≡ []
  pub hostnames : rows_of id t.hostnames ≡ []
  pub services : rows_of id t.services ≡ []

-- The same asset, up to the order of maps and lists and to empty host names.
pub record SameAsset (s l : AssetSnapshot) : Type 0 where
  pub id : l.id ≡ s.id
  pub mac : l.mac ≡ s.mac
  pub ipv4s : (ip : Text) → lookup ip l.ipv4s ≡ lookup ip s.ipv4s
  pub ipv6s : (ip : Text) → lookup ip l.ipv6s ≡ lookup ip s.ipv6s
  pub hostnames : (h : Text) → has h l.hostnames ≡ (not (is_empty h) && has h s.hostnames)
  pub services : (k : Text) → lookup k (keyed l.services) ≡ lookup k (keyed s.services)
  pub mac_vendor : l.mac_vendor ≡ s.mac_vendor
  pub device_type : l.device_type ≡ s.device_type
  pub model : l.model ≡ s.model
  pub os : l.os ≡ s.os
  pub extra : l.extra ≡ s.extra
  pub first_seen : l.first_seen ≡ s.first_seen
  pub last_seen : l.last_seen ≡ s.last_seen
  pub seen_count : l.seen_count ≡ s.seen_count
  pub status : l.status ≡ s.status

pub parse_time_str-time_fmt :
    (cx : Codec) (t : Time) → CodecLaw cx → t < year_10000 → parse_time_str cx (time_fmt cx t) ≡ t
unfolding parse_time_str time_fmt is_empty
parse_time_str-time_fmt cx t law h = elim (Bool-cases (is_zero t)) [
  | inl e ↦ rw e (sym ((==_iff t 0).0 e))
  | inr e ↦ rw e (rw (law.printed t h) (law.parsed t h))
]

wrap_int64-small : (m : ℕ) → m ≤ max_int64 → wrap_int64 (pos m) ≡ pos m
unfolding wrap_int64
wrap_int64-small m h =
    let r : m % 2 ^ 64 ≡ m = omega (arith, h) in
    let l : leb m max_int64 ≡ true = ground (arith, h) in rw r (rw l refl)

lease_of-whole_seconds :
    (n : ℕ)
    → n * second ≤ max_int64
    → lease_of (whole_seconds (pos (n * second))) ≡ pos (n * second)
unfolding lease_of whole_seconds
lease_of-whole_seconds n h =
    let q : n * second / second ≡ n = omega arith in
    let s : sub_ℕ (n * second) 0 ≡ pos (n * second) = ground arith in
    rw q (ap wrap_int64 s ∙ wrap_int64-small (n * second) h)

pub read_ip-ip_row :
    (cx : Codec) (v : ℕ) (e : IpEntry) → CodecLaw cx → CleanEntry e → read_ip cx (ip_row cx v e) ≡ e
unfolding read_ip ip_row
read_ip-ip_row cx v e law c =
    let f = parse_time_str-time_fmt cx e.first_seen law c.first_printable in
    let l = parse_time_str-time_fmt cx e.last_seen law c.last_printable in
    let n : lease_of (whole_seconds e.lease) ≡ e.lease =
      rw c.lease_whole (lease_of-whole_seconds c.seconds c.lease_fits) in
    rw (f, l, n) refl

pub read_service-service_row :
    (cx : Codec) (at : Time) (svc : Service)
    → CodecLaw cx
    → CleanService svc
    → read_service cx (service_row cx at svc) ≡ svc
unfolding read_service service_row
read_service-service_row cx at svc law c =
    let at' = time_fmt cx at in
    let q : parse_time_str cx (service_row cx at svc).last_seen ≡ svc.last_seen =
      ap (λ b. parse_time_str cx (if b then at' else time_fmt cx svc.last_seen)) c.dated
      ∙ parse_time_str-time_fmt cx svc.last_seen law c.printable in
    rw q (rw (sym c.server) refl)
