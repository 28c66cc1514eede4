-- ===== src/Storage/Tests.antt =====
-- The theorems on the storage at small tables, with times that are printed as one character.
use asset_discovery.Asset.Identity.{generate_asset_id, mac_string}
use asset_discovery.Asset.Lifecycle.Load.{SnapshotLaw}
use asset_discovery.Asset.Shard.Locked.{HydratorLaw}
use asset_discovery.Asset.Tests.{entry, laptop, laptop_mac}
use asset_discovery.Asset.Types.{AssetSnapshot, snapshot}
use asset_discovery.Prelude.{
  All, All-append, All-take, Bool, Bool-cases, Gives, List, Option, Option-cases, [], ap, arith,
  drop, false, get_elem?, if◌then◌else◌, inl, inr, leb, leb→le, length, length-append, length-drop,
  length-take, lt→ltb, ltb, ltb→lt, map, none, not, refl, some, suc, sym, take, take-append-drop,
  true, zero, ==_iff, ℕ, ◌%◌, ◌&&◌, ◌*◌, ◌++◌, ◌+◌, ◌-◌, ◌/◌, ◌<◌, ◌==◌, ◌^◌, ◌||◌, ◌↔◌, ◌∙◌, ◌∷◌,
  ◌≡◌, ◌≢◌, ◌≤◌, ◌⊎◌,
}
use asset_discovery.Prelude.Map.{lookup}
use asset_discovery.Prelude.Text.{Text, is_empty, text, text_eq_refl}
use asset_discovery.Prelude.Time.{Time, pos, second}
use asset_discovery.Storage.{AssetRow, Codec, Tables, conflict_asset, empty_tables}
use asset_discovery.Storage.Laws.{DbLaw, Fails, SavedLaw, execute_all, save_batch_atomic}
use asset_discovery.Storage.Laws.Clean.{Clean, CodecLaw, Fresh, SameAsset}
use asset_discovery.Storage.Laws.Conflict.{KeptIn, save_batch-Kept}
use asset_discovery.Storage.Laws.Fractions.{NanoLaw, fraction, later_sighting_unsaved}
use asset_discovery.Storage.{parse_time_str, time_fmt}
use asset_discovery.Storage.Laws.Hydrate.{IfSome, save_batch-Hydrates}
use asset_discovery.Storage.Laws.RoundTrip.{save_batch-load_asset_by_mac}
use asset_discovery.Storage.Load.{LoadOptions, load_asset_by_mac, load_assets}
use asset_discovery.Storage.Mac.{parse_mac}
use asset_discovery.Storage.Save.{asset_row, batch_statements, save_batch}

abbrev first_or_zero : Text → Time
first_or_zero [] = 0
first_or_zero (c ∷ s) = c

abbrev pub codec : Codec
codec = record {
  format_time = λ t. t ∷ [];
  parse_time = first_or_zero;
  marshal = λ m. text "{}";
  unmarshal = λ s. [];
  like = λ p s. false;
}

codec-CodecLaw : CodecLaw codec
unfolding is_empty
codec-CodecLaw = record { printed = λ t h. refl; parsed = λ t h. refl }

-- The laptop with an address, and with the same host name twice.
abbrev pub stored : AssetSnapshot
stored = record (snapshot laptop) {
  ipv4s = (text "10.0.0.7", record (entry 10) { lease = pos (3600 * second) }) ∷ [];
  hostnames = text "laptop" ∷ [] ∷ text "laptop" ∷ [];
}

abbrev pub no_failure : ℕ → Bool
no_failure n = false

-- The second statement of a batch fails.
abbrev third_call_fails : ℕ → Bool
third_call_fails n = n == 2

abbrev options : LoadOptions
options = record { since = 5; limit = 1 }

dotted : parse_mac (text "0211.2233.4455") ≡ laptop_mac
unfolding parse_mac asset_discovery.Storage.Mac.dotted_bytes asset_discovery.Storage.Mac.hex_value
dotted = refl

too_short : parse_mac (text "02:11:22:33:44") ≡ []
unfolding parse_mac asset_discovery.Storage.Mac.paired_bytes asset_discovery.Storage.Mac.hex_value
too_short = refl

pub stored-SavedLaw : SavedLaw stored
unfolding snapshot
stored-SavedLaw = record {
  law = refl;
  hardware = record {
    size = refl;
    bytes = (
      omega arith,
      (omega arith, (omega arith, (omega arith, (omega arith, (omega arith, tt))))),
    );
  };
}

stored-Clean : Clean codec stored
unfolding snapshot lookup asset_discovery.Storage.Laws.Clean.keyed
    asset_discovery.Storage.read_extra asset_discovery.Storage.extra_column
    asset_discovery.Prelude.Text.is_empty
stored-Clean = record {
  ipv4s_map = (refl, tt);
  ipv6s_map = tt;
  ips_apart = λ ip. inr refl;
  ipv4s_clean = (
    record {
      seconds = 3600;
      lease_whole = refl;
      lease_fits = omega arith;
      first_printable = omega arith;
      last_printable = omega arith;
    },
    tt,
  );
  ipv6s_clean = tt;
  services_map = (refl, tt);
  services_clean =
      (record { server = refl; named = refl; dated = refl; printable = omega arith }, tt);
  extra_read = refl;
  first_printable = omega arith;
  last_printable = omega arith;
}

save_batch_atomic_example :
    (save_batch codec third_call_fails empty_tables (stored ∷ [])
      ≡ (execute_all (batch_statements codec (stored ∷ [])) empty_tables, true))
    ⊎ ((save_batch codec third_call_fails empty_tables (stored ∷ []) ≡ (empty_tables, false))
        × Fails third_call_fails (1 + length (batch_statements codec (stored ∷ []))))
save_batch_atomic_example = save_batch_atomic codec third_call_fails empty_tables (stored ∷ [])

save_batch-Hydrates_example :
    let t' = (save_batch codec no_failure empty_tables (stored ∷ [])).0 in
    DbLaw t'
    × HydratorLaw (some (load_asset_by_mac codec no_failure t'))
    × IfSome (All SnapshotLaw) (load_assets codec no_failure options t')
save_batch-Hydrates_example =
    save_batch-Hydrates codec no_failure no_failure options empty_tables (stored ∷ []) tt
      (stored-SavedLaw, tt)

save_batch-load_asset_by_mac_example : Gives (SameAsset stored) (
    load_asset_by_mac codec no_failure
      (save_batch codec no_failure empty_tables (stored ∷ [])).0
      (mac_string stored.mac))
unfolding lookup asset_discovery.Storage.rows_of save_batch asset_discovery.Prelude.Text.is_empty
    asset_discovery.Storage.Save.run_statements asset_discovery.Storage.Save.finish_tx
    asset_discovery.Storage.Save.batch_statements snapshot
save_batch-load_asset_by_mac_example =
    save_batch-load_asset_by_mac codec no_failure no_failure empty_tables stored codec-CodecLaw
      (λ n. refl) tt (record { assets = refl; ips = refl; hostnames = refl; services = refl })
      stored-SavedLaw stored-Clean refl

abbrev pub stored_row : AssetRow
stored_row = record {
  status = asset_discovery.Asset.Types.online;
  mac = text "02:11:22:33:44:55";
  mac_vendor = text "Nokia";
  device_type = [];
  model = [];
  os = [];
  extra_json = none;
  first_seen = text "2024-05-01T10:00:00Z";
  last_seen = text "2024-05-01T10:00:05Z";
  seen_count = 3;
}

abbrev pub table_of_one : Tables
table_of_one = record empty_tables { assets = (generate_asset_id laptop_mac, stored_row) ∷ [] }

save_batch-Kept_example : KeptIn stored_row (
    lookup
      (generate_asset_id laptop_mac)
      (save_batch codec no_failure table_of_one (stored ∷ [])).0.assets)
save_batch-Kept_example =
    save_batch-Kept codec no_failure table_of_one (stored ∷ []) (generate_asset_id laptop_mac)
      stored_row (unfold lookup in rw (text_eq_refl (generate_asset_id laptop_mac)) refl)

-- A codec that prints the second as one byte, and the fraction as RFC3339Nano does.
abbrev nano_codec : Codec
nano_codec = record codec {
  format_time = λ u. (u / second) ∷ (fraction (u % second) ++ text "Z");
  parse_time = λ s. first_or_zero s * second;
}

nano_codec-NanoLaw : NanoLaw nano_codec
unfolding parse_time_str is_empty
nano_codec-NanoLaw = record {
  print_second = λ n. n ∷ [];
  printed = λ u h. refl;
  parsed = λ n h. omega arith;
}

-- A quarter of a second after the saved sighting.
abbrev later : AssetSnapshot
later = record stored { last_seen = 5_250_000_000 }

abbrev saved_at_five : AssetRow
saved_at_five = record stored_row { last_seen = time_fmt nano_codec (5 * second) }

abbrev table_at_five : Tables
table_at_five = record empty_tables { assets = (stored.id, saved_at_five) ∷ [] }

quarter : fraction 250_000_000 ≡ text ".25"
unfolding fraction is_empty
quarter = refl

is_committed : (save_batch nano_codec no_failure table_at_five (later ∷ [])).1 ≡ true
unfolding save_batch is_empty snapshot asset_discovery.Storage.Save.run_statements
    asset_discovery.Storage.Save.finish_tx batch_statements
is_committed = refl

later_sighting_unsaved_example :
    Gives
      (λ row. parse_time_str nano_codec row.last_seen ≡ 5 * second)
      (lookup stored.id (save_batch nano_codec no_failure table_at_five (later ∷ [])).0.assets)
later_sighting_unsaved_example =
    later_sighting_unsaved nano_codec no_failure table_at_five later saved_at_five 5
      nano_codec-NanoLaw (unfold lookup in rw (text_eq_refl stored.id) refl) refl (omega arith)
      (omega arith) (omega arith) (omega arith)
