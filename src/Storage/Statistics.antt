-- ===== src/Storage/Statistics.antt =====
-- SaveStatistics and LoadLastStatistics of internal/storage/sqlite.go, on the table statistics. The
-- numbers of the column packets_per_sec, float64, are those of any type.
use asset_discovery.Prelude.{Bool, Option, [], false, if◌then◌else◌, none, some, true, ℕ, ◌∷◌}
use asset_discovery.Prelude.Map.{Map, insert, lookup}
use asset_discovery.Prelude.Text.{Text}
use asset_discovery.Prelude.Text.Order.{text_ltb}
use asset_discovery.Prelude.Time.{Time}
use asset_discovery.Storage.{Codec, parse_time_str, time_fmt}

pub record Statistics (F : Type 0) : Type 0 where
  pub captured_at : Time
  pub packets_received : ℕ
  pub assets_count : ℕ
  pub packets_per_sec : F

-- The columns but the primary key captured_at.
pub record StatisticsRow (F : Type 0) : Type 0 where
  pub packets_received : ℕ
  pub assets_count : ℕ
  pub packets_per_sec : F

module _ {F : Type 0} where
  abbrev insert_new :
      Text
      → StatisticsRow F
      → Map (StatisticsRow F)
      → Option (StatisticsRow F)
      → Map (StatisticsRow F) × Bool
  insert_new k row rows none = (insert k row rows, true)
  insert_new k row rows (some old) = (rows, false)

  -- The table, and whether there was no error: a second row of one time violates the primary key.
  unfoldable pub save_statistics :
      Codec → Bool → Map (StatisticsRow F) → Statistics F → Map (StatisticsRow F) × Bool
  unfolding time_fmt lookup
  save_statistics cx fails rows s =
      let k = time_fmt cx s.captured_at in
      let row : StatisticsRow F = record {
        packets_received = s.packets_received;
        assets_count = s.assets_count;
        packets_per_sec = s.packets_per_sec;
      } in
      if fails then (rows, false) else insert_new k row rows (lookup k rows)

  -- ORDER BY captured_at DESC LIMIT 1
  abbrev later_row :
      Text → StatisticsRow F → Option (Text × StatisticsRow F) → Option (Text × StatisticsRow F)
  later_row k row none = some (k, row)
  later_row k row (some (j, other)) = if text_ltb k j then some (j, other) else some (k, row)

  unfoldable pub last_row : Map (StatisticsRow F) → Option (Text × StatisticsRow F)
  last_row [] = none
  last_row ((k, row) ∷ rows) = later_row k row (last_row rows)

  abbrev read_statistics : Codec → Option (Text × StatisticsRow F) → Option (Statistics F)
  read_statistics cx none = none
  read_statistics cx (some (k, row)) = some record {
    captured_at = parse_time_str cx k;
    packets_received = row.packets_received;
    assets_count = row.assets_count;
    packets_per_sec = row.packets_per_sec;
  }

  -- No result for an error or an empty table: the caller does not tell them apart.
  unfoldable pub load_last_statistics : Codec → Bool → Map (StatisticsRow F) → Option (Statistics F)
  unfolding parse_time_str last_row
  load_last_statistics cx fails rows = if fails then none else read_statistics cx (last_row rows)
