-- ===== src/Storage/Open.antt =====
-- The data source name that OpenSQLite of internal/storage/sqlite.go opens the database with.
use asset_discovery.Prelude.{Bool, List, Option, [], if◌then◌else◌, none, some, ℕ, ◌++◌, ◌/◌, ◌∷◌}
use asset_discovery.Prelude.Text.{Text, is_empty, itoa, text}
use asset_discovery.Prelude.Time.{Duration, ltb_ℤ, pos, pos_part}

pub record SqliteOptions : Type 0 where
  pub path : Text
  pub wal : Bool
  pub busy_timeout : Duration

abbrev millisecond : ℕ
millisecond = 1_000_000

-- A wait that is not positive is five seconds.
unfoldable pub pragmas : SqliteOptions → List Text
pragmas opts =
    (if opts.wal then text "journal_mode(WAL)" else text "journal_mode(DELETE)")
    ∷ text "foreign_keys(ON)"
    ∷ text "synchronous(NORMAL)"
    ∷ (if ltb_ℤ (pos 0) opts.busy_timeout
        then text "busy_timeout(" ++ itoa (pos_part opts.busy_timeout / millisecond) ++ text ")"
        else text "busy_timeout(5000)")
    ∷ []

unfoldable pub join_pragmas : List Text → Text
join_pragmas [] = []
join_pragmas (p ∷ ps) = text "&_pragma=" ++ p ++ join_pragmas ps

abbrev pub dsn_of : Text → List Text → Text
dsn_of path [] = path
dsn_of path (p ∷ ps) = path ++ text "?_pragma=" ++ p ++ join_pragmas ps

-- No name where the path is empty, which is an error.
unfoldable pub data_source_name : SqliteOptions → Option Text
unfolding pragmas join_pragmas
data_source_name opts = if is_empty opts.path then none else some (dsn_of opts.path (pragmas opts))
