-- ===== src/Ego/Storage/Open.antt =====
-- `OpenStorage` of internal/ego/storage.go.
use cli_control_account.Base.{
  [], ◌++◌, Bool, not, ◌&&◌, ◌||◌, Option, none, some, if◌then◌else◌, is_empty,
}
use cli_control_account.Base.Int.{ℤ}
use cli_control_account.Text.{Text, text, eq_text, contains}
use cli_control_account.Ego.Storage.Engine.{
  exec_sql, Faults, mkdir_failed, open_failed, Result, ok, err, ◌>>=◌, ◌>>◌, fail_if, Db, Storage,
  call,
}
use cli_control_account.Ego.Storage.Prices.{Embedded, init_pricing}

-- What OpenStorage reads of the system: the environment variable EGO_DB_PATH, whether `plugins` is
-- a directory, whether the directory of a path can be made, the databases by data source name,
-- `none` where sql.Open fails, and the number of in-memory databases opened so far.
pub record System (F : Type 0) : Type 0 where
  pub ego_db_path : Text
  pub plugins_is_dir : Bool
  pub mkdir_fails : Text → Bool
  pub open_source : Text → Option (Db F)
  pub memory_name : Text

unfoldable pub is_memory : Text → Bool
is_memory path =
    eq_text path (text ":memory:")
    || (eq_text path (text "file::memory:") || contains path (text "mode=memory"))

unfoldable pub data_source_name : Text → Text → Text
data_source_name memory_name path =
    if is_memory path
    then text "file:egomemory" ++ (memory_name ++ text "?mode=memory&cache=shared")
    else path
      ++ ((if contains path (text "?") then text "&" else text "?")
          ++ text
              "_pragma=busy_timeout(5000)&_pragma=journal_mode(WAL)&_pragma=synchronous(NORMAL)")

module _ {F : Type 0} where
  unfoldable pub default_database_path : System F → Text
  default_database_path sys =
      if is_empty sys.ego_db_path
      then if sys.plugins_is_dir then text "plugins/ego.db" else text "ego.db"
      else sys.ego_db_path

  abbrev opened : Option (Db F) → Result (Db F)
  opened none = err open_failed
  opened (some db) = ok db

  -- `initSchema` creates tables and columns that are not there, and changes no row.
  unfoldable pub open_storage : ℤ → Faults → Embedded F → System F → Text → Result (Storage F)
  unfolding default_database_path data_source_name is_memory init_pricing
  open_storage now faults embedded sys given =
      let path = if is_empty given then default_database_path sys else given in
      do
        fail_if (not (is_memory path) && sys.mkdir_fails path) mkdir_failed
        db ← opened (sys.open_source (data_source_name sys.memory_name path))
        call faults db exec_sql
        init_pricing now faults embedded
            (record { db = some db; db_path = path; pricing_cache = [] }) db
