-- ===== src/Ego/Storage/Rows.antt =====
-- The operations of internal/ego/storage.go on events and settings. A method returns its result and
-- the storage after it; `none` is a nil pointer.
use cli_control_account.Base.{
  ℕ, suc, ◌-◌, List, [], ◌∷◌, ◌++◌, true, not, ◌||◌, Option, none, some, if◌then◌else◌, is_empty,
  keep, length,
}
use cli_control_account.Base.Int.{ℤ, pos, ltb_ℤ, leb_ℤ}
use cli_control_account.Text.{Text}
use cli_control_account.TextMap.{lookup, insert}
use cli_control_account.Ego.Events.{EgoEvent}
use cli_control_account.Ego.Storage.Engine.{
  exec_sql, query, Faults, storage_nil, days_not_positive, stat_failed, call_failed, Result, ok,
  err, Db, Storage, open_db, with_db, transaction, stored,
}

module _ {F : Type 0} where
  -- The row of an event gets the next id.
  unfoldable pub insert_event : Db F → EgoEvent → Db F
  insert_event db e = record db {
    events = db.events ++ record e { id = pos db.next_id } ∷ [];
    next_id = suc db.next_id;
  }

  unfoldable pub insert_batch :
      Faults → List EgoEvent → Option (Storage F) → Result (Unit {0}) × Option (Storage F)
  unfolding transaction
  insert_batch faults events p = elim (open_db p) [
    | none ↦ (err storage_nil, p)
    | some (s, db) ↦
        if is_empty events then (ok tt, p) else stored s (transaction faults insert_event events db)
  ]

  unfoldable pub close : Option (Storage F) → Option (Storage F)
  close p = elim (open_db p) [ none ↦ p | some (s, db) ↦ with_db s (record db { closed = true }) ]

  unfoldable pub path : Option (Storage F) → Text
  path none = []
  path (some s) = s.db_path

  -- The size of the file at the path, as os.Stat reports it; `none` is its error.
  unfoldable pub get_database_size : (Text → Option ℕ) → Option (Storage F) → Result ℕ
  get_database_size stat none = err storage_nil
  get_database_size stat (some s) = elim (stat s.db_path) [ none ↦ err stat_failed | some n ↦ ok n ]

  -- `days_ago n` is the instant n calendar days before the present.
  unfoldable pub prune_older_than :
      (ℤ → ℤ) → Faults → ℤ → Option (Storage F) → Result ℕ × Option (Storage F)
  prune_older_than days_ago faults days p = elim (open_db p) [
    | none ↦ (err storage_nil, p)
    | some (s, db) ↦
        let kept = keep (λ e. not (ltb_ℤ e.timestamp (days_ago days))) db.events in
        if leb_ℤ days (pos 0)
        then (err days_not_positive, p)
        else if faults exec_sql || db.closed
        then (err (call_failed exec_sql), p)
        else (ok (length db.events - length kept), with_db s (record db { events = kept }))
  ]

  unfoldable pub reset_database :
      Faults → Option (Storage F) → Result (Unit {0}) × Option (Storage F)
  reset_database faults p = elim (open_db p) [
    | none ↦ (err storage_nil, p)
    | some (s, db) ↦
        if faults exec_sql || db.closed
        then (err (call_failed exec_sql), p)
        else (ok tt, with_db s (record db { events = [] }))
  ]

  unfoldable pub get_total_records : Faults → Option (Storage F) → Result ℕ
  get_total_records faults p = elim (open_db p) [
    | none ↦ err storage_nil
    | some (s, db) ↦
        if faults query || db.closed then err (call_failed query) else ok (length db.events)
  ]

  unfoldable pub get_config : Faults → Text → Text → Option (Storage F) → Text
  get_config faults key default_val p = elim (open_db p) [
    | none ↦ default_val
    | some (s, db) ↦ elim (lookup key db.config) [
      | none ↦ default_val
      | some val ↦ if faults query || db.closed then default_val else val
    ]
  ]

  unfoldable pub set_config :
      Faults → Text → Text → Option (Storage F) → Result (Unit {0}) × Option (Storage F)
  set_config faults key val p = elim (open_db p) [
    | none ↦ (err storage_nil, p)
    | some (s, db) ↦
        if faults exec_sql || db.closed
        then (err (call_failed exec_sql), p)
        else (ok tt, with_db s (record db { config = insert key val db.config }))
  ]
