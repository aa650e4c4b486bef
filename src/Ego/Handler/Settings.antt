-- ===== src/Ego/Handler/Settings.antt =====
-- The settings and the maintenance endpoints of internal/ego/handler.go.
use cli_control_account.Base.{
  ◌≡◌, ◌≢◌, refl, sym, ap, ◌∙◌, Bool, true, false, not, ◌||◌, some, arith, is_empty, length,
}
use cli_control_account.Text.{text, eq_text}
use cli_control_account.Text.Laws.{eq_text_self}
use cli_control_account.TextMap.{insert}
use cli_control_account.Ego.Storage.Engine.{
  Faults, query, exec_sql, Db, Storage, with_db, days_not_positive,
}
use cli_control_account.Ego.Storage.Atomic.{NoFaults}
use cli_control_account.Ego.Storage.Config.{get_config-set_config}
use cli_control_account.Ego.Storage.Rows.{
  get_config, set_config, path, get_database_size, get_total_records, reset_database,
  prune_older_than,
}
use cli_control_account.Ego.Worker.{Worker, flag_text, store_flag, started, set_enabled}
use cli_control_account.Ego.Handler.{
  Request, Response, Env, failure, settings, was_reset, or_zero, answer, handle_get_settings,
  handle_post_settings, handle_prune, handle_reset,
}
use cli_control_account.Ego.Handler.Limits.{prune_days_pos}

-- What SetEnabled stores is what the next start reads.
stored_flag :
    {F : Type 0} (faults : Faults) (on : Bool) (s : Storage F) (db : Db F)
    → NoFaults faults
    → db.closed ≡ false
    → get_config faults (text "enabled") (text "true") (store_flag faults on (with_db s db))
      ≡ flag_text on
unfolding set_config
stored_flag faults on s db quiet live =
    get_config-set_config faults faults (text "enabled") (text "enabled") (flag_text on)
      (text "true") (record s { db = some db }) db refl (rw (quiet exec_sql, live) refl)
      (quiet query)
    ∙ rw (eq_text_self (text "enabled")) refl

flag_text_on : (on : Bool) → not (eq_text (flag_text on) (text "false")) ≡ on
unfolding eq_text
flag_text_on true = refl
flag_text_on false = refl

-- The database with the choice stored.
abbrev flagged : {F : Type 0} → Bool → Db F → Db F
flagged on db = record db { config = insert (text "enabled") (flag_text on) db.config }

store_flag_open :
    {F : Type 0} (faults : Faults) (on : Bool) (s : Storage F) (db : Db F)
    → NoFaults faults
    → db.closed ≡ false
    → store_flag faults on (with_db s db) ≡ with_db s (flagged on db)
unfolding set_config
store_flag_open faults on s db quiet live = rw (quiet exec_sql, live, store_flag) refl

-- The next start is enabled if the recording was turned on last.
started-store_flag :
    {F : Type 0} (faults : Faults) (on : Bool) (s : Storage F) (db : Db F)
    → NoFaults faults
    → db.closed ≡ false
    → started faults (store_flag faults on (with_db s db)) ≡ on
started-store_flag faults on s db quiet live =
    let at = store_flag_open faults on s db quiet live in
    ap (started faults) at
    ∙ ap (λ t. not (eq_text t (text "false")))
        (ap (get_config faults (text "enabled") (text "true")) (sym at)
          ∙ stored_flag faults on s db quiet live)
    ∙ flag_text_on on

-- The settings over an open database without failures.
abbrev pub settings_of : {F : Type 0} → Env → Bool → Storage F → Db F → Response F
settings_of env on s db = answer 200 (
    settings record {
      enabled = on;
      database_path = s.db_path;
      database_bytes = or_zero (get_database_size env.stat (some s));
      total_records = length db.events;
    })

handle_get_settings_open :
    {F : Type 0} (env : Env) (w : Worker F) (s : Storage F) (db : Db F)
    → NoFaults env.faults
    → db.closed ≡ false
    → w.storage ≡ with_db s db
    → handle_get_settings env w ≡ settings_of env w.enabled s db
unfolding handle_get_settings get_total_records path get_database_size
handle_get_settings_open env w s db quiet live open' = rw (open', quiet query, live) refl

set_enabled_open :
    {F : Type 0} (env : Env) (w : Worker F) (on : Bool) (s : Storage F) (db : Db F)
    → NoFaults env.faults
    → db.closed ≡ false
    → w.storage ≡ with_db s db
    → let w' = set_enabled env.faults on w in
      (w'.enabled ≡ on)
      × (started env.faults w'.storage ≡ on)
      × (handle_get_settings env w' ≡ settings_of env on s db)
unfolding set_enabled
set_enabled_open env w on s db quiet live open' = (
  refl,
  ap (λ p. started env.faults (store_flag env.faults on p)) open'
      ∙ started-store_flag env.faults on s db quiet live,
  handle_get_settings_open env (set_enabled env.faults on w) s (flagged on db) quiet live
      (ap (store_flag env.faults on) open' ∙ store_flag_open env.faults on s db quiet live),
)

module _ {F : Type 0} (env : Env) (w : Worker F) (req : Request) (s : Storage F) (db : Db F) where
  -- Over an open database without failures, a settings request with the query parameter `enabled`
  -- turns the recording on for `true` and `1`, and off for anything else. A worker that starts on
  -- the storage afterwards has the same choice, and the answer is 200 with this choice, the path
  -- and the size of the database and the number of its events.
  pub handle_post_settings_lem :
      NoFaults env.faults
      → db.closed ≡ false
      → w.storage ≡ with_db s db
      → is_empty (req.query (text "enabled")) ≡ false
      → let on =
          eq_text (req.query (text "enabled")) (text "true")
          || eq_text (req.query (text "enabled")) (text "1") in
        let (response, w') = handle_post_settings env w req in
        (w'.enabled ≡ on)
        × (started env.faults w'.storage ≡ on)
        × (response ≡ settings_of env on s db)
  unfolding handle_post_settings
  handle_post_settings_lem quiet live open' given =
      let on =
        eq_text (req.query (text "enabled")) (text "true")
        || eq_text (req.query (text "enabled")) (text "1") in
      rw given (set_enabled_open env w on s db quiet live open')

  -- Over an open database without failures, a reset is answered 200, and the settings that are read
  -- next count no records.
  pub handle_reset_lem :
      NoFaults env.faults
      → db.closed ≡ false
      → w.storage ≡ with_db s db
      → let (response, w') = handle_reset env w in
        (response ≡ answer 200 was_reset)
        × (handle_get_settings env w'
            ≡ answer 200 (
                settings record {
                  enabled = w.enabled;
                  database_path = s.db_path;
                  database_bytes = or_zero (get_database_size env.stat w.storage);
                  total_records = 0;
                }))
  unfolding handle_reset handle_get_settings reset_database get_total_records path get_database_size
  handle_reset_lem quiet live open' =
      (rw (open', quiet exec_sql, live) refl, rw (open', quiet exec_sql, live, quiet query) refl)

-- A pruning is never refused for its number of days.
pub handle_prune_accepted :
    {F : Type 0} (env : Env) (w : Worker F) (req : Request)
    → (handle_prune env w req).0.reply ≢ failure days_not_positive
unfolding handle_prune prune_older_than
handle_prune_accepted env w req = ground (arith, prune_days_pos env req)
