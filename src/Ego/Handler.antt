-- ===== src/Ego/Handler.antt =====
-- internal/ego/handler.go: the JSON endpoints, with `EgoSettings` of models.go. A request takes the
-- worker to the one after it.
pub mod Routing
pub mod Methods
pub mod Replies
pub mod Limits
pub mod Settings
use cli_control_account.Base.{
  ℕ, ◌-◌, ◌*◌, List, [], ◌∷◌, ◌++◌, Bool, true, false, not, ◌&&◌, ◌||◌, Option, none, some, leb,
  if◌then◌else◌, is_empty, length, drop,
}
use cli_control_account.Base.Int.{ℤ, pos, ltb_ℤ, leb_ℤ}
use cli_control_account.Base.Word.{sub64}
use cli_control_account.Text.{Text, text, eq_text, Unicode}
use cli_control_account.Text.Number.{parse_int, atoi}
use cli_control_account.Float.{Float}
use cli_control_account.Ego.Pricing.{ModelPricing}
use cli_control_account.Ego.Storage.Engine.{Faults, StorageError, Result, ok, err, Storage}
use cli_control_account.Ego.Storage.Rows.{
  path, get_database_size, get_total_records, prune_older_than, reset_database,
}
use cli_control_account.Ego.Storage.Prices.{get_all_pricing}
use cli_control_account.Ego.Worker.{Worker, set_enabled}
use cli_control_account.Ego.Queries.Window.{QueryWindow, legacy_window, hour_ms}
use cli_control_account.Ego.Queries.Summary.{SummaryStats, get_summary}
use cli_control_account.Ego.Queries.Timeline.{SqlFunctions, TimelinePoint, get_timeline}
use cli_control_account.Ego.Queries.Rankings.{
  ProviderRanking, ModelRanking, AccountRanking, get_provider_rankings, get_model_rankings,
  get_account_rankings,
}

-- `query` is URL.Query().Get, empty for a key that is missing; `body` is none for a nil Body.
pub record Request : Type 0 where
  pub method : Text
  pub url_path : Text
  pub query : Text → Text
  pub body : Option Text
  pub content_length : ℤ

pub record EgoSettings : Type 0 where
  pub enabled : Bool
  pub database_path : Text
  pub database_bytes : ℕ
  pub total_records : ℕ

-- The JSON values that the handler writes.
pub data Reply (F : Type 0) : Type 0 where
  message : Text → Reply F
  failure : StorageError → Reply F
  stats : SummaryStats F → Reply F
  timeline : List TimelinePoint → Reply F
  providers : List (ProviderRanking F) → Reply F
  models : List (ModelRanking F) → Reply F
  accounts : List (AccountRanking F) → Reply F
  settings : EgoSettings → Reply F
  pruned : ℕ → ℤ → Reply F
  was_reset : Reply F
  pricing : ℕ → List (ModelPricing F) → Reply F

pub record Response (F : Type 0) : Type 0 where
  pub status : ℕ
  pub reply : Reply F

-- The clock, the file system, the engine, and the JSON decoders: `decode_enabled` gives the field
-- of a settings payload, `decode_days` what the payload of a pruning has after the decoding.
pub record Env : Type 0 where
  pub now : ℤ
  pub days_ago : ℤ → ℤ
  pub stat : Text → Option ℕ
  pub sql : SqlFunctions
  pub faults : Faults
  pub cost_faults : Faults
  pub decode_enabled : Text → Option (Option Bool)
  pub decode_days : Option Text → ℤ

unfoldable pub ends_with : Text → Text → Bool
ends_with s suffix =
    leb (length suffix) (length s) && eq_text (drop (length s - length suffix) s) suffix

-- The check of today's bounds, on what ParseInt gives for the two.
unfoldable pub today_window : ℤ × Bool → ℤ × Bool → Option QueryWindow
today_window (start, start_ok) (end, end_ok) =
    if not start_ok
      || (not end_ok
          || (leb_ℤ start (pos 0)
              || (leb_ℤ end start || ltb_ℤ (pos (26 * hour_ms)) (sub64 end start))))
    then none
    else some (record { start = start; end = end })

-- `none` is the answer 400.
unfoldable pub read_window : ℤ → Request → Option QueryWindow
unfolding today_window
read_window now req =
    if not (eq_text (req.query (text "range")) (text "today"))
    then some (legacy_window now (req.query (text "range")))
    else today_window (parse_int (req.query (text "start"))) (parse_int (req.query (text "end")))

-- The days of a pruning: the payload's, else the query's, else 30.
unfoldable pub prune_days : Env → Request → ℤ
prune_days env req =
    let payload = env.decode_days req.body in
    let q = req.query (text "days") in
    let days = if leb_ℤ payload (pos 0) && not (is_empty q) then atoi q else payload in
    if leb_ℤ days (pos 0) then pos 30 else days

-- `size, _ :=` leaves 0 for an error.
abbrev pub or_zero : Result ℕ → ℕ
or_zero (ok n) = n
or_zero (err e) = 0

-- The payload of a settings request: none for a body that is no payload.
abbrev pub posted : Env → ℤ → Option Text → Option (Option Bool)
posted env content_length none = some none
posted env content_length (some body) =
    if ltb_ℤ (pos 0) content_length then env.decode_enabled body else some none

module _ {F : Type 0} where
  abbrev pub answer : ℕ → Reply F → Response F
  answer status reply = record { status = status; reply = reply }

  abbrev pub or_error : (R : Type 0) → (R → Reply F) → Result R → Response F
  or_error R reply (ok r) = answer 200 (reply r)
  or_error R reply (err e) = answer 500 (failure e)

  -- handleGetSettings
  unfoldable pub handle_get_settings : Env → Worker F → Response F
  handle_get_settings env w = answer 200 (
      settings record {
        enabled = w.enabled;
        database_path = path w.storage;
        database_bytes = or_zero (get_database_size env.stat w.storage);
        total_records = or_zero (get_total_records env.faults w.storage);
      })

  abbrev pub with_payload : Env → Worker F → Option (Option Bool) → Response F × Worker F
  with_payload env w none = (answer 400 (message (text "invalid request body")), w)
  with_payload env w (some none) = (handle_get_settings env w, w)
  with_payload env w (some (some enabled)) =
      let w' = set_enabled env.faults enabled w in (handle_get_settings env w', w')

  unfoldable pub handle_post_settings : Env → Worker F → Request → Response F × Worker F
  unfolding handle_get_settings
  handle_post_settings env w req =
      let q = req.query (text "enabled") in
      let w' = set_enabled env.faults (eq_text q (text "true") || eq_text q (text "1")) w in
      if not (is_empty q)
      then (handle_get_settings env w', w')
      else with_payload env w (posted env req.content_length req.body)

  unfoldable pub handle_prune : Env → Worker F → Request → Response F × Worker F
  unfolding prune_days
  handle_prune env w req =
      let days = prune_days env req in
      let (result, storage) = prune_older_than env.days_ago env.faults days w.storage in
      (or_error ℕ (λ n. pruned n days) result, record w { storage = storage })

  unfoldable pub handle_reset : Env → Worker F → Response F × Worker F
  handle_reset env w =
      let (result, storage) = reset_database env.faults w.storage in
      (or_error (Unit {0}) (λ _. was_reset) result, record w { storage = storage })

module _ {F : Type 0} ⦃fl : Float F⦄ ⦃u : Unicode⦄ where
  -- A handler that needs a window, after readWindow.
  abbrev pub within : Option QueryWindow → (QueryWindow → Response F) → Response F
  within none reply = answer 400 (
      message (
        text
          "invalid Today bounds: start and end must be positive epoch milliseconds, ordered and at most 26 hours apart"))
  within (some window) reply = reply window

  unfoldable pub handle_stats : Env → Worker F → Request → Response F
  unfolding read_window
  handle_stats env w req = within (read_window env.now req) λ window.
      or_error (SummaryStats F) stats
        (get_summary env.faults env.cost_faults window (req.query (text "provider")) w.storage)

  unfoldable pub handle_timeline : Env → Worker F → Request → Response F
  unfolding read_window
  handle_timeline env w req = within (read_window env.now req) λ window.
      or_error (List TimelinePoint) timeline (
        get_timeline env.sql env.faults window (req.query (text "range"))
          (req.query (text "provider")) w.storage)

  unfoldable pub handle_providers : Env → Worker F → Request → Response F
  unfolding read_window
  handle_providers env w req = within (read_window env.now req) λ window.
      or_error (List (ProviderRanking F)) providers
        (get_provider_rankings env.faults window w.storage)

  unfoldable pub handle_models : Env → Worker F → Request → Response F
  unfolding read_window
  handle_models env w req = within (read_window env.now req) λ window.
      or_error (List (ModelRanking F)) models
        (get_model_rankings env.faults window (req.query (text "provider")) w.storage)

  unfoldable pub handle_accounts : Env → Worker F → Request → Response F
  unfolding read_window
  handle_accounts env w req = within (read_window env.now req) λ window.
      or_error (List (AccountRanking F)) accounts
        (get_account_rankings env.faults window (req.query (text "provider")) w.storage)

  unfoldable pub handle_get_pricing : Worker F → Response F
  handle_get_pricing w =
      let list = get_all_pricing w.storage in answer 200 (pricing (length list) list)

  -- 405 unless the request has the method
  abbrev pub only : Text → Worker F → Request → Response F × Worker F → Response F × Worker F
  only method w req handled =
      if eq_text req.method method
      then handled
      else (answer 405 (message (text "method not allowed, use " ++ method)), w)

  unfoldable pub serve_http : Env → Worker F → Request → Response F × Worker F
  unfolding handle_stats handle_timeline handle_providers handle_models handle_accounts
      handle_get_settings handle_post_settings handle_prune handle_reset handle_get_pricing
      ends_with
  serve_http env w req =
      let p = req.url_path in
      if ends_with p (text "/stats")
      then only (text "GET") w req (handle_stats env w req, w)
      else if ends_with p (text "/timeline")
      then only (text "GET") w req (handle_timeline env w req, w)
      else if ends_with p (text "/providers")
      then only (text "GET") w req (handle_providers env w req, w)
      else if ends_with p (text "/models")
      then only (text "GET") w req (handle_models env w req, w)
      else if ends_with p (text "/accounts")
      then only (text "GET") w req (handle_accounts env w req, w)
      else if ends_with p (text "/settings")
      then if eq_text req.method (text "GET")
        then (handle_get_settings env w, w)
        else if eq_text req.method (text "POST")
        then handle_post_settings env w req
        else (answer 405 (message (text "method not allowed")), w)
      else if ends_with p (text "/prune")
      then only (text "POST") w req (handle_prune env w req)
      else if ends_with p (text "/reset")
      then only (text "POST") w req (handle_reset env w)
      else if ends_with p (text "/pricing")
      then only (text "GET") w req (handle_get_pricing w, w)
      else (answer 404 (message (text "endpoint not found")), w)
