-- ===== src/Tests/Queries.antt =====
-- The queries of internal/ego/storage.go at work.
use cli_control_account.Base.{
  arith, ℕ, ◌≤◌, ◌≡◌, refl, List, [], ◌∷◌, true, false, ltb, length, is_empty, All, keep, ◌&&◌,
}
use cli_control_account.Base.Int.{pos, ◌+ℤ◌, ◌-ℤ◌, quot, times}
use cli_control_account.Base.Word.{sub64, wrap64}
use cli_control_account.Ego.Queries.Ranges.{week_month, get_range_summary, get_range_summary_widens}
use cli_control_account.Text.{Text, text, eq_text}
use cli_control_account.Ego.Events.{EgoEvent}
use cli_control_account.Ego.Storage.Engine.{
  Faults, next_row, rows_err, call_failed, Result, ok, err, Db, Storage, with_db,
}
use cli_control_account.Ego.Queries.Window.{
  QueryWindow, legacy_window, calculate_min_timestamp, selected, read_rows, read_row,
}
use cli_control_account.Ego.Queries.Groups.{
  count_of, sum_of, every, group_by, add_row, order_by, insert_by,
}
use cli_control_account.Ego.Queries.Groups.Sums.{total}
use cli_control_account.Ego.Queries.Groups.Order.{IsOrdered}
use cli_control_account.Ego.Queries.Summary.{SummaryStats, get_summary, empty_summary}
use cli_control_account.Ego.Queries.Summary.Unpriced.{is_unpriced, get_summary_unpriced}
use cli_control_account.Ego.Queries.Rankings.{
  ProviderRanking, ModelRanking, AccountRanking, ranked, deliver, get_provider_rankings,
  get_model_rankings, get_account_rankings,
}
use cli_control_account.Ego.Queries.Rankings.Order.{model_in_front, get_model_rankings-IsOrdered}
use cli_control_account.Ego.Queries.Rankings.Totals.{get_provider_rankings_total}
use cli_control_account.Ego.Queries.Rankings.Exact.{model_figures, get_model_rankings_exact}
use cli_control_account.Ego.Queries.Timeline.Today.{CountsHour, get_timeline_today}
use cli_control_account.Ego.Queries.Timeline.{
  TimelinePoint, SqlFunctions, hour_bucket, get_timeline,
}
use cli_control_account.Ego.Queries.Interrupted.{interrupted_queries}
use cli_control_account.Tests.Fixtures.{
  plain_unicode, whole_float, event_at, no_faults, two_events, storage_of,
}

abbrev long_event : EgoEvent
long_event = record (event_at 7) {
  provider = text "claude";
  model = text "opus";
  total_tokens = pos 20;
}

abbrev three_events : Db ℕ
three_events = record two_events { events = event_at 5 ∷ long_event ∷ event_at 9 ∷ [] }

abbrev storage : Storage ℕ
storage = storage_of three_events

abbrev whole_day : QueryWindow
whole_day = record { start = pos 1; end = pos 100 }

abbrev pub value {ℓ} : {R : Type ℓ} → R → Result R → R
value d (ok r) = r
value d (err e) = d

abbrev summary : SummaryStats ℕ
summary =
    value empty_summary
      (get_summary no_faults no_faults whole_day [] (with_db storage three_events))

summary_returned :
    get_summary no_faults no_faults whole_day [] (with_db storage three_events) ≡ ok summary
unfolding get_summary read_rows read_row group_by add_row selected eq_text
summary_returned = refl

get_summary_unpriced_example :
    (summary.unpriced_requests
      ≡ count_of (is_unpriced storage.pricing_cache) (selected whole_day [] three_events.events))
    × (summary.is_partial
        ≡ ltb 0 (
            count_of
              (is_unpriced storage.pricing_cache)
              (selected whole_day [] three_events.events)))
get_summary_unpriced_example =
    get_summary_unpriced no_faults no_faults whole_day [] storage three_events summary
      summary_returned

abbrev providers : List (ProviderRanking ℕ)
providers = value [] (get_provider_rankings no_faults whole_day (with_db storage three_events))

providers_returned :
    get_provider_rankings no_faults whole_day (with_db storage three_events) ≡ ok providers
unfolding get_provider_rankings deliver read_rows read_row ranked selected eq_text sum_of ◌+ℤ◌
providers_returned = refl

get_provider_rankings_total_example :
    (rs : List (ProviderRanking ℕ)) × (get_provider_rankings no_faults whole_day
        (with_db storage three_events)
      ≡ ok rs)
    × (sum_of (λ r. r.total_tokens) rs
        ≡ sum_of (λ e. e.total_tokens) (selected whole_day [] three_events.events))
    × (total (λ r. r.total_requests) rs
        ≡ count_of every (selected whole_day [] three_events.events))
get_provider_rankings_total_example =
    get_provider_rankings_total no_faults whole_day storage three_events (λ c. refl) refl

abbrev models : List (ModelRanking ℕ)
models = value [] (get_model_rankings no_faults whole_day [] (with_db storage three_events))

models_returned :
    get_model_rankings no_faults whole_day [] (with_db storage three_events) ≡ ok models
unfolding get_model_rankings deliver read_rows read_row ranked group_by add_row order_by insert_by
    selected sum_of eq_text ◌+ℤ◌
models_returned = refl

get_model_rankings-IsOrdered_example : IsOrdered model_in_front models × (length models ≤ 50)
get_model_rankings-IsOrdered_example =
    get_model_rankings-IsOrdered no_faults whole_day [] storage three_events models models_returned

abbrev accounts : List (AccountRanking ℕ)
accounts = value [] (get_account_rankings no_faults whole_day [] (with_db storage three_events))

accounts_returned :
    get_account_rankings no_faults whole_day [] (with_db storage three_events) ≡ ok accounts
unfolding get_account_rankings deliver read_rows read_row ranked group_by add_row order_by insert_by
    selected sum_of eq_text ◌+ℤ◌
accounts_returned = refl

second_hour : hour_bucket (pos 1_000) (pos 3_901_000) ≡ pos 3_601_000
unfolding hour_bucket ◌+ℤ◌ ◌-ℤ◌ quot times
second_hour = refl

abbrev interrupted : Faults
interrupted (next_row n) = true
interrupted c = false

abbrev sql : SqlFunctions
sql = record {
  strftime = λ format seconds. format;
  to_integer = λ t. pos 7;
  two_digits = λ n. text "05";
  integer_text = λ n. text "0";
}

has_events : is_empty (selected whole_day [] three_events.events) ≡ false
unfolding selected
has_events = refl

interrupted_queries_example :
    (get_timeline sql interrupted whole_day (text "today") [] (with_db storage three_events)
      ≡ ok [])
    × (get_provider_rankings interrupted whole_day (with_db storage three_events) ≡ ok [])
    × (get_model_rankings interrupted whole_day [] (with_db storage three_events) ≡ ok [])
    × (get_account_rankings interrupted whole_day [] (with_db storage three_events) ≡ ok [])
    × (get_summary interrupted interrupted whole_day [] (with_db storage three_events)
        ≡ err (call_failed rows_err))
interrupted_queries_example =
    interrupted_queries sql interrupted whole_day (text "today") [] storage three_events refl refl
      refl refl has_events

get_timeline_today_example :
    (pts : List TimelinePoint) × (get_timeline sql no_faults whole_day
        (text "today")
        []
        (with_db storage three_events)
      ≡ ok pts)
    × All (CountsHour sql whole_day (selected whole_day [] three_events.events)) pts
    × (total (λ pt. pt.total_requests) pts
        ≡ count_of every (selected whole_day [] three_events.events))
get_timeline_today_example =
    get_timeline_today sql no_faults whole_day [] storage three_events (λ c. refl) refl

get_model_rankings_exact_example :
    All
      (λ r.
        r
        ≡ model_figures storage.pricing_cache r.model r.provider (
            keep
              (λ e. eq_text r.model e.model && eq_text r.provider e.provider)
              (selected whole_day [] three_events.events)))
      models
get_model_rankings_exact_example =
    get_model_rankings_exact no_faults whole_day [] storage three_events models models_returned

-- Thirty days after the epoch.
abbrev range_summary : Text → SummaryStats ℕ
range_summary time_range = value empty_summary (
    get_range_summary no_faults no_faults (pos 2_592_000_000) time_range []
      (with_db storage three_events))

month_returned :
    get_range_summary no_faults no_faults
      (pos 2_592_000_000)
      (text "30d")
      []
      (with_db storage three_events)
    ≡ ok (range_summary (text "30d"))
unfolding get_range_summary get_summary read_rows read_row group_by add_row selected eq_text
    legacy_window calculate_min_timestamp sub64 wrap64 ◌-ℤ◌
month_returned = refl

week_returned :
    get_range_summary no_faults no_faults
      (pos 2_592_000_000)
      (text "7d")
      []
      (with_db storage three_events)
    ≡ ok (range_summary (text "7d"))
unfolding get_range_summary get_summary read_rows read_row group_by add_row selected eq_text
    legacy_window calculate_min_timestamp sub64 wrap64 ◌-ℤ◌
week_returned = refl

get_range_summary_widens_example :
    (range_summary (text "7d")).total_requests ≤ (range_summary (text "30d")).total_requests
get_range_summary_widens_example =
    get_range_summary_widens no_faults no_faults 2_592_000_000 [] storage three_events
      (range_summary (text "7d")) (range_summary (text "30d")) (omega arith) (omega arith)
      week_month week_returned month_returned
