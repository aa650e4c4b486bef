-- ===== src/Ego/Queries/Ranges.antt =====
-- The exported queries of internal/ego/storage.go, which take the name of a range.
use cli_control_account.Base.{ℕ, ◌*◌, ◌≤◌, ◌<◌, ◌^◌, ◌≡◌, refl, List, [], ◌∷◌, Option, arith}
use cli_control_account.Base.Int.{ℤ, pos, ◌≤ℤ◌}
use cli_control_account.Base.Word.{sub64_pos}
use cli_control_account.Text.{Text, text, eq_text, Unicode}
use cli_control_account.Float.{Float}
use cli_control_account.Ego.Events.{EgoEvent}
use cli_control_account.Ego.Storage.Engine.{Faults, Result, ok, Db, Storage, with_db}
use cli_control_account.Ego.Queries.Window.{
  QueryWindow, legacy_window, calculate_min_timestamp, selected, hour_ms, day_ms,
}
use cli_control_account.Ego.Queries.Groups.{count_of, every}
use cli_control_account.Ego.Queries.Summary.{SummaryStats, get_summary}
use cli_control_account.Ego.Queries.Summary.Counts.{get_summary-CountsEvents}
use cli_control_account.Ego.Queries.Timeline.{SqlFunctions, TimelinePoint, get_timeline}
use cli_control_account.Ego.Queries.Rankings.{
  ProviderRanking, ModelRanking, AccountRanking, get_provider_rankings, get_model_rankings,
  get_account_rankings,
}

module _ {F : Type 0} where
  -- GetTimeline
  unfoldable pub get_range_timeline :
      SqlFunctions → Faults → ℤ → Text → Text → Option (Storage F) → Result (List TimelinePoint)
  unfolding legacy_window
  get_range_timeline sql faults now time_range provider p =
      get_timeline sql faults (legacy_window now time_range) time_range provider p

module _ {F : Type 0} ⦃fl : Float F⦄ where
  -- GetProviderRankings
  unfoldable pub get_range_provider_rankings :
      Faults → ℤ → Text → Option (Storage F) → Result (List (ProviderRanking F))
  unfolding legacy_window
  get_range_provider_rankings faults now time_range p =
      get_provider_rankings faults (legacy_window now time_range) p

  -- GetAccountRankings
  unfoldable pub get_range_account_rankings :
      Faults → ℤ → Text → Text → Option (Storage F) → Result (List (AccountRanking F))
  unfolding legacy_window
  get_range_account_rankings faults now time_range provider p =
      get_account_rankings faults (legacy_window now time_range) provider p

module _ {F : Type 0} ⦃fl : Float F⦄ ⦃u : Unicode⦄ where
  -- GetSummary
  unfoldable pub get_range_summary :
      Faults → Faults → ℤ → Text → Text → Option (Storage F) → Result (SummaryStats F)
  unfolding legacy_window
  get_range_summary faults faults' now time_range provider p =
      get_summary faults faults' (legacy_window now time_range) provider p

  -- GetModelRankings
  unfoldable pub get_range_model_rankings :
      Faults → ℤ → Text → Text → Option (Storage F) → Result (List (ModelRanking F))
  unfolding legacy_window
  get_range_model_rankings faults now time_range provider p =
      get_model_rankings faults (legacy_window now time_range) provider p

-- The named ranges, each with the next longer one.
pub data Wider : Text → Text → Type 0 where
  hour_day : Wider (text "1h") (text "24h")
  day_week : Wider (text "24h") (text "7d")
  week_month : Wider (text "7d") (text "30d")
  month_all : Wider (text "30d") (text "all")

module _ (n : ℕ) (late : 30 * day_ms ≤ n) (small : n < 2 ^ 63) where
  pub legacy_window_widens :
      {short long : Text}
      → Wider short long
      → (legacy_window (pos n) long).start ≤ℤ (legacy_window (pos n) short).start
  unfolding legacy_window calculate_min_timestamp eq_text
  legacy_window_widens hour_day =
      rw (sub64_pos n day_ms small (omega arith), sub64_pos n hour_ms small (omega arith))
        (omega arith)
  legacy_window_widens day_week =
      rw (sub64_pos n (7 * day_ms) small (omega arith), sub64_pos n day_ms small (omega arith))
        (omega arith)
  legacy_window_widens week_month =
      rw
        (
          sub64_pos n (30 * day_ms) small (omega arith),
          sub64_pos n (7 * day_ms) small (omega arith),
        )
        (omega arith)
  legacy_window_widens month_all = rw (sub64_pos n (30 * day_ms) small late) (omega arith)

pub legacy_window_end : (now : ℤ) (time_range : Text) → (legacy_window now time_range).end ≡ pos 0
unfolding legacy_window
legacy_window_end now time_range = refl

-- Without an end, an earlier start selects no fewer events.
pub count_of-selected-le :
    (w w' : QueryWindow) (provider : Text) (es : List EgoEvent)
    → w.end ≡ pos 0
    → w'.end ≡ pos 0
    → w'.start ≤ℤ w.start
    → count_of every (selected w provider es) ≤ count_of every (selected w' provider es)
unfolding selected count_of
count_of-selected-le w w' provider [] e e' h = omega arith
count_of-selected-le w w' provider (x ∷ es) e e' h =
    let rest = count_of-selected-le w w' provider es e e' h in ground (arith, rest, e, e')

module _ {F : Type 0} ⦃fl : Float F⦄ ⦃u : Unicode⦄ where
  -- At a time of at least 30 days after the epoch, the summaries that an open database gives for a
  -- range and for the next longer one, in the order 1h, 24h, 7d, 30d, all: the longer range never
  -- counts fewer requests.
  pub get_range_summary_widens :
      (faults faults' : Faults) (n : ℕ) (provider : Text) (s : Storage F) (db : Db F)
      {short long : Text} (st st' : SummaryStats F)
      → 30 * day_ms ≤ n
      → n < 2 ^ 63
      → Wider short long
      → get_range_summary faults faults' (pos n) short provider (with_db s db) ≡ ok st
      → get_range_summary faults faults' (pos n) long provider (with_db s db) ≡ ok st'
      → st.total_requests ≤ st'.total_requests
  unfolding get_range_summary
  get_range_summary_widens faults faults' n provider s db {short} {long} st st' late small wider h
        h' =
      let w = legacy_window (pos n) short in
      let w' = legacy_window (pos n) long in
      let c = get_summary-CountsEvents faults faults' w provider s db st h in
      let c' = get_summary-CountsEvents faults faults' w' provider s db st' h' in
      omega (
        arith,
        c.requests,
        c'.requests,
        count_of-selected-le w w' provider db.events (legacy_window_end (pos n) short)
            (legacy_window_end (pos n) long) (legacy_window_widens n late small wider),
      )
