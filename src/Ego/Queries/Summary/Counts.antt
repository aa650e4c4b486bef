-- ===== src/Ego/Queries/Summary/Counts.antt =====
-- The counts of `getSummary` of internal/ego/storage.go.
use cli_control_account.Base.{◌≡◌, refl, subst, List, Bool, true, false, arith}
use cli_control_account.Text.{Text, Unicode}
use cli_control_account.Float.{Float}
use cli_control_account.Ego.Events.{EgoEvent}
use cli_control_account.Ego.Storage.Engine.{
  Faults, scan, ok, ◌>>◌, fail_if, bind_ok, call, query, rows_err, call_failed, with_db, Db,
  Storage,
}
use cli_control_account.Ego.Queries.Window.{QueryWindow, selected, read_rows}
use cli_control_account.Ego.Queries.Groups.{count_of, sum_of, every, group_by}
use cli_control_account.Ego.Queries.Figures.{succeeded, is_failed, is_sample}
use cli_control_account.Ego.Queries.Summary.{
  SummaryStats, Costs, same_model, add_costs, no_costs, summary_of, get_summary,
}

-- The counts and the token sums of a summary are those of the events: the requests, successes,
-- failures and throughput samples, and the tokens of each of the six kinds.
pub record CountsEvents {F : Type 0} (es : List EgoEvent) (st : SummaryStats F) : Type 0 where
  pub requests : st.total_requests ≡ count_of every es
  pub successes : st.total_success ≡ count_of succeeded es
  pub failures : st.total_failed ≡ count_of is_failed es
  pub samples : st.tps_requests ≡ count_of is_sample es
  pub tokens : st.total_tokens ≡ sum_of (λ e. e.total_tokens) es
  pub prompts : st.prompt_tokens ≡ sum_of (λ e. e.prompt_tokens) es
  pub completions : st.completion_tokens ≡ sum_of (λ e. e.completion_tokens) es
  pub reasonings : st.reasoning_tokens ≡ sum_of (λ e. e.reasoning_tokens) es
  pub creations : st.cache_creation_tokens ≡ sum_of (λ e. e.cache_creation_tokens) es
  pub cached : st.cached_tokens ≡ sum_of (λ e. e.cached_tokens) es

module _ {F : Type 0} ⦃fl : Float F⦄ ⦃u : Unicode⦄ where
  summary_of-CountsEvents : (es : List EgoEvent) (c : Costs F) → CountsEvents es (summary_of es c)
  unfolding summary_of
  summary_of-CountsEvents es c = record {
    requests = refl;
    successes = refl;
    failures = refl;
    samples = refl;
    tokens = refl;
    prompts = refl;
    completions = refl;
    reasonings = refl;
    creations = refl;
    cached = refl;
  }

  answer-CountsEvents :
      (es : List EgoEvent) (c : Costs F) (broken : Bool) (st : SummaryStats F)
      → (fail_if broken (call_failed rows_err) >> ok (summary_of es c)) ≡ ok st
      → CountsEvents es st
  answer-CountsEvents es c true st h = absurd (ground arith)
  answer-CountsEvents es c false st h =
      let same : summary_of es c ≡ st = ground arith in
      subst (CountsEvents es) same (summary_of-CountsEvents es c)

  -- Of an open database, a summary that is returned has the counts of the selected events.
  pub get_summary-CountsEvents :
      (faults faults' : Faults) (window : QueryWindow) (provider : Text) (s : Storage F) (db : Db F)
      (st : SummaryStats F)
      → get_summary faults faults' window provider (with_db s db) ≡ ok st
      → CountsEvents (selected window provider db.events) st
  unfolding get_summary
  get_summary-CountsEvents faults faults' window provider s db st h =
      let es : List EgoEvent = selected window provider db.events in
      let (a, p, h1) = bind_ok (call faults db query) _ h in
      let (a', p', h2) = bind_ok (fail_if (faults (scan 0)) (call_failed (scan 0))) _ h1 in
      let (a'', p'', h3) = bind_ok (call faults' db query) _ h2 in
      let ((gs, broken), r, h4) = bind_ok (read_rows faults' 0 (group_by same_model es)) _ h3 in
      answer-CountsEvents es (add_costs s.pricing_cache no_costs gs) broken st h4
