-- ===== src/Ego/Queries/Summary.antt =====
-- `getSummary` of internal/ego/storage.go, with `SummaryStats` of models.go.
pub mod Unpriced
pub mod Counts
use cli_control_account.Base.{
  ℕ, ◌+◌, List, [], ◌∷◌, Bool, true, false, not, ◌&&◌, ◌||◌, Option, none, some, ltb, if◌then◌else◌,
  keep, length,
}
use cli_control_account.Base.Int.{ℤ, pos, ltb_ℤ, leb_ℤ}
use cli_control_account.Text.{Text, eq_text, Unicode}
use cli_control_account.TextMap.{TextMap}
use cli_control_account.Float.{Float, zero_f}
use cli_control_account.Ego.Pricing.{
  ModelPricing, TokenCost, find_model_pricing, calculate_token_cost,
}
use cli_control_account.Ego.Events.{EgoEvent}
use cli_control_account.Ego.Storage.Engine.{
  Faults, query, scan, rows_err, call_failed, Result, ok, err, ◌>>=◌, ◌>>◌, fail_if, call, Db,
  Storage, open_db,
}
use cli_control_account.Ego.Queries.Window.{QueryWindow, selected, read_rows}
use cli_control_account.Ego.Queries.Groups.{count_of, sum_of, every, Group, rows, group_by}
use cli_control_account.Ego.Queries.Figures.{
  succeeded, is_failed, is_sample, rounded, weighted_tps, average, success_rate,
}

pub record SummaryStats (F : Type 0) : Type 0 where
  pub total_requests : ℕ
  pub total_success : ℕ
  pub total_failed : ℕ
  pub success_rate : F
  pub total_tokens : ℤ
  pub prompt_tokens : ℤ
  pub completion_tokens : ℤ
  pub reasoning_tokens : ℤ
  pub cached_tokens : ℤ
  pub cache_creation_tokens : ℤ
  pub unpriced_requests : ℕ
  pub is_partial : Bool
  pub estimated_cost_usd : F
  pub input_cost_usd : F
  pub output_cost_usd : F
  pub avg_latency_ms : F
  pub min_latency_ms : ℤ
  pub max_latency_ms : ℤ
  pub avg_ttft_ms : F
  pub avg_tps : F
  pub tps_requests : ℕ
  pub earliest_time : ℤ
  pub latest_time : ℤ

-- MIN and MAX of a column, 0 for no rows
abbrev fold_rows : (ℤ → ℤ → ℤ) → (EgoEvent → ℤ) → ℤ → List EgoEvent → ℤ
fold_rows pick f m [] = m
fold_rows pick f m (e ∷ es) = fold_rows pick f (pick m (f e)) es

unfoldable pub min_of : (EgoEvent → ℤ) → List EgoEvent → ℤ
min_of f [] = pos 0
min_of f (e ∷ es) = fold_rows (λ a b. if ltb_ℤ b a then b else a) f (f e) es

unfoldable pub max_of : (EgoEvent → ℤ) → List EgoEvent → ℤ
max_of f [] = pos 0
max_of f (e ∷ es) = fold_rows (λ a b. if ltb_ℤ a b then b else a) f (f e) es

-- GROUP BY model, provider
abbrev pub same_model : EgoEvent → EgoEvent → Bool
same_model a b = eq_text a.model b.model && eq_text a.provider b.provider

-- The running sums of the cost loop.
pub record Costs (F : Type 0) : Type 0 where
  pub unpriced : ℕ
  pub total : F
  pub prompt : F
  pub output : F

module _ {F : Type 0} ⦃fl : Float F⦄ where
  -- Rates are never NaN, so `x <= 0` is the negation of `x > 0`.
  abbrev pub has_price : ModelPricing F × Bool → Bool
  has_price (pricing, matched) =
      matched
      && (fl.lt zero_f pricing.input_cost_per_token || fl.lt zero_f pricing.output_cost_per_token)

module _ {F : Type 0} ⦃fl : Float F⦄ ⦃u : Unicode⦄ where
  -- The cost of a group of one model and provider.
  unfoldable pub group_cost : TextMap (ModelPricing F) → Group → TokenCost F
  group_cost prices g =
      calculate_token_cost (find_model_pricing prices g.first.model).0 g.first.provider
        (sum_of (λ e. e.prompt_tokens) (rows g)) (sum_of (λ e. e.completion_tokens) (rows g))
        (sum_of (λ e. e.reasoning_tokens) (rows g)) (sum_of (λ e. e.cached_tokens) (rows g))
        (sum_of (λ e. e.cache_creation_tokens) (rows g))

  unfoldable pub add_cost : TextMap (ModelPricing F) → Costs F → Group → Costs F
  unfolding group_cost
  add_cost prices c g =
      let cost = group_cost prices g in
      record {
        unpriced =
            if has_price (find_model_pricing prices g.first.model)
            then c.unpriced
            else c.unpriced + count_of every (rows g);
        total = fl.add c.total cost.total;
        prompt = fl.add c.prompt cost.prompt;
        output = fl.add c.output cost.output;
      }

  unfoldable pub add_costs : TextMap (ModelPricing F) → Costs F → List Group → Costs F
  unfolding add_cost
  add_costs prices c [] = c
  add_costs prices c (g ∷ gs) = add_costs prices (add_cost prices c g) gs

  abbrev pub no_costs : Costs F
  no_costs = record { unpriced = 0; total = zero_f; prompt = zero_f; output = zero_f }

  unfoldable pub summary_of : List EgoEvent → Costs F → SummaryStats F
  summary_of es c =
      let requests = count_of every es in
      let success = count_of succeeded es in
      record {
        total_requests = requests;
        total_success = success;
        total_failed = count_of is_failed es;
        success_rate = success_rate success requests;
        total_tokens = sum_of (λ e. e.total_tokens) es;
        prompt_tokens = sum_of (λ e. e.prompt_tokens) es;
        completion_tokens = sum_of (λ e. e.completion_tokens) es;
        reasoning_tokens = sum_of (λ e. e.reasoning_tokens) es;
        cached_tokens = sum_of (λ e. e.cached_tokens) es;
        cache_creation_tokens = sum_of (λ e. e.cache_creation_tokens) es;
        unpriced_requests = c.unpriced;
        is_partial = ltb 0 c.unpriced;
        estimated_cost_usd = rounded 10000 10000 c.total;
        input_cost_usd = rounded 10000 10000 c.prompt;
        output_cost_usd = rounded 10000 10000 c.output;
        avg_latency_ms = rounded 10 10 (average (λ e. e.latency_ms) es);
        min_latency_ms = min_of (λ e. e.latency_ms) es;
        max_latency_ms = max_of (λ e. e.latency_ms) es;
        avg_ttft_ms = rounded 10 10 (average (λ e. e.ttft_ms) (keep is_sample es));
        avg_tps = weighted_tps (sum_of (λ e. e.gen_tokens) es) (sum_of (λ e. e.gen_ms) es);
        tps_requests = count_of is_sample es;
        earliest_time = min_of (λ e. e.timestamp) es;
        latest_time = max_of (λ e. e.timestamp) es;
      }

  -- &SummaryStats{}
  unfoldable pub empty_summary : SummaryStats F
  empty_summary = record {
    total_requests = 0;
    total_success = 0;
    total_failed = 0;
    success_rate = zero_f;
    total_tokens = pos 0;
    prompt_tokens = pos 0;
    completion_tokens = pos 0;
    reasoning_tokens = pos 0;
    cached_tokens = pos 0;
    cache_creation_tokens = pos 0;
    unpriced_requests = 0;
    is_partial = false;
    estimated_cost_usd = zero_f;
    input_cost_usd = zero_f;
    output_cost_usd = zero_f;
    avg_latency_ms = zero_f;
    min_latency_ms = pos 0;
    max_latency_ms = pos 0;
    avg_ttft_ms = zero_f;
    avg_tps = zero_f;
    tps_requests = 0;
    earliest_time = pos 0;
    latest_time = pos 0;
  }

  -- The first query has one row, the second a row for each group; `faults` and `faults'` are the
  -- failures of the two.
  unfoldable pub get_summary :
      Faults → Faults → QueryWindow → Text → Option (Storage F) → Result (SummaryStats F)
  unfolding add_costs
  get_summary faults faults' window provider p = elim (open_db p) [
    | none ↦ ok empty_summary
    | some (s, db) ↦
        let es = selected window provider db.events in
        do
          call faults db query
          fail_if (faults (scan 0)) (call_failed (scan 0))
          call faults' db query
          (groups, broken) ← read_rows faults' 0 (group_by same_model es)
          fail_if broken (call_failed rows_err)
          ok (summary_of es (add_costs s.pricing_cache no_costs groups))
  ]
