-- ===== src/Ego/Queries/Rankings.antt =====
-- `getProviderRankings`, `getModelRankings` and `getAccountRankings` of internal/ego/storage.go, with
-- their row types of models.go.
pub mod Order
pub mod Totals
pub mod Exact
use cli_control_account.Base.{
  ℕ, List, [], Bool, true, false, not, ◌&&◌, ◌||◌, Option, none, some, ltb, is_empty, keep, take,
  map,
}
use cli_control_account.Base.Int.{ℤ, ltb_ℤ, eqb_ℤ}
use cli_control_account.Text.{Text, text, eq_text, Unicode}
use cli_control_account.TextMap.{TextMap}
use cli_control_account.Float.{Float}
use cli_control_account.Ego.Pricing.{ModelPricing, find_model_pricing}
use cli_control_account.Ego.Events.{EgoEvent}
use cli_control_account.Ego.Storage.Engine.{
  Faults, query, Result, ok, err, ◌>>=◌, ◌>>◌, call, Db, Storage, open_db,
}
use cli_control_account.Ego.Queries.Window.{QueryWindow, selected, read_rows, legacy_window}
use cli_control_account.Ego.Queries.Groups.{
  count_of, sum_of, every, Group, rows, group_by, order_by,
}
use cli_control_account.Ego.Queries.Figures.{
  succeeded, is_sample, rounded, weighted_tps, average, success_rate,
}
use cli_control_account.Ego.Queries.Summary.{same_model, has_price, group_cost}

pub record ProviderRanking (F : Type 0) : Type 0 where
  pub provider : Text
  pub total_requests : ℕ
  pub total_tokens : ℤ
  pub prompt_tokens : ℤ
  pub completion_tokens : ℤ
  pub avg_latency_ms : F
  pub success_rate : F
  pub avg_tps : F
  pub tps_requests : ℕ

pub record ModelRanking (F : Type 0) : Type 0 where
  pub model : Text
  pub provider : Text
  pub total_requests : ℕ
  pub total_tokens : ℤ
  pub prompt_tokens : ℤ
  pub completion_tokens : ℤ
  pub estimated_cost_usd : F
  pub avg_latency_ms : F
  pub is_priced : Bool
  pub avg_tps : F
  pub tps_requests : ℕ

pub record AccountRanking (F : Type 0) : Type 0 where
  pub account : Text
  pub provider : Text
  pub total_requests : ℕ
  pub total_tokens : ℤ
  pub prompt_tokens : ℤ
  pub completion_tokens : ℤ
  pub avg_latency_ms : F

-- SUM(total_tokens) of a group
abbrev pub tokens : Group → ℤ
tokens g = sum_of (λ e. e.total_tokens) (rows g)

-- ORDER BY SUM(total_tokens) DESC
abbrev pub more_tokens : Group → Group → Bool
more_tokens a b = ltb_ℤ (tokens b) (tokens a)

-- ORDER BY SUM(total_tokens) DESC, COUNT(*) DESC
abbrev pub more_used : Group → Group → Bool
more_used a b =
    more_tokens a b
    || (eqb_ℤ (tokens a) (tokens b) && ltb (count_of every (rows b)) (count_of every (rows a)))

abbrev pub same_provider : EgoEvent → EgoEvent → Bool
same_provider a b = eq_text a.provider b.provider

abbrev pub same_account : EgoEvent → EgoEvent → Bool
same_account a b = eq_text a.account b.account && eq_text a.provider b.provider

abbrev pub has_account : EgoEvent → Bool
has_account e = not (is_empty e.account)

-- The groups in their order, as the engine has them for the loop over rows.Next.
unfoldable pub ranked :
    (EgoEvent → EgoEvent → Bool) → (Group → Group → Bool) → List EgoEvent → List Group
unfolding group_by order_by
ranked same before es = order_by before (group_by same es)

-- The loop over rows.Next; it ends without a look at rows.Err.
unfoldable pub deliver {ℓ} : {R : Type ℓ} → Faults → (Group → R) → List Group → Result (List R)
deliver faults row groups = do (gs, broken) ← read_rows faults 0 groups; ok (map row gs)

module _ {F : Type 0} ⦃fl : Float F⦄ where
  unfoldable pub provider_ranking : Group → ProviderRanking F
  provider_ranking g =
      let es = rows g in
      record {
        provider = g.first.provider;
        total_requests = count_of every es;
        total_tokens = tokens g;
        prompt_tokens = sum_of (λ e. e.prompt_tokens) es;
        completion_tokens = sum_of (λ e. e.completion_tokens) es;
        avg_latency_ms = rounded 10 10 (average (λ e. e.latency_ms) es);
        success_rate = success_rate (count_of succeeded es) (count_of every es);
        avg_tps = weighted_tps (sum_of (λ e. e.gen_tokens) es) (sum_of (λ e. e.gen_ms) es);
        tps_requests = count_of is_sample es;
      }

  unfoldable pub account_ranking : Group → AccountRanking F
  account_ranking g =
      let es = rows g in
      record {
        account = g.first.account;
        provider = g.first.provider;
        total_requests = count_of every es;
        total_tokens = tokens g;
        prompt_tokens = sum_of (λ e. e.prompt_tokens) es;
        completion_tokens = sum_of (λ e. e.completion_tokens) es;
        avg_latency_ms = rounded 10 10 (average (λ e. e.latency_ms) es);
      }

  unfoldable pub get_provider_rankings :
      Faults → QueryWindow → Option (Storage F) → Result (List (ProviderRanking F))
  unfolding ranked deliver provider_ranking
  get_provider_rankings faults window p = elim (open_db p) [
    | none ↦ ok []
    | some (s, db) ↦
        call faults db query
        >> deliver faults provider_ranking
            (ranked same_provider more_used (selected window [] db.events))
  ]

  unfoldable pub get_account_rankings :
      Faults → QueryWindow → Text → Option (Storage F) → Result (List (AccountRanking F))
  unfolding ranked deliver account_ranking
  get_account_rankings faults window provider p = elim (open_db p) [
    | none ↦ ok []
    | some (s, db) ↦
        call faults db query
        >> deliver faults account_ranking (
            take 50 (
              ranked same_account more_tokens
                (keep has_account (selected window provider db.events))))
  ]

module _ {F : Type 0} ⦃fl : Float F⦄ ⦃u : Unicode⦄ where
  unfoldable pub model_ranking : TextMap (ModelPricing F) → Group → ModelRanking F
  unfolding group_cost
  model_ranking prices g =
      let es = rows g in
      record {
        model = g.first.model;
        provider = g.first.provider;
        total_requests = count_of every es;
        total_tokens = tokens g;
        prompt_tokens = sum_of (λ e. e.prompt_tokens) es;
        completion_tokens = sum_of (λ e. e.completion_tokens) es;
        estimated_cost_usd = rounded 10000 10000 (group_cost prices g).total;
        avg_latency_ms = rounded 10 10 (average (λ e. e.latency_ms) es);
        is_priced = has_price (find_model_pricing prices g.first.model);
        avg_tps = weighted_tps (sum_of (λ e. e.gen_tokens) es) (sum_of (λ e. e.gen_ms) es);
        tps_requests = count_of is_sample es;
      }

  unfoldable pub get_model_rankings :
      Faults → QueryWindow → Text → Option (Storage F) → Result (List (ModelRanking F))
  unfolding ranked deliver model_ranking
  get_model_rankings faults window provider p = elim (open_db p) [
    | none ↦ ok []
    | some (s, db) ↦
        call faults db query
        >> deliver faults (model_ranking s.pricing_cache)
            (take 50 (ranked same_model more_used (selected window provider db.events)))
  ]
