-- ===== src/Ego/Queries/Rankings/Exact.antt =====
-- The rankings of internal/ego/storage.go are those of the events of each provider and each model.
use mathlib.Core.List.{Permᴰ}
use cli_control_account.Base.{
  ◌≡◌, refl, sym, ap, subst, List, [], ◌∷◌, true, ◌&&◌, arith, keep, map, take, All, All-take,
}
use cli_control_account.Base.Int.{ℤ}
use cli_control_account.Text.{Text, eq_text, Unicode}
use cli_control_account.Text.Laws.{eq_text_self, eq_text_iff, eq_text_sym}
use cli_control_account.TextMap.{TextMap}
use cli_control_account.Float.{Float}
use cli_control_account.Ego.Pricing.{ModelPricing, find_model_pricing, calculate_token_cost}
use cli_control_account.Ego.Events.{EgoEvent}
use cli_control_account.Ego.Storage.Engine.{Faults, query, ok, bind_ok, call, Db, Storage, with_db}
use cli_control_account.Ego.Queries.Window.{QueryWindow, selected}
use cli_control_account.Ego.Queries.Groups.{count_of, sum_of, every, Group, group_by, order_by}
use cli_control_account.Ego.Queries.Groups.Sums.{All-order_by}
use cli_control_account.Ego.Queries.Groups.Exact.{
  IsExact, group_by-IsExact, sum_of-Permᴰ, count_of-Permᴰ, length-Permᴰ,
}
use cli_control_account.Ego.Queries.Figures.{
  succeeded, is_sample, rounded, weighted_tps, average, success_rate,
}
use cli_control_account.Ego.Queries.Summary.{same_model, has_price, group_cost}
use cli_control_account.Ego.Queries.Rankings.Order.{deliver_prefix}
use cli_control_account.Ego.Queries.Rankings.{
  ProviderRanking, ModelRanking, more_used, same_provider, ranked, deliver, provider_ranking,
  model_ranking, get_provider_rankings, get_model_rankings,
}

All-map {ℓ} :
    {R : Type ℓ} (row : Group → R) (P : Group → Type 0) (Q : R → Type ℓ)
    → ((g : Group) → P g → Q (row g))
    → (gs : List Group) → All P gs
    → All Q (map row gs)
All-map row P Q holds [] h = tt
All-map row P Q holds (g ∷ gs) h = (holds g h.0, All-map row P Q holds gs h.1)

delivered-All {ℓ} :
    {R : Type ℓ} (faults : Faults) (row : Group → R) (P : Group → Type 0) (Q : R → Type ℓ)
    (gs : List Group) {rs : List R}
    → ((g : Group) → P g → Q (row g))
    → All P gs
    → deliver faults row gs ≡ ok rs
    → All Q rs
delivered-All faults row P Q gs holds h e =
    let (k, prefix) = deliver_prefix faults row gs e in
    subst (All Q) (sym prefix) (All-map row P Q holds (take k gs) (All-take P k gs h))

same_provider_self : (e : EgoEvent) → same_provider e e ≡ true
same_provider_self e = eq_text_self e.provider

same_provider_flip : (a b : EgoEvent) → same_provider a b ≡ same_provider b a
same_provider_flip a b = eq_text_sym a.provider b.provider

same_provider_follow :
    (a b c : EgoEvent) → same_provider a b ≡ true → same_provider c a ≡ same_provider c b
same_provider_follow a b c h = ap (eq_text c.provider) ((eq_text_iff a.provider b.provider).0 h)

same_model_self : (e : EgoEvent) → same_model e e ≡ true
same_model_self e = ground (arith, eq_text_self e.model, eq_text_self e.provider)

same_model_flip : (a b : EgoEvent) → same_model a b ≡ same_model b a
same_model_flip a b = ground (arith, eq_text_sym a.model b.model, eq_text_sym a.provider b.provider)

same_model_follow : (a b c : EgoEvent) → same_model a b ≡ true → same_model c a ≡ same_model c b
same_model_follow a b c h =
    ground (arith, eq_text_iff a.model b.model, eq_text_iff a.provider b.provider)

abbrev IsProviderGroup : List EgoEvent → Group → Type 0
IsProviderGroup = IsExact same_provider same_provider_self same_provider_flip same_provider_follow

abbrev IsModelGroup : List EgoEvent → Group → Type 0
IsModelGroup = IsExact same_model same_model_self same_model_flip same_model_follow

module _ {F : Type 0} ⦃fl : Float F⦄ where
  average-Permᴰ :
      (f : EgoEvent → ℤ) {xs ys : List EgoEvent} → Permᴰ xs ys → average {F = F} f xs ≡ average f ys
  unfolding average
  average-Permᴰ f p = rw (sum_of-Permᴰ f p, length-Permᴰ p) refl

  -- What the ranking of a provider is meant to say, by its events alone.
  abbrev pub provider_figures : Text → List EgoEvent → ProviderRanking F
  provider_figures name es = record {
    provider = name;
    total_requests = count_of every es;
    total_tokens = sum_of (λ e. e.total_tokens) es;
    prompt_tokens = sum_of (λ e. e.prompt_tokens) es;
    completion_tokens = sum_of (λ e. e.completion_tokens) es;
    avg_latency_ms = rounded 10 10 (average (λ e. e.latency_ms) es);
    success_rate = success_rate (count_of succeeded es) (count_of every es);
    avg_tps = weighted_tps (sum_of (λ e. e.gen_tokens) es) (sum_of (λ e. e.gen_ms) es);
    tps_requests = count_of is_sample es;
  }

  provider_figures-Permᴰ :
      (name : Text) {xs ys : List EgoEvent}
      → Permᴰ xs ys
      → provider_figures name xs ≡ provider_figures name ys
  provider_figures-Permᴰ name p =
      rw
        (
          count_of-Permᴰ every p,
          count_of-Permᴰ succeeded p,
          count_of-Permᴰ is_sample p,
          sum_of-Permᴰ (λ e. e.total_tokens) p,
          sum_of-Permᴰ (λ e. e.prompt_tokens) p,
          sum_of-Permᴰ (λ e. e.completion_tokens) p,
          sum_of-Permᴰ (λ e. e.gen_tokens) p,
          sum_of-Permᴰ (λ e. e.gen_ms) p,
          average-Permᴰ (λ e. e.latency_ms) p,
        )
        refl

  -- Whatever calls fail, each provider ranking that is returned is the one that the events of its
  -- provider in the window make up, and no others.
  pub get_provider_rankings_exact :
      (faults : Faults) (window : QueryWindow) (s : Storage F) (db : Db F)
      (rs : List (ProviderRanking F))
      → get_provider_rankings faults window (with_db s db) ≡ ok rs
      → All
          (λ r.
            r
            ≡ provider_figures r.provider
                (keep (λ e. eq_text r.provider e.provider) (selected window [] db.events)))
          rs
  unfolding get_provider_rankings ranked provider_ranking
  get_provider_rankings_exact faults window s db rs h =
      let (a, p, h') = bind_ok (call faults db query) _ h in
      let es : List EgoEvent = selected window [] db.events in
      let gs : List Group = group_by same_provider es in
      delivered-All faults provider_ranking (IsProviderGroup es) _ (order_by more_used gs)
        (λ g exact. provider_figures-Permᴰ g.first.provider exact)
        (All-order_by more_used (IsProviderGroup es) gs (
          group_by-IsExact same_provider same_provider_self same_provider_flip same_provider_follow
            es))
        h'

module _ {F : Type 0} ⦃fl : Float F⦄ ⦃u : Unicode⦄ where
  -- What the ranking of a model of a provider is meant to say.
  abbrev pub model_figures : TextMap (ModelPricing F) → Text → Text → List EgoEvent → ModelRanking F
  model_figures prices model provider es =
      let cost =
        calculate_token_cost (find_model_pricing prices model).0 provider
          (sum_of (λ e. e.prompt_tokens) es) (sum_of (λ e. e.completion_tokens) es)
          (sum_of (λ e. e.reasoning_tokens) es) (sum_of (λ e. e.cached_tokens) es)
          (sum_of (λ e. e.cache_creation_tokens) es) in
      record {
        model = model;
        provider = provider;
        total_requests = count_of every es;
        total_tokens = sum_of (λ e. e.total_tokens) es;
        prompt_tokens = sum_of (λ e. e.prompt_tokens) es;
        completion_tokens = sum_of (λ e. e.completion_tokens) es;
        estimated_cost_usd = rounded 10000 10000 cost.total;
        avg_latency_ms = rounded 10 10 (average (λ e. e.latency_ms) es);
        is_priced = has_price (find_model_pricing prices model);
        avg_tps = weighted_tps (sum_of (λ e. e.gen_tokens) es) (sum_of (λ e. e.gen_ms) es);
        tps_requests = count_of is_sample es;
      }

  model_figures-Permᴰ :
      (prices : TextMap (ModelPricing F)) (model provider : Text) {xs ys : List EgoEvent}
      → Permᴰ xs ys
      → model_figures prices model provider xs ≡ model_figures prices model provider ys
  model_figures-Permᴰ prices model provider p =
      rw
        (
          count_of-Permᴰ every p,
          count_of-Permᴰ is_sample p,
          sum_of-Permᴰ (λ e. e.total_tokens) p,
          sum_of-Permᴰ (λ e. e.prompt_tokens) p,
          sum_of-Permᴰ (λ e. e.completion_tokens) p,
          sum_of-Permᴰ (λ e. e.reasoning_tokens) p,
          sum_of-Permᴰ (λ e. e.cached_tokens) p,
          sum_of-Permᴰ (λ e. e.cache_creation_tokens) p,
          sum_of-Permᴰ (λ e. e.gen_tokens) p,
          sum_of-Permᴰ (λ e. e.gen_ms) p,
          average-Permᴰ (λ e. e.latency_ms) p,
        )
        refl

  -- Whatever calls fail, each model ranking that is returned, its cost and its price mark included,
  -- is the one that the selected events of its model and provider make up, and no others.
  pub get_model_rankings_exact :
      (faults : Faults) (window : QueryWindow) (provider : Text) (s : Storage F) (db : Db F)
      (rs : List (ModelRanking F))
      → get_model_rankings faults window provider (with_db s db) ≡ ok rs
      → All
          (λ r.
            r
            ≡ model_figures s.pricing_cache r.model r.provider (
                keep
                  (λ e. eq_text r.model e.model && eq_text r.provider e.provider)
                  (selected window provider db.events)))
          rs
  unfolding get_model_rankings ranked model_ranking group_cost
  get_model_rankings_exact faults window provider s db rs h =
      let (a, p, h') = bind_ok (call faults db query) _ h in
      let es : List EgoEvent = selected window provider db.events in
      let gs : List Group = group_by same_model es in
      delivered-All faults (model_ranking s.pricing_cache) (IsModelGroup es) _
        (take 50 (order_by more_used gs))
        (λ g exact. model_figures-Permᴰ s.pricing_cache g.first.model g.first.provider exact)
        (All-take (IsModelGroup es) 50 (order_by more_used gs) (
          All-order_by more_used (IsModelGroup es) gs
            (group_by-IsExact same_model same_model_self same_model_flip same_model_follow es)))
        h'
