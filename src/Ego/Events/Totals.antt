-- ===== src/Ego/Events/Totals.antt =====
-- The total of an event against the cost that is computed for it: `transformToEgoEvent` of
-- internal/ego/worker.go and `CalculateTokenCost` of internal/ego/pricing.go.
use cli_control_account.Base.{
  ℕ, ◌+◌, ◌^◌, ◌≤◌, ◌<◌, ◌≡◌, ◌≢◌, ◌∙◌, sym, ap, ltb, if◌then◌else◌, true, false, arith, none, some,
}
use cli_control_account.Base.Int.{ℤ, pos}
use cli_control_account.Base.Word.{add64_pos}
use cli_control_account.Text.{Text, text, contains, Unicode}
use cli_control_account.Float.{Float, ExactFloat}
use cli_control_account.Ego.Pricing.{
  ModelPricing, TokenCost, TokenAccountingSemantics, subset, independent, separate_reasoning,
  resolve_token_semantics, clean_executor, calculate_token_cost,
}
use cli_control_account.Ego.Pricing.Exact.{
  billed_count, uncached_count, output_count, unit_rates, calculate_token_cost_unit,
  calculate_token_cost_independent,
}
use cli_control_account.Ego.Pricing.Semantics.{resolve_token_semantics_executor}
use cli_control_account.Ego.Events.{
  RawUsageRecord, RawUsageDetail, EgoEvent, computed_total, cached_reads, event_total,
  provider_name, transform_to_ego_event,
}

module _ (p c r h w : ℕ) (fits : p + c + r + h + w ≤ 2 ^ 53) where
  computed_total-billed_count :
      (s : TokenAccountingSemantics)
      → h + w ≤ p
      → computed_total s (pos p) (pos c) (pos r) (pos h) (pos w) ≡ pos (billed_count s p c r h w)
  unfolding computed_total uncached_count output_count
  computed_total-billed_count subset within = ground (arith, add64_pos p c, add64_pos p r)
  computed_total-billed_count independent within =
      ground (arith, add64_pos p h, add64_pos (p + h) w, add64_pos (p + h + w) c)
  computed_total-billed_count separate_reasoning within =
      ground (arith, add64_pos p c, add64_pos (p + c) r)

  computed_total_subset :
      computed_total subset (pos p) (pos c) (pos r) (pos h) (pos w)
      ≡ pos (p + (if ltb c r then r else c))
  unfolding computed_total
  computed_total_subset = ground (arith, add64_pos p c, add64_pos p r)

-- The counts of a record whose cache fields are plain: no count is negative, the reads are given,
-- and no total is stated.
abbrev pub plain_detail : ℕ → ℕ → ℕ → ℕ → ℕ → RawUsageDetail
plain_detail p c r h w = record {
  input_tokens = pos p;
  output_tokens = pos c;
  reasoning_tokens = pos r;
  cached_tokens = pos w;
  cache_read_tokens = pos h;
  cache_creation_tokens = pos w;
  total_tokens = pos 0;
}

cached_reads-plain_detail : (p c r h w : ℕ) → cached_reads (plain_detail p c r h w) ≡ pos h
unfolding cached_reads
cached_reads-plain_detail p c r h w = ground arith

module _ {F : Type 0} ⦃fl : Float F⦄ ⦃u : Unicode⦄ where
  -- The cost of a stored event, as the queries compute it for the group that it makes alone.
  abbrev pub event_cost : ModelPricing F → EgoEvent → TokenCost F
  event_cost pricing e =
      calculate_token_cost pricing e.provider e.prompt_tokens e.completion_tokens e.reasoning_tokens
        e.cached_tokens e.cache_creation_tokens

  module _ (exact : ExactFloat fl) (name : Text) (now : ℤ) (rec : RawUsageRecord) (p c r h w : ℕ)
      (fits : p + c + r + h + w ≤ 2 ^ 53) where
    -- For a record whose token counts are not negative and add up to at most 2^53: if it states no
    -- total, its executor type does not name OpenAI compatibility, and its cached tokens are among its prompt tokens,
    -- then the cost of its event, at the rate of one for every kind of token, is the total of the
    -- event, for each of the three accounting semantics. The cached field echoes the cache
    -- creation, as the host fills it on requests with no cache reads. The floats are exact on whole
    -- numbers up to 2^53.
    pub total_tokens_billed :
        contains (clean_executor (some rec.executor_type)) (text "openaicompat") ≡ false
        → h + w ≤ p
        → let e = transform_to_ego_event now (record rec { detail = plain_detail p c r h w }) in
          (event_cost (unit_rates name) e).total ≡ fl.of_int e.total_tokens
    unfolding transform_to_ego_event event_total provider_name
    total_tokens_billed plain within =
        let provider = provider_name rec in
        let same = resolve_token_semantics_executor provider rec.executor_type in
        rw (cached_reads-plain_detail p c r h w, same, plain)
          (calculate_token_cost_unit exact name p c r h w fits provider within
            ∙ ap fl.of_int (
                sym (
                  computed_total-billed_count p c r h w fits (resolve_token_semantics provider none)
                    within)))

    -- For a record whose token counts are not negative and add up to at most 2^53: if it states no
    -- total, its executor type names OpenAI compatibility and its provider is one whose counters are independent by
    -- name, then the cost of its event, at the rate of one for every kind of token, is not the
    -- total of the event, whenever some tokens are cached and the reasoning tokens are among the
    -- completion tokens. The cached field echoes the cache creation, and the floats are exact on
    -- whole numbers up to 2^53.
    pub total_tokens_not_billed :
        contains (clean_executor (some rec.executor_type)) (text "openaicompat") ≡ true
        → resolve_token_semantics (provider_name rec) none ≡ independent
        → 0 < h + w
        → r ≤ c
        → let e = transform_to_ego_event now (record rec { detail = plain_detail p c r h w }) in
          (event_cost (unit_rates name) e).total ≢ fl.of_int e.total_tokens
    unfolding transform_to_ego_event event_total provider_name
    total_tokens_not_billed compatible claude some_cached within =
        let provider = provider_name rec in
        let same = resolve_token_semantics_executor provider rec.executor_type in
        rw (cached_reads-plain_detail p c r h w, same, compatible)
          (λ equal.
            let n =
              exact.of_int_inj (p + h + w + c) (p + (if ltb c r then r else c)) (omega arith)
                (ground arith)
                (sym (calculate_token_cost_independent exact name p c r h w fits provider claude)
                  ∙ equal
                  ∙ ap fl.of_int (computed_total_subset p c r h w fits)) in
            absurd (ground arith))
