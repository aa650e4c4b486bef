-- ===== src/Ego/Pricing/Exact.antt =====
-- `CalculateTokenCost` of internal/ego/pricing.go at the rate of one for every token: it counts.
use cli_control_account.Base.{ℕ, ◌+◌, ◌-◌, ◌^◌, ◌≤◌, ◌≡◌, refl, ltb, if◌then◌else◌, arith, none}
use cli_control_account.Base.Int.{pos}
use cli_control_account.Base.Word.{add64_pos, sub64_pos}
use cli_control_account.Text.{Text, Unicode}
use cli_control_account.Float.{Float, ExactFloat}
use cli_control_account.Ego.Pricing.{
  ModelPricing, TokenCost, TokenAccountingSemantics, subset, independent, separate_reasoning,
  resolve_token_semantics, uncached_prompt, output_tokens, cache_read_rate, cache_creation_rate,
  cost_under, calculate_token_cost,
}

-- The tokens that a bill counts, if the cached ones are among the prompt tokens.
unfoldable pub uncached_count : TokenAccountingSemantics → ℕ → ℕ → ℕ → ℕ
uncached_count independent p h w = p
uncached_count _ p h w = p - (h + w)

unfoldable pub output_count : TokenAccountingSemantics → ℕ → ℕ → ℕ
output_count independent c r = c
output_count separate_reasoning c r = c + r
output_count subset c r = if ltb c r then r else c

abbrev pub billed_count : TokenAccountingSemantics → ℕ → ℕ → ℕ → ℕ → ℕ → ℕ
billed_count s p c r h w = uncached_count s p h w + h + w + output_count s c r

module _ (p c r h w : ℕ) (fits : p + c + r + h + w ≤ 2 ^ 53) where
  -- The counts of a semantics where the cached tokens are no more than the prompt tokens, or are
  -- counted beside them.
  uncached_prompt_pos :
      (s : TokenAccountingSemantics)
      → h + w ≤ p
      → uncached_prompt s (pos p) (pos h) (pos w) ≡ pos (uncached_count s p h w)
  unfolding uncached_prompt uncached_count
  uncached_prompt_pos subset within = ground (arith, add64_pos h w, sub64_pos p (h + w))
  uncached_prompt_pos independent within = ground arith
  uncached_prompt_pos separate_reasoning within = ground (arith, add64_pos h w, sub64_pos p (h + w))

  uncached_prompt_independent : uncached_prompt independent (pos p) (pos h) (pos w) ≡ pos p
  unfolding uncached_prompt
  uncached_prompt_independent = ground arith

  output_tokens_pos :
      (s : TokenAccountingSemantics) → output_tokens s (pos c) (pos r) ≡ pos (output_count s c r)
  unfolding output_tokens output_count
  output_tokens_pos subset = ground arith
  output_tokens_pos independent = refl
  output_tokens_pos separate_reasoning = add64_pos c r (omega arith)

  output_count_le : (s : TokenAccountingSemantics) → output_count s c r ≤ c + r
  unfolding output_count
  output_count_le subset = ground arith
  output_count_le independent = omega arith
  output_count_le separate_reasoning = omega arith

  uncached_count_le : (s : TokenAccountingSemantics) → uncached_count s p h w ≤ p
  unfolding uncached_count
  uncached_count_le subset = omega arith
  uncached_count_le independent = omega arith
  uncached_count_le separate_reasoning = omega arith

  pub billed_count_le : (s : TokenAccountingSemantics) → billed_count s p c r h w ≤ 2 ^ 53
  billed_count_le s = let u = uncached_count_le s in let o = output_count_le s in omega arith

-- Every kind of token costs one.
abbrev pub unit_rates : {F : Type 0} → ⦃fl : Float F⦄ → Text → ModelPricing F
unit_rates ⦃fl = fl⦄ name = record {
  model = name;
  input_cost_per_token = fl.of_int (pos 1);
  output_cost_per_token = fl.of_int (pos 1);
  cache_read_input_token_cost = fl.of_int (pos 1);
  cache_creation_input_token_cost = fl.of_int (pos 1);
  updated_at = pos 0;
}

module _ {F : Type 0} ⦃fl : Float F⦄ (exact : ExactFloat fl) where
  cache_read_rate_unit : (name : Text) → cache_read_rate (unit_rates name) ≡ fl.of_int (pos 1)
  unfolding cache_read_rate
  cache_read_rate_unit name = rw exact.one_ne_zero refl

  cache_creation_rate_unit :
      (s : TokenAccountingSemantics) (name : Text)
      → cache_creation_rate s (unit_rates name) ≡ fl.of_int (pos 1)
  unfolding cache_creation_rate
  cache_creation_rate_unit s name = rw exact.one_ne_zero refl

  -- Four counts, each at the rate of one, add up.
  four_terms :
      (a b c d : ℕ)
      → a + b + c + d ≤ 2 ^ 53
      → let one = fl.of_int (pos 1) in
        fl.add
          (fl.add
            (fl.add (fl.mul (fl.of_int (pos a)) one) (fl.mul (fl.of_int (pos b)) one))
            (fl.mul (fl.of_int (pos c)) one))
          (fl.mul (fl.of_int (pos d)) one)
        ≡ fl.of_int (pos (a + b + c + d))
  four_terms a b c d fits =
      rw
        (
          exact.mul_one a (omega arith),
          exact.mul_one b (omega arith),
          exact.mul_one c (omega arith),
          exact.mul_one d (omega arith),
          exact.add_exact a b (omega arith),
          exact.add_exact (a + b) c (omega arith),
          exact.add_exact (a + b + c) d (omega arith),
        )
        refl

  module _ (name : Text) (p c r h w : ℕ) (fits : p + c + r + h + w ≤ 2 ^ 53) where
    cost_under_unit :
        (s : TokenAccountingSemantics)
        → uncached_prompt s (pos p) (pos h) (pos w) ≡ pos (uncached_count s p h w)
        → (cost_under s (unit_rates name) (pos p) (pos c) (pos r) (pos h) (pos w)).total
          ≡ fl.of_int (pos (billed_count s p c r h w))
    unfolding cost_under
    cost_under_unit s uncached =
        rw
          (
            uncached,
            output_tokens_pos p c r h w fits s,
            cache_read_rate_unit name,
            cache_creation_rate_unit s name,
          )
          (four_terms (uncached_count s p h w) h w (output_count s c r)
            (billed_count_le p c r h w fits s))

    module _ ⦃u : Unicode⦄ (provider : Text) where
      -- At these rates the cost of a usage whose cached tokens are among its prompt tokens is the
      -- number of the tokens.
      pub calculate_token_cost_unit :
          h + w ≤ p
          → let cost : TokenCost F =
              calculate_token_cost
                (unit_rates name)
                provider
                (pos p)
                (pos c)
                (pos r)
                (pos h)
                (pos w) in
            cost.total
            ≡ fl.of_int (pos (billed_count (resolve_token_semantics provider none) p c r h w))
      unfolding calculate_token_cost
      calculate_token_cost_unit within =
          let s = resolve_token_semantics provider none in
          cost_under_unit s (uncached_prompt_pos p c r h w fits s within)

      pub calculate_token_cost_independent :
          resolve_token_semantics provider none ≡ independent
          → let cost : TokenCost F =
              calculate_token_cost
                (unit_rates name)
                provider
                (pos p)
                (pos c)
                (pos r)
                (pos h)
                (pos w) in
            cost.total ≡ fl.of_int (pos (p + h + w + c))
      unfolding calculate_token_cost uncached_count output_count
      calculate_token_cost_independent claude =
          rw claude (cost_under_unit independent (uncached_prompt_independent p c r h w fits))
