-- ===== src/Tests/Pricing.antt =====
-- internal/ego/pricing.go at work.
use cli_control_account.Base.{ℕ, ◌≡◌, refl, [], ◌∷◌, true, none, some}
use cli_control_account.Base.Int.{pos}
use cli_control_account.Text.{
  text, to_lower, trim_space, eq_text, contains, has_prefix, remove_byte, trim_left, trim_right,
}
use cli_control_account.TextMap.{TextMap, lookup}
use cli_control_account.Ego.Pricing.{
  ModelPricing, subset, independent, separate_reasoning, resolve_token_semantics,
  is_openai_compatible, is_claude, is_gemini, find_model_pricing, normalize_model_name,
  calculate_token_cost, uncached_prompt, output_tokens, cache_read_rate, cache_creation_rate,
}
use cli_control_account.Ego.Pricing.Lookup.{price_keys, first_price, find_model_pricing-first_price}
use cli_control_account.Ego.Pricing.Embedded.{fresh, get_embedded_pricing_forgets_error}
use cli_control_account.Ego.Pricing.{get_embedded_pricing}
use cli_control_account.Tests.Fixtures.{plain_unicode, whole_float, price}

semantics : Unit {0}
unfolding resolve_token_semantics is_openai_compatible is_claude is_gemini to_lower trim_space
    trim_left trim_right contains has_prefix remove_byte eq_text
semantics = tt

semantics_tests :
    (resolve_token_semantics (text " Claude ") none ≡ independent)
    × (resolve_token_semantics (text "claude") (some (text "OpenAI-Compat")) ≡ subset)
    × (resolve_token_semantics (text "gemini-cli") none ≡ separate_reasoning)
    × (resolve_token_semantics (text "codex") none ≡ subset)
unfolding semantics
semantics_tests = (refl, refl, refl, refl)

-- The alias of the source, under another spelling.
alias_test :
    find_model_pricing
      ((text "gemini-3.8-flash", price (text "gemini-3.8-flash") 3 7) ∷ [])
      (text "Gemini-3.8-Flash-High")
    ≡ (price (text "gemini-3.8-flash") 3 7, true)
unfolding semantics find_model_pricing normalize_model_name lookup
alias_test = refl

-- A prompt of 100 tokens, 30 of them cached, and 10 tokens of output with 4 of reasoning.
cost_test :
    (calculate_token_cost
      (price [] 3 7)
      (text "claude")
      (pos 100)
      (pos 10)
      (pos 4)
      (pos 30)
      (pos 0)).total
    ≡ 460
unfolding semantics calculate_token_cost uncached_prompt output_tokens cache_read_rate
    cache_creation_rate
cost_test = refl

abbrev gpt_prices : TextMap (ModelPricing ℕ)
gpt_prices = (text "gpt-4o", price (text "gpt-4o") 2 8) ∷ []

get_embedded_pricing_forgets_error_example :
    let state = (get_embedded_pricing {F = ℕ} (λ s. none) (text "{") fresh).1 in
    ((get_embedded_pricing {F = ℕ} (λ s. none) (text "{") fresh).0 ≡ none)
    × (get_embedded_pricing (λ s. none) (text "{") state ≡ (some [], state))
get_embedded_pricing_forgets_error_example =
    get_embedded_pricing_forgets_error (λ s. none) (text "{") (λ e. cc) refl

find_model_pricing-first_price_example :
    find_model_pricing gpt_prices (text "GPT-4o")
    ≡ first_price gpt_prices (text "GPT-4o") (price_keys (text "GPT-4o"))
find_model_pricing-first_price_example = find_model_pricing-first_price gpt_prices (text "GPT-4o")
