-- ===== src/Ego/Pricing.antt =====
-- internal/ego/pricing.go and embedded_pricing.go, with `ModelPricing` of models.go: price lookup,
-- the token accounting of the providers, and the cost of a usage.
pub mod Semantics
pub mod Lookup
pub mod Cost
pub mod Exact
pub mod Embedded
use cli_control_account.Base.{
  ℕ, List, [], ◌∷◌, Bool, true, false, not, ◌&&◌, ◌||◌, Option, none, some, if◌then◌else◌, any, map,
  is_empty,
}
use cli_control_account.Base.Int.{ℤ, pos, ltb_ℤ}
use cli_control_account.Base.Word.{add64, sub64}
use cli_control_account.Text.{
  Text, text, eq_text, has_prefix, contains, remove_byte, Unicode, to_lower, trim_space,
}
use cli_control_account.TextMap.{TextMap, lookup, insert}
use cli_control_account.Float.{Float, zero_f}

pub record ModelPricing (F : Type 0) : Type 0 where
  pub model : Text
  pub input_cost_per_token : F
  pub output_cost_per_token : F
  pub cache_read_input_token_cost : F
  pub cache_creation_input_token_cost : F
  pub updated_at : ℤ

pub data TokenAccountingSemantics : Type 0 where
  subset independent separate_reasoning : TokenAccountingSemantics

module _ {F : Type 0} ⦃fl : Float F⦄ where
  -- ModelPricing{Model: modelName}
  abbrev pub unpriced : Text → ModelPricing F
  unpriced name = record {
    model = name;
    input_cost_per_token = zero_f;
    output_cost_per_token = zero_f;
    cache_read_input_token_cost = zero_f;
    cache_creation_input_token_cost = zero_f;
    updated_at = pos 0;
  }

abbrev pub confirmed_aliases : TextMap Text
confirmed_aliases = (text "gemini-3.8-flash-high", text "gemini-3.8-flash") ∷ []

module _ ⦃u : Unicode⦄ where
  unfoldable pub normalize_model_name : Text → Text
  normalize_model_name name = to_lower (trim_space name)

  -- strings.ReplaceAll(strings.ToLower(strings.TrimSpace(executorType[0])), "-", "")
  abbrev pub clean_executor : Option Text → Text
  clean_executor none = []
  clean_executor (some executor) = remove_byte b'-' (to_lower (trim_space executor))

  -- The first test: an OpenAI-compatible executor, provider or provider prefix. Its arguments are
  -- normalized.
  unfoldable pub is_openai_compatible : Text → Text → Bool
  is_openai_compatible clean_exec p =
      contains clean_exec (text "openaicompat")
      || (eq_text p (text "openai-compatibility") || has_prefix p (text "openai-compatible-"))

abbrev pub gemini_markers : List Text
gemini_markers =
    text "gemini" ∷ text "aistudio" ∷ text "antigravity" ∷ text "vertex" ∷ text "interaction" ∷ []

unfoldable pub is_claude : Text → Bool
is_claude p = contains p (text "claude") || contains p (text "anthropic")

unfoldable pub is_gemini : Text → Bool
is_gemini p = any (contains p) gemini_markers

module _ ⦃u : Unicode⦄ where
  -- The variadic executor type is an option.
  unfoldable pub resolve_token_semantics : Text → Option Text → TokenAccountingSemantics
  resolve_token_semantics provider executor =
      let p = to_lower (trim_space provider) in
      if is_openai_compatible (clean_executor executor) p
      then subset
      else if is_claude p
      then independent
      else if is_gemini p
      then separate_reasoning
      else subset

module _ {F : Type 0} ⦃fl : Float F⦄ ⦃u : Unicode⦄ where
  -- p, ok := pricingMap[target] for the alias of a name, if it has one
  abbrev pub lookup_alias : TextMap (ModelPricing F) → Text → Option (ModelPricing F)
  lookup_alias prices normalized = elim (lookup normalized confirmed_aliases) [
    | none ↦ none
    | some target ↦ lookup target prices
  ]

  unfoldable pub find_model_pricing : TextMap (ModelPricing F) → Text → ModelPricing F × Bool
  find_model_pricing prices name =
      let normalized = normalize_model_name name in
      elim (lookup name prices) [
        | some p ↦ (p, true)
        | none ↦
            if is_empty normalized
            then (unpriced name, false)
            else elim (lookup normalized prices) [
              | some p ↦ (p, true)
              | none ↦ elim (lookup_alias prices normalized) [
                | some p ↦ (p, true)
                | none ↦ (unpriced name, false)
              ]
            ]
      ]

-- if n < 0 { n = 0 }
abbrev pub at_least_zero : ℤ → ℤ
at_least_zero n = if ltb_ℤ n (pos 0) then pos 0 else n

-- The prompt tokens that are billed at the input rate.
unfoldable pub uncached_prompt : TokenAccountingSemantics → ℤ → ℤ → ℤ → ℤ
uncached_prompt independent prompt cache_read cache_creation = at_least_zero prompt
uncached_prompt _ prompt cache_read cache_creation =
    at_least_zero (sub64 prompt (add64 cache_read cache_creation))

-- The tokens that are billed at the output rate.
unfoldable pub output_tokens : TokenAccountingSemantics → ℤ → ℤ → ℤ
output_tokens independent completion reasoning = completion
output_tokens separate_reasoning completion reasoning = add64 completion reasoning
output_tokens subset completion reasoning =
    if ltb_ℤ completion reasoning then reasoning else completion

module _ {F : Type 0} ⦃fl : Float F⦄ where
  unfoldable pub cache_read_rate : ModelPricing F → F
  cache_read_rate pricing =
      if fl.eq pricing.cache_read_input_token_cost zero_f
        && fl.lt zero_f pricing.input_cost_per_token
      then pricing.input_cost_per_token
      else pricing.cache_read_input_token_cost

  abbrev default_creation_rate : TokenAccountingSemantics → F → F
  default_creation_rate independent input = fl.mul input fl.five_quarters
  default_creation_rate _ input = input

  unfoldable pub cache_creation_rate : TokenAccountingSemantics → ModelPricing F → F
  cache_creation_rate semantics pricing =
      if fl.eq pricing.cache_creation_input_token_cost zero_f
        && fl.lt zero_f pricing.input_cost_per_token
      then default_creation_rate semantics pricing.input_cost_per_token
      else pricing.cache_creation_input_token_cost

-- The three results of a cost calculation.
pub record TokenCost (F : Type 0) : Type 0 where
  pub total : F
  pub prompt : F
  pub output : F

module _ {F : Type 0} ⦃fl : Float F⦄ where
  -- The rest of `CalculateTokenCost` once the semantics is known.
  unfoldable pub cost_under :
      TokenAccountingSemantics → ModelPricing F → ℤ → ℤ → ℤ → ℤ → ℤ → TokenCost F
  cost_under semantics pricing prompt completion reasoning cache_read cache_creation =
      let uncached = uncached_prompt semantics prompt cache_read cache_creation in
      let prompt_cost =
        fl.add
          (fl.add (fl.mul (fl.of_int uncached) pricing.input_cost_per_token)
            (fl.mul (fl.of_int cache_read) (cache_read_rate pricing)))
          (fl.mul (fl.of_int cache_creation) (cache_creation_rate semantics pricing)) in
      let output_cost =
        fl.mul (fl.of_int (output_tokens semantics completion reasoning))
          pricing.output_cost_per_token in
      record { total = fl.add prompt_cost output_cost; prompt = prompt_cost; output = output_cost }

module _ {F : Type 0} ⦃fl : Float F⦄ ⦃u : Unicode⦄ where
  unfoldable pub calculate_token_cost : ModelPricing F → Text → ℤ → ℤ → ℤ → ℤ → ℤ → TokenCost F
  unfolding cost_under
  calculate_token_cost pricing provider = cost_under (resolve_token_semantics provider none) pricing

-- embedded_pricing.go: the entries of assets/pricing.json, read once.
pub record RawEmbeddedPricingEntry (F : Type 0) : Type 0 where
  pub model : Text
  pub input_cost : F
  pub output_cost : F
  pub cache_read : F
  pub cache_creation : F

-- embeddedPricingOnce and embeddedPricingCache
pub record EmbeddedPricing (F : Type 0) : Type 0 where
  pub done : Bool
  pub cache : List (ModelPricing F)

module _ {F : Type 0} where
  abbrev pub of_raw : RawEmbeddedPricingEntry F → ModelPricing F
  of_raw r = record {
    model = r.model;
    input_cost_per_token = r.input_cost;
    output_cost_per_token = r.output_cost;
    cache_read_input_token_cost = r.cache_read;
    cache_creation_input_token_cost = r.cache_creation;
    updated_at = pos 0;
  }

  -- The result of the first call: json.Unmarshal is a parameter, `none` its error.
  abbrev pub load_once :
      Option (List (RawEmbeddedPricingEntry F))
      → EmbeddedPricing F
      → Option (List (ModelPricing F)) × EmbeddedPricing F
  load_once none state = (none, record state { done = true })
  load_once (some raw) state =
      (some (map of_raw raw), record { done = true; cache = map of_raw raw })

  unfoldable pub get_embedded_pricing :
      (Text → Option (List (RawEmbeddedPricingEntry F)))
      → Text
      → EmbeddedPricing F
      → Option (List (ModelPricing F)) × EmbeddedPricing F
  get_embedded_pricing unmarshal json state =
      if state.done
      then (some state.cache, state)
      else if is_empty json
      then (some state.cache, record state { done = true })
      else load_once (unmarshal json) state
