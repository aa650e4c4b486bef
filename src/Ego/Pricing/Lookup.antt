-- ===== src/Ego/Pricing/Lookup.antt =====
-- `FindModelPricing` of internal/ego/pricing.go against its three keys.
use cli_control_account.Base.{
  ◌≡◌, refl, ◌≢◌, none, some, Bool, true, false, List, [], ◌∷◌, arith, if◌then◌else◌, is_empty, All,
}
use cli_control_account.Text.{Text, Unicode}
use cli_control_account.Text.Laws.{eq_text_iff, eq_text_self}
use cli_control_account.TextMap.{TextMap, lookup, insert, lookup-insert}
use cli_control_account.Float.{Float}
use cli_control_account.Ego.Pricing.{
  ModelPricing, unpriced, confirmed_aliases, normalize_model_name, find_model_pricing,
}

module _ ⦃u : Unicode⦄ where
  abbrev alias_keys : Text → List Text
  alias_keys normalized = elim (lookup normalized confirmed_aliases) [
    | none ↦ []
    | some target ↦ target ∷ []
  ]

  -- The keys under which a model name may be priced, in the order of preference.
  abbrev pub price_keys : Text → List Text
  price_keys name =
      let normalized = normalize_model_name name in
      name ∷ (if is_empty normalized then [] else normalized ∷ alias_keys normalized)

module _ {F : Type 0} ⦃fl : Float F⦄ ⦃u : Unicode⦄ where
  -- The price under the first key that has one.
  unfoldable pub first_price : TextMap (ModelPricing F) → Text → List Text → ModelPricing F × Bool
  first_price prices name [] = (unpriced name, false)
  first_price prices name (k ∷ ks) = elim (lookup k prices) [
    | none ↦ first_price prices name ks
    | some p ↦ (p, true)
  ]

  -- The price of a model is the first one found under its keys: the exact name, its normal form,
  -- and the confirmed alias of that. Without any, it is the unpriced entry of the name, unmatched.
  pub find_model_pricing-first_price :
      (prices : TextMap (ModelPricing F)) (name : Text)
      → find_model_pricing prices name ≡ first_price prices name (price_keys name)
  unfolding find_model_pricing first_price
  find_model_pricing-first_price prices name = ground (arith)

  first_price-insert_other :
      (prices : TextMap (ModelPricing F)) (name k : Text) (p : ModelPricing F) (ks : List Text)
      → All (λ j. j ≢ k) ks
      → first_price (insert k p prices) name ks ≡ first_price prices name ks
  unfolding first_price
  first_price-insert_other prices name k p [] h = refl
  first_price-insert_other prices name k p (j ∷ ks) h = ground (
    arith,
    lookup-insert k j p prices,
    eq_text_iff k j,
    first_price-insert_other prices name k p ks h.1,
  )

  -- A price stored under the exact model name is the price of the model, and a price stored under
  -- a key that is neither the name, nor its normalized form, nor the confirmed alias of that,
  -- changes no result of the lookup.
  pub find_model_pricing-insert :
      (prices : TextMap (ModelPricing F)) (name k : Text) (p : ModelPricing F)
      → All (λ j. j ≢ k) (price_keys name)
      → (find_model_pricing (insert name p prices) name ≡ (p, true))
        × (find_model_pricing (insert k p prices) name ≡ find_model_pricing prices name)
  find_model_pricing-insert prices name k p h = (
    unfold find_model_pricing in
        ground (arith, lookup-insert name name p prices, eq_text_self name),
    rw
        (
          find_model_pricing-first_price prices name,
          find_model_pricing-first_price (insert k p prices) name,
        )
        (first_price-insert_other prices name k p (price_keys name) h),
  )
