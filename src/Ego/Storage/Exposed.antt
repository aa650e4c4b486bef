-- ===== src/Ego/Storage/Exposed.antt =====
-- The price that internal/ego/storage.go gives for the name of a model.
use cli_control_account.Base.{
  ◌≡◌, refl, ◌⊎◌, inl, inr, List, [], ◌∷◌, true, Option, none, some, arith, Option-cases, any, All,
}
use cli_control_account.Text.{Text, eq_text, Unicode}
use cli_control_account.Text.Laws.{eq_text_self}
use cli_control_account.TextMap.{TextMap, lookup}
use cli_control_account.Float.{Float}
use cli_control_account.Ego.Pricing.{ModelPricing, unpriced}
use cli_control_account.Ego.Pricing.Lookup.{first_price, price_keys, find_model_pricing-first_price}
use cli_control_account.Ego.Storage.Engine.{Storage}
use cli_control_account.Ego.Storage.Prices.{source_from, get_pricing}
use cli_control_account.Ego.Storage.Rates.{IsSourced, IsVerified, IsPinned}

allowed_tail :
    (k : Text) (keys ks : List Text)
    → All (λ j. any (eq_text j) keys ≡ true) ks
    → All (λ j. any (eq_text j) (k ∷ keys) ≡ true) ks
allowed_tail k keys [] h = tt
allowed_tail k keys (j ∷ js) h = (ground (arith, h.0), allowed_tail k keys js h.1)

allowed_self : (keys : List Text) → All (λ k. any (eq_text k) keys ≡ true) keys
allowed_self [] = tt
allowed_self (k ∷ ks) = (ground (arith, eq_text_self k), allowed_tail k ks ks (allowed_self ks))

module _ {F : Type 0} ⦃fl : Float F⦄ ⦃u : Unicode⦄ where
  -- The unpriced entry, or the rates that the embedded list has for a key that the name may use.
  abbrev pub IsListed : List (ModelPricing F) → Text → ModelPricing F → Type 0
  IsListed models name p =
      (p ≡ unpriced name)
      ⊎ ((k : Text) × (any (eq_text k) (price_keys name) ≡ true)
          × IsSourced (source_from [] models) k p)

  first_price-IsListed :
      (models : List (ModelPricing F)) (cache : TextMap (ModelPricing F)) (name : Text)
      (keys : List Text)
      → All (λ k. any (eq_text k) (price_keys name) ≡ true) keys
      → IsVerified (source_from [] models) cache
      → IsListed models name (first_price cache name keys).0
  unfolding first_price
  first_price-IsListed models cache name [] m v = inl refl
  first_price-IsListed models cache name (k ∷ ks) m v = elim (Option-cases (lookup k cache)) [
    | inl absent ↦ rw (absent, first_price) (first_price-IsListed models cache name ks m.1 v)
    | inr (p, present) ↦ rw (present, first_price) (inr (k, m.0, v.at k p present))
  ]

  -- With a pinned cache, the price returned for a model is the unpriced entry of its name, or has
  -- the rates that the embedded list gives for a key that the name may use: the name itself, its
  -- normal form, or the confirmed alias of that.
  pub get_pricing-IsListed :
      (models : List (ModelPricing F)) (name : Text) (p : Option (Storage F))
      → IsPinned models p
      → IsListed models name (get_pricing name p)
  unfolding get_pricing
  get_pricing-IsListed models name none v = inl refl
  get_pricing-IsListed models name (some s) v =
      rw (find_model_pricing-first_price s.pricing_cache name, get_pricing)
        (first_price-IsListed models s.pricing_cache name (price_keys name)
          (allowed_self (price_keys name)) v)
