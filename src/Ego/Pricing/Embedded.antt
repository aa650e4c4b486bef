-- ===== src/Ego/Pricing/Embedded.antt =====
-- The read-once cache of internal/ego/embedded_pricing.go.
use cli_control_account.Base.{◌≡◌, ◌≢◌, false, List, [], Option, none, some, arith}
use cli_control_account.Text.{Text}
use cli_control_account.Ego.Pricing.{RawEmbeddedPricingEntry, EmbeddedPricing, get_embedded_pricing}

module _ {F : Type 0} where
  -- Before the first call.
  abbrev pub fresh : EmbeddedPricing F
  fresh = record { done = false; cache = [] }

module _ {F : Type 0} (unmarshal : Text → Option (List (RawEmbeddedPricingEntry F)))
    (json : Text) where
  -- A first call that cannot parse the embedded list reports an error, and every later call
  -- reports an empty list as a success.
  pub get_embedded_pricing_forgets_error :
      json ≢ []
      → unmarshal json ≡ none
      → let state = (get_embedded_pricing unmarshal json fresh).1 in
        ((get_embedded_pricing unmarshal json fresh).0 ≡ none)
        × (get_embedded_pricing unmarshal json state ≡ (some [], state))
  unfolding get_embedded_pricing
  get_embedded_pricing_forgets_error h e = ground arith
