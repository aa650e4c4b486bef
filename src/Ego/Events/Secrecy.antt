-- ===== src/Ego/Events/Secrecy.antt =====
-- What an event reveals of the API key: `transformToEgoEvent` of internal/ego/worker.go.
use cli_control_account.Base.{
  ◌-◌, ◌<◌, ◌≡◌, refl, [], ◌∷◌, false, arith, is_empty, length, take, drop, ap,
}
use cli_control_account.Base.Int.{ℤ}
use cli_control_account.Text.{Text, Unicode, trim_space, trim_left, trim_right}
use cli_control_account.Ego.Events.{
  RawUsageRecord, mask_key, account_name, transform_to_ego_event, tps_sample, provider_name,
  model_name, event_total, latency_millis,
}

-- The last four bytes.
abbrev pub last_four : Text → Text
last_four s = drop (length s - 4) s

module _ ⦃u : Unicode⦄ where
  trim_space-nil : trim_space [] ≡ []
  unfolding trim_space trim_left trim_right
  trim_space-nil = refl

  is_empty_of_long : (k : Text) → 8 < length (trim_space k) → is_empty k ≡ false
  is_empty_of_long [] h = absurd (omega (arith, ap length trim_space-nil))
  is_empty_of_long (c ∷ k) h = refl

  mask_key_same :
      (k k' : Text)
      → 8 < length k
      → 8 < length k'
      → take 4 k ≡ take 4 k'
      → last_four k ≡ last_four k'
      → mask_key k ≡ mask_key k'
  unfolding mask_key
  mask_key_same k k' h h' front back = ground arith

  account_name_same :
      (rec : RawUsageRecord) (k k' : Text)
      → is_empty k ≡ false
      → is_empty k' ≡ false
      → mask_key (trim_space k) ≡ mask_key (trim_space k')
      → account_name (record rec { api_key = k }) ≡ account_name (record rec { api_key = k' })
  unfolding account_name
  account_name_same rec k k' e e' m = ground arith

  -- Of an API key that is longer than eight bytes once trimmed, an event shows the first four and
  -- the last four bytes alone: two records that differ only in such keys, which agree there, make
  -- the same event.
  pub transform_to_ego_event_masks_key :
      (now : ℤ) (rec : RawUsageRecord) (k k' : Text)
      → 8 < length (trim_space k)
      → 8 < length (trim_space k')
      → take 4 (trim_space k) ≡ take 4 (trim_space k')
      → last_four (trim_space k) ≡ last_four (trim_space k')
      → transform_to_ego_event now (record rec { api_key = k })
        ≡ transform_to_ego_event now (record rec { api_key = k' })
  unfolding transform_to_ego_event provider_name model_name event_total latency_millis tps_sample
  transform_to_ego_event_masks_key now rec k k' h h' front back = rw (
      account_name_same rec k k' (is_empty_of_long k h) (is_empty_of_long k' h')
        (mask_key_same (trim_space k) (trim_space k') h h' front back))
