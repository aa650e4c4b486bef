-- ===== src/Ego/Events/WellFormed.antt =====
-- What every stored event satisfies: `transformToEgoEvent` of internal/ego/worker.go.
use cli_control_account.Base.{◌≡◌, ◌≢◌, ◌⊎◌, [], true, arith}
use cli_control_account.Base.Int.{ℤ, pos, ◌≤ℤ◌}
use cli_control_account.Text.{text, Unicode}
use cli_control_account.Ego.Events.{
  RawUsageRecord, EgoEvent, min_tps_tokens, tps_sample, transform_to_ego_event, provider_name,
  model_name, account_name,
}

-- Eligible for the tokens-per-second average: a successful stream with enough tokens over some
-- time; all other events carry two zeros.
abbrev pub IsSample : EgoEvent → Type 0
IsSample e =
    ((e.gen_tokens ≡ pos 0) × (e.gen_ms ≡ pos 0))
    ⊎ ((min_tps_tokens ≤ℤ e.gen_tokens)
        × (pos 1 ≤ℤ e.gen_ms)
        × (e.stream ≡ true)
        × (e.status ≡ text "success"))

pub record IsWellFormed (e : EgoEvent) : Type 0 where
  pub has_provider : e.provider ≢ []
  pub has_model : e.model ≢ []
  pub has_account : e.account ≢ []
  pub has_time : pos 1 ≤ℤ e.timestamp
  pub has_status : (e.status ≡ text "success") ⊎ (e.status ≡ text "failed")
  pub has_ttft : pos 0 ≤ℤ e.ttft_ms
  pub is_sample : IsSample e

module _ ⦃u : Unicode⦄ where
  provider_name-ne-nil : (rec : RawUsageRecord) → provider_name rec ≢ []
  unfolding provider_name
  provider_name-ne-nil rec = ground arith

  model_name-ne-nil : (rec : RawUsageRecord) → model_name rec ≢ []
  unfolding model_name
  model_name-ne-nil rec = ground arith

  account_name-ne-nil : (rec : RawUsageRecord) → account_name rec ≢ []
  unfolding account_name
  account_name-ne-nil rec = ground arith

  sample-IsSample : (now : ℤ) (rec : RawUsageRecord) → IsSample (transform_to_ego_event now rec)
  unfolding transform_to_ego_event tps_sample
  sample-IsSample now rec = ground arith

  -- With a clock after the epoch, every event made of a usage record, whatever its fields, names a
  -- provider, a model and an account, has a positive time, one of the two statuses and a
  -- first-token time that is not negative, and is either a sample of at least 20 tokens over at
  -- least a millisecond of a successful stream, or no sample, with both fields zero.
  pub transform_to_ego_event-IsWellFormed :
      (now : ℤ) (rec : RawUsageRecord)
      → pos 1 ≤ℤ now
      → IsWellFormed (transform_to_ego_event now rec)
  unfolding transform_to_ego_event
  transform_to_ego_event-IsWellFormed now rec h = record {
    has_provider = provider_name-ne-nil rec;
    has_model = model_name-ne-nil rec;
    has_account = account_name-ne-nil rec;
    has_time = ground arith;
    has_status = ground arith;
    has_ttft = ground arith;
    is_sample = sample-IsSample now rec;
  }
