-- ===== src/Tests/Events.antt =====
-- `transformToEgoEvent` of internal/ego/worker.go at work.
use cli_control_account.Base.{◌≡◌, ◌≢◌, refl, true, arith}
use cli_control_account.Base.Int.{pos, ◌+ℤ◌, ◌-ℤ◌, quot}
use cli_control_account.Base.Word.{add64, sub64, wrap64}
use cli_control_account.Text.{
  text, to_lower, trim_space, eq_text, contains, has_prefix, remove_byte, trim_left, trim_right,
}
use cli_control_account.Ego.Pricing.{
  resolve_token_semantics, is_openai_compatible, is_claude, is_gemini,
}
use cli_control_account.Ego.Events.{
  RawUsageRecord, transform_to_ego_event, mask_key, account_name, provider_name, model_name,
  latency_millis, cached_reads, computed_total, tps_sample, event_total,
}
use cli_control_account.Ego.Pricing.Exact.{unit_rates}
use cli_control_account.Ego.Events.WellFormed.{IsWellFormed, transform_to_ego_event-IsWellFormed}
use cli_control_account.Ego.Events.Secrecy.{transform_to_ego_event_masks_key}
use cli_control_account.Ego.Events.Totals.{
  plain_detail, event_cost, total_tokens_billed, total_tokens_not_billed,
}
use cli_control_account.Tests.Fixtures.{plain_unicode, whole_float, whole_exact, claude_usage}

transformed : Unit {0}
unfolding wrap64 ◌+ℤ◌ ◌-ℤ◌ transform_to_ego_event mask_key account_name provider_name model_name
    latency_millis cached_reads computed_total tps_sample event_total resolve_token_semantics
    is_openai_compatible is_claude is_gemini to_lower trim_space trim_left trim_right contains
    has_prefix remove_byte eq_text quot add64 sub64
transformed = tt

claude_event_test : transform_to_ego_event (pos 7) claude_usage ≡ record {
  id = pos 0;
  timestamp = pos 1000;
  provider = text "claude";
  model = text "claude-opus";
  account = text "sk-a...1234";
  prompt_tokens = pos 100;
  completion_tokens = pos 40;
  reasoning_tokens = pos 0;
  cached_tokens = pos 0;
  cache_creation_tokens = pos 0;
  total_tokens = pos 140;
  latency_ms = pos 3000;
  status = text "success";
  ttft_ms = pos 1000;
  stream = true;
  gen_tokens = pos 40;
  gen_ms = pos 2000;
}
unfolding transformed
claude_event_test = refl

transform_to_ego_event-IsWellFormed_example :
    IsWellFormed (transform_to_ego_event (pos 7) claude_usage)
transform_to_ego_event-IsWellFormed_example =
    transform_to_ego_event-IsWellFormed (pos 7) claude_usage (omega arith)

transform_to_ego_event_masks_key_example :
    transform_to_ego_event (pos 7) (record claude_usage { api_key = text "sk-abcdefgh-1234" })
    ≡ transform_to_ego_event (pos 7) (record claude_usage { api_key = text " sk-axyz1234" })
unfolding transformed
transform_to_ego_event_masks_key_example =
    transform_to_ego_event_masks_key (pos 7) claude_usage (text "sk-abcdefgh-1234")
      (text " sk-axyz1234") (omega arith) (omega arith) refl refl

total_tokens_billed_example :
    let e =
      transform_to_ego_event
        (pos 7)
        (record claude_usage { detail = plain_detail 100 40 5 30 20 }) in
    (event_cost (unit_rates (text "claude-opus")) e).total ≡ whole_float.of_int e.total_tokens
unfolding transformed
total_tokens_billed_example =
    total_tokens_billed whole_exact (text "claude-opus") (pos 7) claude_usage 100 40 5 30 20
      (omega arith) refl (omega arith)

abbrev compatible_usage : RawUsageRecord
compatible_usage = record claude_usage { executor_type = text "openai-compat" }

total_tokens_not_billed_example :
    let e =
      transform_to_ego_event
        (pos 7)
        (record compatible_usage { detail = plain_detail 100 40 5 30 20 }) in
    (event_cost (unit_rates (text "claude-opus")) e).total ≢ whole_float.of_int e.total_tokens
unfolding transformed
total_tokens_not_billed_example =
    total_tokens_not_billed whole_exact (text "claude-opus") (pos 7) compatible_usage 100 40 5 30 20
      (omega arith) refl refl (omega arith) (omega arith)
