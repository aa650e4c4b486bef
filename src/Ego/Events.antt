-- ===== src/Ego/Events.antt =====
-- The usage records and events of internal/ego/models.go, and `transformToEgoEvent` and
-- `tpsSample` of internal/ego/worker.go, which turn the one into the other. A point in time is its
-- count of milliseconds; the only other thing that the code asks of one is `now`, an argument.
pub mod WellFormed
pub mod Secrecy
pub mod Totals
use cli_control_account.Base.{
  ℕ, ◌-◌, ◌<◌, List, [], ◌∷◌, ◌++◌, Bool, true, false, not, ◌&&◌, ◌||◌, some, ltb, if◌then◌else◌,
  length, take, drop, is_empty,
}
use cli_control_account.Base.Int.{ℤ, pos, quot, ltb_ℤ, leb_ℤ, eqb_ℤ}
use cli_control_account.Base.Word.{add64, sub64}
use cli_control_account.Text.{Text, text, Unicode, to_lower, trim_space}
use cli_control_account.Ego.Pricing.{
  TokenAccountingSemantics, subset, independent, separate_reasoning, resolve_token_semantics,
}

pub record RawUsageDetail : Type 0 where
  pub input_tokens : ℤ
  pub output_tokens : ℤ
  pub reasoning_tokens : ℤ
  pub cached_tokens : ℤ
  pub cache_read_tokens : ℤ
  pub cache_creation_tokens : ℤ
  pub total_tokens : ℤ

-- The time to the first token and the latency are in nanoseconds.
pub record RawUsageRecord : Type 0 where
  pub provider : Text
  pub executor_type : Text
  pub model : Text
  pub alias : Text
  pub api_key : Text
  pub session_id : Text
  pub parent_session_id : Text
  pub auth_id : Text
  pub auth_index : Text
  pub auth_type : Text
  pub source : Text
  pub reasoning_effort : Text
  pub service_tier : Text
  pub generate : Bool
  pub stream : Bool
  pub requested_at : ℤ
  pub latency : ℤ
  pub ttft : ℤ
  pub failed : Bool
  pub detail : RawUsageDetail

pub record EgoEvent : Type 0 where
  pub id : ℤ
  pub timestamp : ℤ
  pub provider : Text
  pub model : Text
  pub account : Text
  pub prompt_tokens : ℤ
  pub completion_tokens : ℤ
  pub reasoning_tokens : ℤ
  pub cached_tokens : ℤ
  pub cache_creation_tokens : ℤ
  pub total_tokens : ℤ
  pub latency_ms : ℤ
  pub status : Text
  pub ttft_ms : ℤ
  pub stream : Bool
  pub gen_tokens : ℤ
  pub gen_ms : ℤ

-- if s == "" { s = d }
abbrev pub or_default : Text → Text → Text
or_default s d = if is_empty s then d else s

abbrev pub nanos_per_ms : ℕ
nanos_per_ms = 1_000_000

abbrev pub min_tps_tokens : ℤ
min_tps_tokens = pos 20

-- The account name of an API key that is trimmed.
unfoldable pub mask_key : Text → Text
mask_key key =
    if ltb 8 (length key)
    then take 4 key ++ (text "..." ++ drop (length key - 4) key)
    else text "api_key"

module _ ⦃u : Unicode⦄ where
  unfoldable pub account_name : RawUsageRecord → Text
  account_name rec =
      let by_id = trim_space rec.auth_id in
      let by_index = or_default by_id (trim_space rec.auth_index) in
      let by_key =
        if is_empty by_index && not (is_empty rec.api_key)
        then mask_key (trim_space rec.api_key)
        else by_index in
      or_default by_key (text "default")

  unfoldable pub provider_name : RawUsageRecord → Text
  provider_name rec = or_default (to_lower (trim_space rec.provider)) (text "unknown")

  unfoldable pub model_name : RawUsageRecord → Text
  model_name rec =
      or_default (or_default (trim_space rec.model) (trim_space rec.alias)) (text "unknown")

unfoldable pub latency_millis : RawUsageRecord → ℤ
latency_millis rec =
    let ms = quot rec.latency nanos_per_ms in
    if leb_ℤ ms (pos 0) && ltb_ℤ (pos 0) rec.ttft then quot rec.ttft nanos_per_ms else ms

-- The cache reads, or the legacy field where a provider fills only that.
unfoldable pub cached_reads : RawUsageDetail → ℤ
cached_reads d =
    if eqb_ℤ d.cache_read_tokens (pos 0) && not (eqb_ℤ d.cached_tokens d.cache_creation_tokens)
    then d.cached_tokens
    else d.cache_read_tokens

-- The total of a record that states none.
unfoldable pub computed_total : TokenAccountingSemantics → ℤ → ℤ → ℤ → ℤ → ℤ → ℤ
computed_total independent prompt completion reasoning cached cache_creation =
    add64 (add64 (add64 prompt cached) cache_creation) completion
computed_total separate_reasoning prompt completion reasoning cached cache_creation =
    add64 (add64 prompt completion) reasoning
computed_total subset prompt completion reasoning cached cache_creation =
    add64 prompt (if ltb_ℤ completion reasoning then reasoning else completion)

abbrev generated_tokens : TokenAccountingSemantics → RawUsageDetail → ℤ
generated_tokens separate_reasoning d = add64 d.output_tokens d.reasoning_tokens
generated_tokens _ d = d.output_tokens

module _ ⦃u : Unicode⦄ where
  unfoldable pub tps_sample : RawUsageRecord → Text → ℤ × ℤ
  tps_sample rec provider =
      let generated =
        generated_tokens (resolve_token_semantics provider (some rec.executor_type)) rec.detail in
      let gen_ms = quot (sub64 rec.latency rec.ttft) nanos_per_ms in
      if rec.failed || (not rec.stream || (leb_ℤ rec.ttft (pos 0) || leb_ℤ rec.latency rec.ttft))
      then (pos 0, pos 0)
      else if ltb_ℤ generated min_tps_tokens || leb_ℤ gen_ms (pos 0)
      then (pos 0, pos 0)
      else (generated, gen_ms)

  unfoldable pub event_total : RawUsageRecord → ℤ
  event_total rec =
      let d = rec.detail in
      if eqb_ℤ d.total_tokens (pos 0)
      then computed_total (resolve_token_semantics (provider_name rec) (some rec.executor_type))
          d.input_tokens d.output_tokens d.reasoning_tokens (cached_reads d) d.cache_creation_tokens
      else d.total_tokens

  -- `now` is the clock, time.Now().UnixMilli().
  unfoldable pub transform_to_ego_event : ℤ → RawUsageRecord → EgoEvent
  transform_to_ego_event now rec =
      let provider = provider_name rec in
      let ttft_ms = quot rec.ttft nanos_per_ms in
      record {
        id = pos 0;
        timestamp = if leb_ℤ rec.requested_at (pos 0) then now else rec.requested_at;
        provider = provider;
        model = model_name rec;
        account = account_name rec;
        prompt_tokens = rec.detail.input_tokens;
        completion_tokens = rec.detail.output_tokens;
        reasoning_tokens = rec.detail.reasoning_tokens;
        cached_tokens = cached_reads rec.detail;
        cache_creation_tokens = rec.detail.cache_creation_tokens;
        total_tokens = event_total rec;
        latency_ms = latency_millis rec;
        status = if rec.failed then text "failed" else text "success";
        ttft_ms = if ltb_ℤ ttft_ms (pos 0) then pos 0 else ttft_ms;
        stream = rec.stream;
        gen_tokens = (tps_sample rec provider).0;
        gen_ms = (tps_sample rec provider).1;
      }
