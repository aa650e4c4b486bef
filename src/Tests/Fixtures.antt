-- ===== src/Tests/Fixtures.antt =====
-- Values for the parameters of the model, and sample records.
use cli_control_account.Base.{
  none, ℕ, ◌+◌, ◌*◌, ◌/◌, ◌≤◌, ◌≡◌, refl, [], ◌∷◌, true, false, some, arith, ltb, ◌==◌,
}
use native.Mathlib.Nat.{mul-le-mul_right}
use cli_control_account.Base.Int.{ℤ, pos, pos_part, ◌≤ℤ◌}
use cli_control_account.Text.{Text, text, eq_text, Unicode}
use cli_control_account.Float.{Float, FloatLaws, ExactFloat}
use cli_control_account.Ego.Worker.{Worker, running}
use cli_control_account.Ego.Handler.{Env}
use cli_control_account.Ego.Pricing.{ModelPricing}
use cli_control_account.Ego.Events.{RawUsageDetail, RawUsageRecord, EgoEvent}
use cli_control_account.Ego.Storage.Engine.{Faults, Db, Storage}
use cli_control_account.Ego.Storage.Open.{System}

-- Tables that leave every text that is not ASCII alone.
instance abbrev pub plain_unicode : Unicode
plain_unicode = record { lower = λ s. s; trim = λ s. s; fold_eq = eq_text; fields = λ s. s ∷ [] }

-- Whole numbers in the place of floats.
instance abbrev pub whole_float : Float ℕ
whole_float = record {
  of_int = pos_part;
  five_quarters = 1;
  add = λ a b. a + b;
  mul = λ a b. a * b;
  div = λ a b. a / b;
  lt = ltb;
  eq = λ a b. a == b;
  round = λ a. a;
}

whole_le_refl : (a : ℕ) → ltb a a ≡ false
whole_le_refl a = ground arith

whole_add_mono : (a b c d : ℕ) → ltb b a ≡ false → ltb d c ≡ false → ltb (b + d) (a + c) ≡ false
whole_add_mono a b c d h k = ground arith

pos_part_mono : (m n : ℤ) → m ≤ℤ n → pos_part m ≤ pos_part n
pos_part_mono m n h = ground arith

whole_of_int_mono : (m n : ℤ) → m ≤ℤ n → ltb (pos_part n) (pos_part m) ≡ false
whole_of_int_mono m n h = ground (arith, pos_part_mono m n h)

whole_mul_mono :
    (m n : ℤ) (r : ℕ) → ltb r 0 ≡ false → m ≤ℤ n → ltb (pos_part n * r) (pos_part m * r) ≡ false
whole_mul_mono m n r h k =
    let le : pos_part m ≤ pos_part n = pos_part_mono m n k in ground (arith, mul-le-mul_right r le)

pub whole_laws : FloatLaws whole_float
whole_laws = record {
  le_refl = whole_le_refl;
  of_int_mono = whole_of_int_mono;
  add_mono = whole_add_mono;
  mul_mono = whole_mul_mono;
}

pub whole_exact : ExactFloat whole_float
whole_exact = record {
  of_int_inj = λ m n h k e. e;
  one_ne_zero = refl;
  mul_one = λ n h. ground arith;
  add_exact = λ m n h. refl;
}

abbrev pub price : Text → ℕ → ℕ → ModelPricing ℕ
price name input output = record {
  model = name;
  input_cost_per_token = input;
  output_cost_per_token = output;
  cache_read_input_token_cost = 0;
  cache_creation_input_token_cost = 0;
  updated_at = pos 0;
}

abbrev pub no_tokens : RawUsageDetail
no_tokens = record {
  input_tokens = pos 0;
  output_tokens = pos 0;
  reasoning_tokens = pos 0;
  cached_tokens = pos 0;
  cache_read_tokens = pos 0;
  cache_creation_tokens = pos 0;
  total_tokens = pos 0;
}

-- A successful stream: 100 prompt and 40 output tokens, first token after 1 s, done after 3 s.
abbrev pub claude_usage : RawUsageRecord
claude_usage = record {
  provider = text " Claude ";
  executor_type = text "claude";
  model = text "claude-opus";
  alias = [];
  api_key = text "sk-abcdefgh-1234";
  session_id = [];
  parent_session_id = [];
  auth_id = [];
  auth_index = [];
  auth_type = [];
  source = [];
  reasoning_effort = [];
  service_tier = [];
  generate = true;
  stream = true;
  requested_at = pos 1000;
  latency = pos 3_000_000_000;
  ttft = pos 1_000_000_000;
  failed = false;
  detail = record no_tokens { input_tokens = pos 100; output_tokens = pos 40 };
}

abbrev pub event_at : ℕ → EgoEvent
event_at ts = record {
  id = pos 0;
  timestamp = pos ts;
  provider = text "openai";
  model = text "gpt-4o";
  account = text "account";
  prompt_tokens = pos 3;
  completion_tokens = pos 2;
  reasoning_tokens = pos 0;
  cached_tokens = pos 0;
  cache_creation_tokens = pos 0;
  total_tokens = pos 5;
  latency_ms = pos 10;
  status = text "success";
  ttft_ms = pos 0;
  stream = false;
  gen_tokens = pos 0;
  gen_ms = pos 0;
}

abbrev pub no_faults : Faults
no_faults c = false

abbrev pub all_faults : Faults
all_faults c = true

abbrev pub two_events : Db ℕ
two_events = record {
  events = event_at 5 ∷ event_at 9 ∷ [];
  next_id = 3;
  config = [];
  pricing = [];
  closed = false;
}

abbrev pub storage_of : Db ℕ → Storage ℕ
storage_of db = record { db = some db; db_path = text "ego.db"; pricing_cache = [] }

abbrev pub system_of : Db ℕ → System ℕ
system_of db = record {
  ego_db_path = [];
  plugins_is_dir = true;
  mkdir_fails = λ p. false;
  open_source = λ dsn. some db;
  memory_name = text "1";
}

-- The environment of a handler, at a time of one million.
abbrev pub plain_env : Env
plain_env = record {
  now = pos 1_000_000;
  days_ago = λ n. pos 0;
  stat = λ p. some 4096;
  sql = record {
    strftime = λ format seconds. format;
    to_integer = λ t. pos 7;
    two_digits = λ n. text "05";
    integer_text = λ n. text "0";
  };
  faults = no_faults;
  cost_faults = no_faults;
  decode_enabled = λ body. some none;
  decode_days = λ body. pos 0;
}

abbrev pub idle : Worker ℕ
idle = record {
  storage = some (storage_of two_events);
  queue = [];
  capacity = 2;
  batch = [];
  batch_size = 2;
  enabled = true;
  stopping = false;
  phase = running;
}
