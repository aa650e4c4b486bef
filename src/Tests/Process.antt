-- ===== src/Tests/Process.antt =====
-- The C interface of main.go at work.
use cli_control_account.Base.{
  ℕ, ◌≤◌, ◌≡◌, refl, List, [], ◌∷◌, ◌++◌, true, Option, none, some, arith, All,
}
use cli_control_account.Text.{text}
use cli_control_account.Advertised.{api_routes}
use cli_control_account.Ego.Storage.Engine.{err, open_failed}
use cli_control_account.Ego.Worker.{Worker}
use cli_control_account.Ego.Worker.Runs.{content}
use cli_control_account.Ego.Worker.Ledger.{ledger}
use cli_control_account.Base.Int.{pos}
use cli_control_account.Ego.Pricing.{ModelPricing}
use cli_control_account.Ego.Storage.Open.{open_storage}
use cli_control_account.Plugin.{PluginEnv}
use cli_control_account.Plugin.Reachable.{IsRouteServed, api_routes_served}
use cli_control_account.Process.{
  Buffer, Memory, Process, ProcessEnv, PluginApi, pointer, plugin_call, plugin_free,
  plugin_shutdown,
}
use cli_control_account.Process.Buffers.{IsFresh, HandsOver, plugin_free-plugin_call}
use cli_control_account.Process.Usage.{usage, now_event, stored_by, usage_event_stored}
use cli_control_account.Process.Invariant.{
  Run, start, then_move, called, freed, shut_down, passing, IsOpening, IsSoundProcess,
  Run-IsSoundProcess,
}
use cli_control_account.Tests.Fixtures.{
  price, no_faults, system_of, plain_unicode, whole_float, idle, plain_env, claude_usage,
  storage_of, two_events,
}

-- A host whose usage records are all the same.
abbrev host : PluginEnv
host = record {
  env = plain_env;
  unmarshal_usage = λ s. some claude_usage;
  unmarshal_request = λ s. none;
  parse_odd = λ m t. none;
  read_file = λ p. none;
  mime_by_extension = λ e. [];
  version = text "0.7.0";
}

abbrev process_env : ProcessEnv ℕ
process_env = record {
  plugin = host;
  disk = err open_failed;
  in_memory = err open_failed;
  marshal = λ e. some (text "{}");
  error_bytes = λ code. text "{error}";
}

-- An earlier answer is still with the host.
abbrev held : Memory
held = record {
  blocks = (5, text "{}") ∷ [];
  next = 6;
  response = some (record { ptr = none; len = 0 });
}

abbrev started : Process ℕ
started = record { worker = some idle; host = some 1; memory = held }

api_routes_served_example : All (IsRouteServed host idle (λ k. []) []) api_routes
api_routes_served_example = api_routes_served host idle (λ k. []) []

plugin_free-plugin_call_example :
    let (rc, q) = plugin_call process_env (some usage) (some (text "{}")) started in
    (rc ≤ 1)
    × HandsOver held q.memory
    × ((plugin_free (pointer q.memory) q.memory).blocks ≡ held.blocks)
    × IsFresh q.memory
plugin_free-plugin_call_example =
    plugin_free-plugin_call process_env (some usage) (some (text "{}")) started (omega arith, tt)

usage_event_stored_example :
    ((plugin_call process_env (some usage) (some (text "{}")) started).0 ≡ 0)
    × (stored_by process_env (
          plugin_shutdown process_env
            (plugin_call process_env (some usage) (some (text "{}")) started).1)
        ≡ ledger idle ++ content (now_event process_env claude_usage) ∷ [])
usage_event_stored_example =
    usage_event_stored process_env (text "{}") (text "{}") claude_usage started idle refl
      (record {
        runs = refl;
        fresh = refl;
        on = refl;
        room = omega arith;
        live = (storage_of two_events, two_events, refl, refl, refl);
      })
      (λ call. refl) (omega arith) refl refl refl

abbrev unset : PluginApi
unset = record { abi_version = 0; call = none; free_buffer = none; shutdown = none }

abbrev price_list : List (ModelPricing ℕ)
price_list = price (text "gpt-4o") 2 8 ∷ []

-- The storages that GetWorker opens.
abbrev opening_env : ProcessEnv ℕ
opening_env = record process_env {
  disk = open_storage (pos 1) no_faults (some price_list) (system_of two_events) [];
  in_memory =
      open_storage (pos 1) no_faults (some price_list) (system_of two_events) (text ":memory:");
}

opening : IsOpening price_list opening_env
opening = record {
  disk_now = pos 1;
  disk_faults = no_faults;
  disk_system = system_of two_events;
  memory_now = pos 1;
  memory_faults = no_faults;
  memory_system = system_of two_events;
  on_disk = refl;
  in_memory = refl;
}

abbrev unstarted : Process ℕ
unstarted = record { worker = none; host = none; memory = held }

abbrev buffer : Option Buffer
buffer = some (record { ptr = none; len = 0 })

-- The first record starts the worker; the host then frees the answer and shuts the plugin down,
-- while every call of the database fails.
abbrev answered : Process ℕ
answered = (plugin_call opening_env (some usage) (some (text "{}")) (passing buffer unstarted)).1

abbrev freed_answer : Process ℕ
freed_answer = record answered { memory = plugin_free (pointer answered.memory) answered.memory }

abbrev failing_env : ProcessEnv ℕ
failing_env = record opening_env {
  plugin = record host { env = record plain_env { faults = λ c. true } };
}

whole_run : Run price_list unstarted (plugin_shutdown failing_env freed_answer)
whole_run =
    then_move
      (then_move
        (then_move start (called opening_env opening buffer (some usage) (some (text "{}")) refl))
        (freed (pointer answered.memory) refl))
      (shut_down failing_env refl)

unstarted-IsSoundProcess : IsSoundProcess price_list unstarted
unstarted-IsSoundProcess = record { at = λ w e. absurd (ground arith) }

Run-IsSoundProcess_example : IsSoundProcess price_list (plugin_shutdown failing_env freed_answer)
Run-IsSoundProcess_example = Run-IsSoundProcess price_list whole_run unstarted-IsSoundProcess
