-- ===== src/Process.antt =====
-- The C interface of main.go: the host calls it with pointers, and one process has one worker.
pub mod Buffers
pub mod Usage
pub mod Sound
pub mod Handled
pub mod Invariant
use cli_control_account.Base.{
  ℕ, suc, ◌%◌, ◌^◌, List, [], ◌∷◌, Bool, true, false, ◌&&◌, not, ◌==◌, Option, none, some, ltb,
  if◌then◌else◌, is_empty, length, take, keep,
}
use cli_control_account.Text.{Text, text, eq_text, has_prefix, Unicode}
use cli_control_account.Float.{Float}
use cli_control_account.Ego.Storage.Engine.{Result, Storage}
use cli_control_account.Ego.Worker.{Worker, get_worker, shutdown_worker}
use cli_control_account.Plugin.{
  PluginEnv, ManagementRequest, Envelope, panicked, decoded, clean_path, is_endpoint,
  handle_plugin_method,
}

-- cliproxy_buffer; `none` is a nil pointer.
pub record Buffer : Type 0 where
  pub ptr : Option ℕ
  pub len : ℕ

-- The blocks that the plugin has allocated with their addresses, the address of the next one, and
-- the buffer of a call, `none` if the host passed no buffer.
pub record Memory : Type 0 where
  pub blocks : List (ℕ × Text)
  pub next : ℕ
  pub response : Option Buffer

-- `response.ptr = nil; response.len = 0`
unfoldable pub clear_response : Memory → Memory
clear_response m = elim m.response [
  | none ↦ m
  | some b ↦ record m { response = some (record { ptr = none; len = 0 }) }
]

-- C.CBytes never gives nil.
unfoldable pub write_response : Text → Memory → Memory
write_response raw m = elim m.response [
  | none ↦ m
  | some b ↦ if is_empty raw then m else record {
    blocks = (m.next, raw) ∷ m.blocks;
    next = suc m.next;
    response = some (record { ptr = some m.next; len = length raw });
  }
]

-- cliproxyPluginFree
unfoldable pub plugin_free : Option ℕ → Memory → Memory
plugin_free none m = m
plugin_free (some a) m = record m { blocks = keep (λ b. not (b.0 == a)) m.blocks }

-- The buffer that a call leaves behind.
abbrev pub pointer : Memory → Option ℕ
pointer m = elim m.response [ none ↦ none | some b ↦ b.ptr ]

-- The deferred function, before it writes: a buffer that was handed out is dropped.
unfoldable pub drop_buffer : Memory → Memory
unfolding plugin_free clear_response
drop_buffer m = elim (pointer m) [ none ↦ m | some a ↦ clear_response (plugin_free (some a) m) ]

-- C.GoBytes with the length as a C int: `none` is its panic on a negative length.
unfoldable pub go_bytes : Option Text → Option Text
go_bytes none = some []
go_bytes (some request) =
    let n = length request % 2 ^ 32 in if ltb n (2 ^ 31) then some (take n request) else none

-- The functions that the plugin gives to the host.
pub data Export : Type 0 where
  plugin_call_fn plugin_free_fn plugin_shutdown_fn : Export

pub record PluginApi : Type 0 where
  pub abi_version : ℕ
  pub call : Option Export
  pub free_buffer : Option Export
  pub shutdown : Option Export

-- globalWorker, stored_host and the memory
pub record Process (F : Type 0) : Type 0 where
  pub worker : Option (Worker F)
  pub host : Option ℕ
  pub memory : Memory

-- The results of opening the storage on disk and in memory, json.Marshal of an answer, `none` being
-- its error, and the bytes of an error envelope with the given code.
pub record ProcessEnv (F : Type 0) : Type 0 where
  pub plugin : PluginEnv
  pub disk : Result (Storage F)
  pub in_memory : Result (Storage F)
  pub marshal : Envelope F → Option Text
  pub error_bytes : Text → Text

module _ {F : Type 0} where
  -- cliproxy_plugin_init
  unfoldable pub plugin_init :
      Option ℕ → Option PluginApi → Process F → ℕ × Option PluginApi × Process F
  plugin_init host none p = (1, none, p)
  plugin_init host (some old) p = (
    0,
    some (record {
      abi_version = 1;
      call = some plugin_call_fn;
      free_buffer = some plugin_free_fn;
      shutdown = some plugin_shutdown_fn;
    }),
    record p { host = host },
  )

  -- cliproxyPluginShutdown
  unfoldable pub plugin_shutdown : ProcessEnv F → Process F → Process F
  unfolding shutdown_worker
  plugin_shutdown c p = record p { worker = shutdown_worker c.plugin.env.faults p.worker }

  abbrev pub current : ProcessEnv F → Option (Worker F) → Worker F
  current c none = get_worker c.plugin.env.faults c.disk c.in_memory
  current c (some w) = w

  abbrev pub is_panicked : Envelope F → Bool
  is_panicked panicked = true
  is_panicked _ = false

  -- The end of a call whose handler gave an envelope: the code for the host, and the memory.
  unfoldable pub finish_call : ProcessEnv F → Envelope F → Memory → ℕ × Memory
  unfolding write_response drop_buffer
  finish_call c envelope m =
      if is_panicked envelope
      then (1, write_response (c.error_bytes (text "plugin_panic")) (drop_buffer m))
      else elim (c.marshal envelope) [
        | none ↦ (1, write_response (c.error_bytes (text "plugin_error")) m)
        | some raw ↦ (0, write_response raw m)
      ]

-- Whether a management request comes to GetWorker.
abbrev pub is_api_request : Option ManagementRequest → Bool
is_api_request none = false
is_api_request (some req) =
    has_prefix req.path (text "/v0/management/ego") && is_endpoint (clean_path req.path)

-- Whether a call comes to GetWorker, which starts the worker on its first call.
unfoldable pub starts_worker : PluginEnv → Text → Text → Bool
unfolding clean_path is_endpoint
starts_worker p method request =
    if eq_text method (text "usage.handle")
    then true
    else eq_text method (text "management.handle")
      && is_api_request (decoded p.unmarshal_request request)

module _ {F : Type 0} ⦃fl : Float F⦄ ⦃u : Unicode⦄ where
  unfoldable pub handle_call :
      ProcessEnv F → Text → Text → Option (Worker F) → Envelope F × Option (Worker F)
  unfolding handle_plugin_method starts_worker
  handle_call c method request global =
      let (envelope, w) = handle_plugin_method c.plugin (current c global) method request in
      (envelope, if starts_worker c.plugin method request then some w else global)

  abbrev pub call_on : ProcessEnv F → Text → Memory → Process F → Option Text → ℕ × Process F
  call_on c method m p none =
      let (rc, after) = finish_call c panicked m in (rc, record p { memory = after })
  call_on c method m p (some bytes) =
      let (envelope, worker) = handle_call c method bytes p.worker in
      let (rc, after) = finish_call c envelope m in
      (rc, record p { worker = worker; memory = after })

  -- cliproxyPluginCall
  unfoldable pub plugin_call : ProcessEnv F → Option Text → Option Text → Process F → ℕ × Process F
  unfolding clear_response write_response handle_call finish_call go_bytes
  plugin_call c none request p = (
    1,
    record p {
      memory = write_response (c.error_bytes (text "invalid_method")) (clear_response p.memory);
    },
  )
  plugin_call c (some method) request p =
      call_on c method (clear_response p.memory) p (go_bytes request)
