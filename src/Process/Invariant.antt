-- ===== src/Process/Invariant.antt =====
-- Every process that the host can bring about is sound: main.go over internal/ego.
use cli_control_account.Base.{
  ℕ, ◌≡◌, refl, sym, subst, ◌∙◌, List, [], Option, none, some, arith, Bool-cases, inl, inr,
}
use cli_control_account.Base.Int.{ℤ}
use cli_control_account.Text.{Text, text, Unicode}
use cli_control_account.Float.{Float}
use cli_control_account.Ego.Pricing.{ModelPricing}
use cli_control_account.Ego.Storage.Engine.{Faults, Result, ok, err, Storage}
use cli_control_account.Ego.Storage.Open.{open_storage, System}
use cli_control_account.Ego.Storage.Prices.{source_from}
use cli_control_account.Ego.Storage.Rates.{
  IsVerified, IsVerified-nil, IsPinned, open_storage-IsPinned,
}
use cli_control_account.Ego.Worker.{Worker, Step, get_worker, or_memory, shutdown_worker}
use cli_control_account.Process.{
  Buffer, Memory, Process, ProcessEnv, PluginApi, clear_response, plugin_free, plugin_init,
  plugin_call, plugin_shutdown, handle_call, call_on, current, starts_worker, go_bytes,
}
use cli_control_account.Process.Sound.{
  cache_of, IsSound, Step-IsSound, stop-IsSound, set_enabled-IsSound, new_worker-IsSound,
}
use cli_control_account.Process.Handled.{handle_plugin_method-IsKept}

module _ {F : Type 0} ⦃fl : Float F⦄ ⦃u : Unicode⦄ where
  -- The storages of GetWorker are what OpenStorage gives for the embedded list, each opened at its
  -- own time and with its own failures.
  pub record IsOpening (models : List (ModelPricing F)) (c : ProcessEnv F) : Type 0 where
    pub disk_now : ℤ
    pub disk_faults : Faults
    pub disk_system : System F
    pub memory_now : ℤ
    pub memory_faults : Faults
    pub memory_system : System F
    pub on_disk : c.disk ≡ open_storage disk_now disk_faults (some models) disk_system []
    pub in_memory :
        c.in_memory
        ≡ open_storage memory_now memory_faults (some models) memory_system (text ":memory:")

  -- The host passes a buffer, or none.
  abbrev pub passing : Option Buffer → Process F → Process F
  passing buffer p = record p { memory = record p.memory { response = buffer } }

  -- One step of a process: a call of the host, a step of the loop of its worker, the host's free of
  -- a pointer, a shutdown, or another initialisation. Every step has an environment of its own: the
  -- clock, the failures of the database, what the storages are opened to, the decoders and the
  -- files.
  pub data Move (models : List (ModelPricing F)) (p p' : Process F) : Type 0 where
    called :
        (c : ProcessEnv F)
        → IsOpening models c
        → (buffer : Option Buffer) (method request : Option Text)
        → p' ≡ (plugin_call c method request (passing buffer p)).1
        → Move models p p'
    looped :
        (faults : Faults) (w w' : Worker F)
        → p.worker ≡ some w
        → Step faults w w'
        → p' ≡ record p { worker = some w' }
        → Move models p p'
    freed :
        (ptr : Option ℕ) → p' ≡ record p { memory = plugin_free ptr p.memory } → Move models p p'
    shut_down : (c : ProcessEnv F) → p' ≡ plugin_shutdown c p → Move models p p'
    initialised :
        (host : Option ℕ) (api : Option PluginApi)
        → p' ≡ (plugin_init host api p).2
        → Move models p p'

  pub data Run (models : List (ModelPricing F)) (p : Process F) : Process F → Type 0 where
    start : Run models p p
    then_move : {q r : Process F} → Run models p q → Move models q r → Run models p r

  module _ (models : List (ModelPricing F)) where
    -- The worker, if it was started, is sound.
    pub record IsSoundWorker (o : Option (Worker F)) : Type 0 where
      pub at : (w : Worker F) → o ≡ some w → IsSound models w

    IsSoundWorker-some : (w : Worker F) → IsSound models w → IsSoundWorker (some w)
    IsSoundWorker-some w v = record {
      at = λ w' e. let same : w ≡ w' = ground arith in subst (IsSound models) same v;
    }

    -- The process has no worker, or a sound one.
    abbrev pub IsSoundProcess : Process F → Type 0
    IsSoundProcess p = IsSoundWorker p.worker

  module _ (models : List (ModelPricing F)) (c : ProcessEnv F) where
    opened_by :
        (d m : Result (Storage F))
        → ((s : Storage F) → d ≡ ok s → IsPinned models (some s))
        → ((s : Storage F) → m ≡ ok s → IsPinned models (some s))
        → IsVerified (source_from [] models) (cache_of (or_memory d m))
    opened_by (ok s) m h k = h s refl
    opened_by (err e) (ok s) h k = k s refl
    opened_by (err e) (err e') h k = IsVerified-nil (source_from [] models)

    opened_cache :
        (o : IsOpening models c)
        → IsVerified (source_from [] models) (cache_of (or_memory c.disk c.in_memory))
    opened_cache o =
        opened_by c.disk c.in_memory
          (λ s e.
            open_storage-IsPinned models o.disk_now o.disk_faults o.disk_system [] s
              (sym o.on_disk ∙ e))
          (λ s e.
            open_storage-IsPinned models o.memory_now o.memory_faults o.memory_system
              (text ":memory:") s (sym o.in_memory ∙ e))

    get_worker-IsSound :
        IsOpening models c → IsSound models (get_worker c.plugin.env.faults c.disk c.in_memory)
    unfolding get_worker
    get_worker-IsSound o = set_enabled-IsSound models c.plugin.env.faults _ _ (
        new_worker-IsSound models (or_memory c.disk c.in_memory) 2048 50 (omega arith)
          (opened_cache o))

    current-IsSound :
        IsOpening models c
        → (o : Option (Worker F)) → IsSoundWorker models o
        → IsSound models (current c o)
    current-IsSound o none v = get_worker-IsSound o
    current-IsSound o (some w) v = v.at w refl

    handle_call-IsSoundWorker :
        IsOpening models c
        → (method request : Text) (o : Option (Worker F)) → IsSoundWorker models o
        → IsSoundWorker models (handle_call c method request o).1
    unfolding handle_call
    handle_call-IsSoundWorker opening method request o v =
        elim (Bool-cases (starts_worker c.plugin method request)) [
          | inl starts ↦
              rw (starts, handle_call)
                (IsSoundWorker-some models _ (
                  handle_plugin_method-IsKept models c.plugin (current c o) method request
                    (current-IsSound opening o v)))
          | inr keeps ↦ rw (keeps, handle_call) v
        ]

    call_on-IsSoundWorker :
        IsOpening models c
        → (method : Text) (m : Memory) (p : Process F) (bytes : Option Text)
        → IsSoundWorker models p.worker
        → IsSoundWorker models (call_on c method m p bytes).1.worker
    call_on-IsSoundWorker opening method m p none v = v
    call_on-IsSoundWorker opening method m p (some bytes) v =
        handle_call-IsSoundWorker opening method bytes p.worker v

    plugin_call-IsSoundWorker :
        IsOpening models c
        → (method request : Option Text) (p : Process F) → IsSoundWorker models p.worker
        → IsSoundWorker models (plugin_call c method request p).1.worker
    unfolding plugin_call
    plugin_call-IsSoundWorker opening none request p v = v
    plugin_call-IsSoundWorker opening (some method) request p v =
        call_on-IsSoundWorker opening method (clear_response p.memory) p (go_bytes request) v

    shutdown-IsSoundWorker :
        (o : Option (Worker F))
        → IsSoundWorker models o
        → IsSoundWorker models (shutdown_worker c.plugin.env.faults o)
    unfolding shutdown_worker
    shutdown-IsSoundWorker none v = v
    shutdown-IsSoundWorker (some w) v =
        IsSoundWorker-some models _ (stop-IsSound models c.plugin.env.faults w (v.at w refl))

  module _ (models : List (ModelPricing F)) where
    plugin_init_keeps :
        (host : Option ℕ) (api : Option PluginApi) (p : Process F)
        → (plugin_init host api p).2.worker ≡ p.worker
    unfolding plugin_init
    plugin_init_keeps host none p = refl
    plugin_init_keeps host (some api) p = refl

    Move-IsSoundProcess :
        {p p' : Process F} → Move models p p' → IsSoundProcess models p → IsSoundProcess models p'
    Move-IsSoundProcess {p} (called c opening buffer method request eq) v =
        subst (IsSoundProcess models) (sym eq)
          (plugin_call-IsSoundWorker models c opening method request (passing buffer p) v)
    Move-IsSoundProcess {p} (looped faults w w' at st eq) v =
        subst (IsSoundProcess models) (sym eq)
          (IsSoundWorker-some models w' (Step-IsSound models st (v.at w at)))
    Move-IsSoundProcess {p} (freed ptr eq) v = subst (IsSoundProcess models) (sym eq) v
    Move-IsSoundProcess {p} (shut_down c eq) v =
        subst (IsSoundProcess models) (sym eq)
          (unfold plugin_shutdown in shutdown-IsSoundWorker models c p.worker v)
    Move-IsSoundProcess {p} (initialised host api eq) v =
        subst (IsSoundProcess models) (sym eq)
          (subst (IsSoundWorker models) (sym (plugin_init_keeps host api p)) v)

    -- Whatever the host calls, with whatever requests and buffers, between whatever steps of the
    -- loop, frees, shutdowns and initialisations, where each of these has its own clock and its own
    -- set of kinds of calls of the database that fail during it, and the storages for the worker are
    -- opened with the embedded list: from a process without a worker or with a sound
    -- one, every process that is reached has no worker or a sound one. Its queue is within its
    -- capacity and its batch below its size, and every price that its storage exposes is one of the
    -- embedded list.
    pub Run-IsSoundProcess :
        {p q : Process F} → Run models p q → IsSoundProcess models p → IsSoundProcess models q
    Run-IsSoundProcess start v = v
    Run-IsSoundProcess (then_move r m) v = Move-IsSoundProcess m (Run-IsSoundProcess r v)
