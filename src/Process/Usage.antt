-- ===== src/Process/Usage.antt =====
-- From a usage record of the host to the stored event, over the C interface of main.go.
use cli_control_account.Base.{
  ℕ, ◌<◌, ◌^◌, ◌%◌, ◌≡◌, refl, ◌∙◌, ap, List, [], ◌∷◌, ◌++◌, true, false, Option, none, some, arith,
  is_empty, length, take, map, ltb, not, ◌||◌, Bool-cases, Option-cases, inl, inr,
}
use cli_control_account.Text.{Text, text, eq_text, Unicode}
use cli_control_account.Float.{Float}
use cli_control_account.Ego.Events.{RawUsageRecord, EgoEvent, transform_to_ego_event}
use cli_control_account.Ego.Storage.Engine.{Faults, Storage}
use cli_control_account.Ego.Storage.Atomic.{NoFaults}
use cli_control_account.Ego.Storage.Config.{events_of}
use cli_control_account.Ego.Worker.{
  Worker, running, enqueue, record_usage, stop, shutdown_worker, Reach, here, next, recorded,
}
use cli_control_account.Ego.Worker.Runs.{content, phase-enqueue}
use cli_control_account.Ego.Worker.Ledger.{IsLive, ledger, enqueue-IsLive, ledger-enqueue}
use cli_control_account.Ego.Worker.Drain.{stop_stores_all}
use cli_control_account.Plugin.{handle_plugin_method, recorded_ok}
use cli_control_account.Process.{
  go_bytes, starts_worker, handle_call, finish_call, call_on, plugin_call, plugin_shutdown, Process,
  ProcessEnv, write_response, clear_response, Memory,
}

ltb-true : {a b : ℕ} → a < b → ltb a b ≡ true
ltb-true h = ground arith

take_all : (s : Text) → take (length s) s ≡ s
take_all [] = refl
take_all (c ∷ s) = ap (λ r. c ∷ r) (take_all s)

-- A request of less than 2^31 bytes arrives whole.
go_bytes_whole : (request : Text) → length request < 2 ^ 31 → go_bytes (some request) ≡ some request
unfolding go_bytes
go_bytes_whole request h =
    let small : length request % 2 ^ 32 ≡ length request = omega (arith, h) in
    rw (small, ltb-true h, take_all request) refl

abbrev pub usage : Text
usage = text "usage.handle"

module _ {F : Type 0} ⦃fl : Float F⦄ ⦃u : Unicode⦄ (c : ProcessEnv F) where
  usage_call :
      (request : Text) (w : Worker F)
      → handle_call c usage request (some w)
        ≡ (recorded_ok, some (record_usage c.plugin.unmarshal_usage c.plugin.env.now request w))
  unfolding handle_call handle_plugin_method starts_worker eq_text
  usage_call request w = refl

  call_on-usage :
      (request raw : Text) (m : Memory) (p : Process F) (w : Worker F)
      → p.worker ≡ some w
      → c.marshal recorded_ok ≡ some raw
      → call_on c usage m p (some request) ≡ (
        0,
        record p {
          worker = some (record_usage c.plugin.unmarshal_usage c.plugin.env.now request w);
          memory = write_response raw m;
        },
      )
  unfolding finish_call
  call_on-usage request raw m p w e h =
      rw (ap (handle_call c usage request) e ∙ usage_call request w, h) refl

  -- A usage call of a process with a worker, as the host sees it.
  plugin_call-usage :
      (request raw : Text) (p : Process F) (w : Worker F)
      → p.worker ≡ some w
      → length request < 2 ^ 31
      → c.marshal recorded_ok ≡ some raw
      → plugin_call c (some usage) (some request) p ≡ (
        0,
        record p {
          worker = some (record_usage c.plugin.unmarshal_usage c.plugin.env.now request w);
          memory = write_response raw (clear_response p.memory);
        },
      )
  unfolding plugin_call
  plugin_call-usage request raw p w e h m =
      ap (call_on c usage (clear_response p.memory) p) (go_bytes_whole request h)
      ∙ call_on-usage request raw (clear_response p.memory) p w e m

  abbrev pub now_event : RawUsageRecord → EgoEvent
  now_event rec = transform_to_ego_event c.plugin.env.now rec

  record_usage_sends :
      (request : Text) (rec : RawUsageRecord) (w : Worker F)
      → w.enabled ≡ true
      → is_empty request ≡ false
      → c.plugin.unmarshal_usage request ≡ some rec
      → record_usage c.plugin.unmarshal_usage c.plugin.env.now request w ≡ enqueue (now_event rec) w
  unfolding record_usage
  record_usage_sends request rec w on full parsed = ground arith

  pub record_usage-Reach :
      (faults : Faults) (request : Text) (w : Worker F)
      → Reach faults w (record_usage c.plugin.unmarshal_usage c.plugin.env.now request w)
  unfolding record_usage
  record_usage-Reach faults request w = elim (Bool-cases (not w.enabled || is_empty request)) [
    | inl ignored ↦ simp ignored here
    | inr taken ↦ elim (Option-cases (c.plugin.unmarshal_usage request)) [
      | inl bad ↦ simp (taken, bad) here
      | inr (rec, good) ↦
          simp (taken, good) (next here (recorded (now_event rec) (ground arith) refl))
    ]
  ]

  -- A worker that takes events: its loop runs, it is enabled, its queue has room and its database
  -- is open.
  pub record IsReady (w : Worker F) : Type 0 where
    pub runs : w.phase ≡ running
    pub fresh : w.stopping ≡ false
    pub on : w.enabled ≡ true
    pub room : length w.queue < w.capacity
    pub live : IsLive w.storage

  abbrev pub storage_of : Option (Worker F) → Option (Storage F)
  storage_of none = none
  storage_of (some w) = w.storage

  stopping-enqueue : (e : EgoEvent) (w : Worker F) → (enqueue e w).stopping ≡ w.stopping
  unfolding enqueue
  stopping-enqueue e w = ground arith

  -- The contents of the events in the database of a process.
  abbrev pub stored_by : Process F → List EgoEvent
  stored_by p = map content (events_of (storage_of p.worker))

  stop_stores_sent :
      (e : EgoEvent) (w : Worker F)
      → IsReady w
      → NoFaults c.plugin.env.faults
      → map content (events_of (stop c.plugin.env.faults (enqueue e w)).storage)
        ≡ ledger w ++ content e ∷ []
  stop_stores_sent e w ready quiet =
      let faults = c.plugin.env.faults in
      let (run, drained, all) =
        stop_stores_all faults quiet (enqueue e w) (phase-enqueue faults e w ∙ ready.runs)
          (stopping-enqueue e w ∙ ready.fresh) (enqueue-IsLive faults quiet e w ready.live) in
      all ∙ (ledger-enqueue faults quiet e w ∙ rw (ltb-true ready.room) refl)

  -- While the worker takes events and the calls of the database succeed, a usage record that the
  -- host hands over is answered with 0, and after the host's shutdown its event is in the database,
  -- once, after every event that was accepted before it.
  pub usage_event_stored :
      (request raw : Text) (rec : RawUsageRecord) (p : Process F) (w : Worker F)
      → p.worker ≡ some w
      → IsReady w
      → NoFaults c.plugin.env.faults
      → length request < 2 ^ 31
      → is_empty request ≡ false
      → c.plugin.unmarshal_usage request ≡ some rec
      → c.marshal recorded_ok ≡ some raw
      → ((plugin_call c (some usage) (some request) p).0 ≡ 0)
        × (stored_by (plugin_shutdown c (plugin_call c (some usage) (some request) p).1)
            ≡ ledger w ++ content (now_event rec) ∷ [])
  unfolding plugin_shutdown shutdown_worker
  usage_event_stored request raw rec p w e ready quiet small full parsed m =
      let called = plugin_call-usage request raw p w e small m in
      (
        ap (λ r. r.0) called,
        ap (λ r. stored_by (plugin_shutdown c r.1)) called
            ∙ (ap (λ v. map content (events_of (stop c.plugin.env.faults v).storage))
                  (record_usage_sends request rec w ready.on full parsed)
                ∙ stop_stores_sent (now_event rec) w ready quiet),
      )
