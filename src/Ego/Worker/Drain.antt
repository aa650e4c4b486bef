-- ===== src/Ego/Worker/Drain.antt =====
-- Stopping the worker of internal/ego/worker.go.
use cli_control_account.Base.{
  ◌≡◌, refl, ap, ◌∙◌, List, [], ◌∷◌, map, true, false, Option, none, some, arith, append-nil,
}
use cli_control_account.Ego.Events.{EgoEvent}
use cli_control_account.Ego.Storage.Engine.{Faults, Storage}
use cli_control_account.Ego.Storage.Rows.{close}
use cli_control_account.Ego.Storage.Config.{events_of}
use cli_control_account.Ego.Storage.Atomic.{NoFaults}
use cli_control_account.Ego.Worker.{
  Worker, running, draining, exited, flush, receive, finish, drain_from, drain, stop, stop_seen,
  drained, finished, Reach, here, next,
}
use cli_control_account.Ego.Worker.Runs.{
  content, Reach-trans, phase-receive, queue-receive, queue-flush,
}
use cli_control_account.Ego.Worker.Ledger.{
  IsLive, ledger, ledger-flush, flush-IsLive, receive-IsLive, ledger-receive,
}

module _ {F : Type 0} (faults : Faults) where
  batch-flush : (w : Worker F) → (flush faults w).batch ≡ []
  unfolding flush
  batch-flush w = ground arith

  drain_from-Reach :
      (q : List EgoEvent) (w : Worker F)
      → w.phase ≡ draining
      → w.queue ≡ q
      → Reach faults w (drain_from faults q w)
  unfolding drain_from
  drain_from-Reach [] w p e = next here (finished p e refl)
  drain_from-Reach (x ∷ rest) w p e = Reach-trans (next here (drained x rest p e refl)) (
      drain_from-Reach rest (receive faults x rest w) (phase-receive faults x rest w ∙ p)
        (queue-receive faults x rest w))

  drain-Reach :
      (w : Worker F) → w.phase ≡ running → w.stopping ≡ true → Reach faults w (drain faults w)
  unfolding drain
  drain-Reach w p s =
      Reach-trans (next here (stop_seen p s refl))
        (drain_from-Reach w.queue (record w { phase = draining }) refl refl)

  -- The drained worker: the loop has returned, with nothing in its queue and batch.
  pub record IsDrained (w : Worker F) : Type 0 where
    pub returned : w.phase ≡ exited
    pub no_queue : w.queue ≡ []
    pub no_batch : w.batch ≡ []

  drain_from-IsDrained :
      (q : List EgoEvent) (w : Worker F) → w.queue ≡ q → IsDrained (drain_from faults q w)
  unfolding drain_from finish
  drain_from-IsDrained [] w e = record {
    returned = refl;
    no_queue = queue-flush faults w ∙ e;
    no_batch = batch-flush w;
  }
  drain_from-IsDrained (x ∷ rest) w e =
      drain_from-IsDrained rest (receive faults x rest w) (queue-receive faults x rest w)

  module _ (quiet : NoFaults faults) where
    ledger-drain_from :
        (q : List EgoEvent) (w : Worker F)
        → IsLive w.storage
        → w.queue ≡ q
        → ledger (drain_from faults q w) ≡ ledger w
    unfolding drain_from finish
    ledger-drain_from [] w v e = ledger-flush faults quiet w v
    ledger-drain_from (x ∷ rest) w v e =
        ledger-drain_from rest (receive faults x rest w) (receive-IsLive faults quiet x rest w v)
          (queue-receive faults x rest w)
        ∙ ledger-receive faults quiet x rest w v e

    drain_from-IsLive :
        (q : List EgoEvent) (w : Worker F)
        → IsLive w.storage
        → IsLive (drain_from faults q w).storage
    unfolding drain_from finish
    drain_from-IsLive [] w v = flush-IsLive faults quiet w v
    drain_from-IsLive (x ∷ rest) w v =
        drain_from-IsLive rest (receive faults x rest w) (receive-IsLive faults quiet x rest w v)

events_of-close : {F : Type 0} (p : Option (Storage F)) → events_of (close p) ≡ events_of p
unfolding close
events_of-close none = refl
events_of-close (some s) = ground arith

module _ {F : Type 0} (faults : Faults) where
  drain-IsDrained : (w : Worker F) → IsDrained faults (drain faults w)
  unfolding drain
  drain-IsDrained w = drain_from-IsDrained faults w.queue (record w { phase = draining }) refl

  contents_of_IsDrained :
      (w : Worker F) → IsDrained faults w → map content (events_of w.storage) ≡ ledger w
  contents_of_IsDrained w d =
      ground (arith, d.no_queue, d.no_batch, append-nil (map content (events_of w.storage)))

  -- Stop of a worker that is not stopping yet.
  abbrev pub drained_by_stop : Worker F → Worker F
  drained_by_stop w = drain faults (record w { stopping = true })

  pub stop_eq :
      (w : Worker F)
      → w.stopping ≡ false
      → stop faults w ≡ record (drained_by_stop w) { storage = close (drained_by_stop w).storage }
  unfolding stop
  stop_eq w fresh = ground arith

  pub stop-IsDrained : (w : Worker F) → w.stopping ≡ false → IsDrained faults (stop faults w)
  stop-IsDrained w fresh =
      let d = drain-IsDrained (record w { stopping = true }) in
      rw (stop_eq w fresh)
        (record { returned = d.returned; no_queue = d.no_queue; no_batch = d.no_batch })

  module _ (quiet : NoFaults faults) where
    ledger-drain : (w : Worker F) → IsLive w.storage → ledger (drain faults w) ≡ ledger w
    unfolding drain
    ledger-drain w live =
        ledger-drain_from faults quiet w.queue (record w { phase = draining }) live refl

    -- The drain that Stop waits for is a run of the loop from the moment when it sees the stop; and,
    -- over an open database whose calls succeed, after Stop the loop has returned with an empty
    -- queue and batch, and every event that was stored, in the batch or in the queue is in the
    -- database, in this order.
    pub stop_stores_all :
        (w : Worker F)
        → w.phase ≡ running
        → w.stopping ≡ false
        → IsLive w.storage
        → Reach faults (record w { stopping = true }) (drain faults (record w { stopping = true }))
          × IsDrained faults (stop faults w)
          × (map content (events_of (stop faults w).storage) ≡ ledger w)
    stop_stores_all w runs fresh live = (
      drain-Reach faults (record w { stopping = true }) runs refl,
      stop-IsDrained w fresh,
      ap (λ v. map content (events_of v.storage)) (stop_eq w fresh)
          ∙ (ap (map content) (events_of-close (drained_by_stop w).storage)
              ∙ (contents_of_IsDrained (drained_by_stop w) (drain-IsDrained _)
                  ∙ ledger-drain (record w { stopping = true }) live)),
    )
