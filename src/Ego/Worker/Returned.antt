-- ===== src/Ego/Worker/Returned.antt =====
-- After the flush loop of internal/ego/worker.go has returned.
use cli_control_account.Base.{
  ◌≡◌, refl, ap, sym, ◌∙◌, List, [], ◌∷◌, ◌++◌, inr, inl, arith, length, Bool, map, append_assoc,
  append-nil, Bool-cases, ltb, Option,
}
use mathlib.Core.List.{map-append}
use cli_control_account.Ego.Events.{EgoEvent}
use cli_control_account.Ego.Storage.Engine.{Faults, Storage}
use cli_control_account.Ego.Storage.Rows.{set_config}
use cli_control_account.Ego.Storage.Config.{events_of}
use cli_control_account.Ego.Worker.{
  Worker, exited, set_enabled, enqueue, Step, recorded, toggled, received, ticked, stop_called,
  stop_seen, drained, finished, Reach, here, next, store_flag,
}
use cli_control_account.Ego.Worker.Runs.{
  content, sent, accepted, accepted_by, phase-enqueue, no_longer_running,
}

module _ {F : Type 0} where
  events_of-store_flag :
      (faults : Faults) (b : Bool) (p : Option (Storage F))
      → events_of (store_flag faults b p) ≡ events_of p
  unfolding set_config
  events_of-store_flag faults b p = ground arith

  contents-enqueue :
      (e : EgoEvent) (w : Worker F)
      → map content (enqueue e w).queue ≡ map content w.queue ++ sent e w
  unfolding enqueue
  contents-enqueue e w = elim (Bool-cases (ltb (length w.queue) w.capacity)) [
    | inl room ↦ rw (room, enqueue) (map-append content w.queue (e ∷ []))
    | inr full ↦ rw (full, enqueue) (sym (append-nil (map content w.queue)))
  ]

  storage-enqueue : (e : EgoEvent) (w : Worker F) → (enqueue e w).storage ≡ w.storage
  unfolding enqueue
  storage-enqueue e w = ground arith

  -- What holds between a worker whose loop has returned and a later one, with the events that were
  -- accepted between the two.
  pub record HasReturned (w w' : Worker F) (es : List EgoEvent) : Type 0 where
    pub still : w'.phase ≡ exited
    pub same_events : events_of w'.storage ≡ events_of w.storage
    pub queue_grows : map content w'.queue ≡ map content w.queue ++ es

  same_queue :
      {w w' : Worker F}
      → w'.phase ≡ exited
      → events_of w'.storage ≡ events_of w.storage
      → w'.queue ≡ w.queue
      → HasReturned w w' []
  same_queue {w} p e q = record {
    still = p;
    same_events = e;
    queue_grows = ap (map content) q ∙ sym (append-nil (map content w.queue));
  }

module _ {F : Type 0} {faults : Faults} where
  Step-HasReturned :
      {w w' : Worker F} (st : Step faults w w') → w.phase ≡ exited → HasReturned w w' (accepted st)
  Step-HasReturned {w} (recorded e on eq) h = rw eq (record {
    still = phase-enqueue faults e w ∙ h;
    same_events = ap events_of (storage-enqueue e w);
    queue_grows = contents-enqueue e w;
  })
  Step-HasReturned {w} (toggled b eq) h =
      rw eq (unfold set_enabled in same_queue h (events_of-store_flag faults b w.storage) refl)
  Step-HasReturned (received e rest p q eq) h = absurd (no_longer_running (inr h) p)
  Step-HasReturned (ticked p eq) h = absurd (no_longer_running (inr h) p)
  Step-HasReturned (stop_called eq) h = rw eq (same_queue h refl refl)
  Step-HasReturned (stop_seen p s eq) h = absurd (no_longer_running (inr h) p)
  Step-HasReturned (drained e rest p q eq) h = absurd (ground (arith, p, h))
  Step-HasReturned (finished p q eq) h = absurd (ground (arith, p, h))

  -- Once the loop has returned, whatever the callers do, it makes no more rounds and the stored
  -- events stay as they are: the events that the queue still accepts stay in the queue for ever.
  pub exited_stores_nothing :
      {w w' : Worker F} (r : Reach faults w w')
      → w.phase ≡ exited
      → HasReturned w w' (accepted_by r)
  exited_stores_nothing here h = same_queue h refl refl
  exited_stores_nothing {w} (next r st) h =
      let before = exited_stores_nothing r h in
      let now = Step-HasReturned st before.still in
      record {
        still = now.still;
        same_events = now.same_events ∙ before.same_events;
        queue_grows =
            now.queue_grows
            ∙ (ap (λ q. q ++ accepted st) before.queue_grows
                ∙ append_assoc (map content w.queue) (accepted_by r) (accepted st));
      }
