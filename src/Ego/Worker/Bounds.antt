-- ===== src/Ego/Worker/Bounds.antt =====
-- The bounds of the worker of internal/ego/worker.go.
use cli_control_account.Base.{
  ℕ, ◌≤◌, ◌<◌, ◌≡◌, ◌≢◌, List, [], ◌∷◌, Option, arith, length, length-append,
}
use cli_control_account.Ego.Events.{EgoEvent}
use cli_control_account.Ego.Storage.Engine.{Faults, Storage}
use cli_control_account.Ego.Worker.{
  Worker, Phase, exited, new_worker, set_enabled, enqueue, flush, add_to_batch, receive, finish,
  Step, recorded, toggled, received, ticked, stop_called, stop_seen, drained, finished, Reach, here,
  next,
}

-- A loop that has returned leaves no batch behind.
abbrev pub IsEmptied : Phase → List EgoEvent → Type 0
IsEmptied exited batch = batch ≡ []
IsEmptied _ batch = Unit

pub record IsBounded {F : Type 0} (w : Worker F) : Type 0 where
  pub queue_fits : length w.queue ≤ w.capacity
  pub batch_open : length w.batch < w.batch_size
  pub emptied : IsEmptied w.phase w.batch

module _ {F : Type 0} (faults : Faults) where
  pub enqueue-IsBounded : (e : EgoEvent) (w : Worker F) → IsBounded w → IsBounded (enqueue e w)
  unfolding enqueue
  enqueue-IsBounded e w v = ground (arith, length-append w.queue (e ∷ []))

  pub flush-IsBounded : (w : Worker F) → IsBounded w → IsBounded (flush faults w)
  unfolding flush
  flush-IsBounded w v = ground arith

  pub receive-IsBounded :
      (e : EgoEvent) (rest : List EgoEvent) (w : Worker F)
      → IsBounded w
      → w.queue ≡ e ∷ rest
      → w.phase ≢ exited
      → IsBounded (receive faults e rest w)
  unfolding receive add_to_batch flush
  receive-IsBounded e rest w v q p = ground (arith, length-append w.batch (e ∷ []))

  pub finish-IsBounded : (w : Worker F) → IsBounded w → IsBounded (finish faults w)
  unfolding finish flush
  finish-IsBounded w v = ground arith

  pub Step-IsBounded : {w w' : Worker F} → Step faults w w' → IsBounded w → IsBounded w'
  Step-IsBounded (recorded e on eq) v = rw eq (enqueue-IsBounded e _ v)
  Step-IsBounded (toggled b eq) v = rw eq (unfold set_enabled in ground arith)
  Step-IsBounded (received e rest p q eq) v = rw eq (receive-IsBounded e rest _ v q (λ x. cc))
  Step-IsBounded (ticked p eq) v = rw eq (flush-IsBounded _ v)
  Step-IsBounded (stop_called eq) v = ground arith
  Step-IsBounded (stop_seen p s eq) v = ground arith
  Step-IsBounded (drained e rest p q eq) v = rw eq (receive-IsBounded e rest _ v q (λ x. cc))
  Step-IsBounded (finished p q eq) v = rw eq (finish-IsBounded _ v)

  -- From a new worker with a positive batch size, after any steps, the queue is within its
  -- capacity, the batch is below its size, and a loop that has returned has left no batch.
  pub Reach-IsBounded :
      (storage : Option (Storage F)) (capacity size : ℕ) {w : Worker F}
      → 0 < size
      → Reach faults (new_worker storage capacity size) w
      → IsBounded w
  unfolding new_worker
  Reach-IsBounded storage capacity size h here = ground arith
  Reach-IsBounded storage capacity size h (next r st) =
      Step-IsBounded st (Reach-IsBounded storage capacity size h r)
