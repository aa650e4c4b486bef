-- ===== src/Ego/Worker/Runs.antt =====
-- What happens in a run of the worker of internal/ego/worker.go: the events that its queue accepted,
-- and the rounds of its loop.
use cli_control_account.Base.{
  ℕ, ◌≢◌, ◌⊎◌, inl, inr, ◌≡◌, arith, ◌+◌, List, [], ◌∷◌, ◌++◌, ltb, if◌then◌else◌, length,
}
use cli_control_account.Base.Int.{pos}
use cli_control_account.Ego.Events.{EgoEvent}
use cli_control_account.Ego.Storage.Engine.{Faults}
use cli_control_account.Ego.Worker.{
  Worker, Phase, running, draining, exited, enqueue, flush, add_to_batch, receive, Step, recorded,
  toggled, stop_called, Reach, here, next,
}

-- An event apart from the id that the database gives it.
abbrev pub content : EgoEvent → EgoEvent
content e = record e { id = pos 0 }

-- The loop has seen the stop.
abbrev pub IsEnding : Phase → Type 0
IsEnding p = (p ≡ draining) ⊎ (p ≡ exited)

pub no_longer_running : {p : Phase} → IsEnding p → p ≢ running
no_longer_running (inl h) e = absurd (ground arith)
no_longer_running (inr h) e = absurd (ground arith)

module _ {F : Type 0} where
  -- What a send adds: the event, if the queue has room.
  abbrev pub sent : EgoEvent → Worker F → List EgoEvent
  sent e w = if ltb (length w.queue) w.capacity then content e ∷ [] else []

  module _ {faults : Faults} where
    -- The events that a step, and a run, accepted.
    abbrev pub accepted : {w w' : Worker F} → Step faults w w' → List EgoEvent
    accepted {w} (recorded e on eq) = sent e w
    accepted {w} _ = []

    abbrev pub accepted_by : {w w' : Worker F} → Reach faults w w' → List EgoEvent
    accepted_by here = []
    accepted_by (next r st) = accepted_by r ++ accepted st

    -- The steps of the loop, by contrast with those of the callers.
    abbrev pub loop_step : {w w' : Worker F} → Step faults w w' → ℕ
    loop_step (recorded e on eq) = 0
    loop_step (toggled b eq) = 0
    loop_step (stop_called eq) = 0
    loop_step _ = 1

    abbrev pub loop_steps : {w w' : Worker F} → Reach faults w w' → ℕ
    loop_steps here = 0
    loop_steps (next r st) = loop_steps r + loop_step st

    pub Reach-trans : {a b c : Worker F} → Reach faults a b → Reach faults b c → Reach faults a c
    Reach-trans r here = r
    Reach-trans r (next q st) = next (Reach-trans r q) st

module _ {F : Type 0} (faults : Faults) where
  pub phase-receive :
      (e : EgoEvent) (rest : List EgoEvent) (w : Worker F)
      → (receive faults e rest w).phase ≡ w.phase
  unfolding receive add_to_batch flush
  phase-receive e rest w = ground arith

  pub queue-receive :
      (e : EgoEvent) (rest : List EgoEvent) (w : Worker F) → (receive faults e rest w).queue ≡ rest
  unfolding receive add_to_batch flush
  queue-receive e rest w = ground arith

  pub queue-flush : (w : Worker F) → (flush faults w).queue ≡ w.queue
  unfolding flush
  queue-flush w = ground arith

  pub phase-flush : (w : Worker F) → (flush faults w).phase ≡ w.phase
  unfolding flush
  phase-flush w = ground arith

  pub phase-enqueue : (e : EgoEvent) (w : Worker F) → (enqueue e w).phase ≡ w.phase
  unfolding enqueue
  phase-enqueue e w = ground arith
