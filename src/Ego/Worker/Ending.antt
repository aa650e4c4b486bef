-- ===== src/Ego/Worker/Ending.antt =====
-- The end of the flush loop of internal/ego/worker.go: once it has seen a stop, it returns.
use cli_control_account.Base.{
  ℕ, ◌+◌, ◌≤◌, ◌<◌, ◌≡◌, refl, ap, List, [], ◌∷◌, arith, length, length-append, suc, ◌⊎◌, inl, inr,
}
use cli_control_account.Ego.Events.{EgoEvent}
use cli_control_account.Ego.Storage.Engine.{Faults}
use cli_control_account.Ego.Worker.{
  Worker, Phase, draining, exited, set_enabled, enqueue, receive, finish, Step, recorded, toggled,
  received, ticked, stop_called, stop_seen, drained, finished, Reach, here, next,
}
use cli_control_account.Ego.Worker.Runs.{
  IsEnding, no_longer_running, sent, accepted, accepted_by, loop_step, loop_steps, phase-receive,
  queue-receive, queue-flush, phase-enqueue,
}

-- The rounds that the loop has to go on an unchanged queue after a stop.
abbrev rounds : Phase → ℕ
rounds exited = 0
rounds _ = 1

List-cases : {A : Type 0} (l : List A) → (l ≡ []) ⊎ ((x : A) × (rest : List A) × (l ≡ x ∷ rest))
List-cases [] = inl refl
List-cases (x ∷ rest) = inr (x, rest, refl)

length_zero : {A : Type 0} (l : List A) → length l ≡ 0 → l ≡ []
length_zero [] e = refl
length_zero (x ∷ l) e = absurd (omega arith)

module _ {F : Type 0} where
  abbrev remaining : Worker F → ℕ
  remaining w = rounds w.phase + length w.queue

  length-enqueue :
      (e : EgoEvent) (w : Worker F)
      → length (enqueue e w).queue ≡ length w.queue + length (sent e w)
  unfolding enqueue
  length-enqueue e w = ground (arith, length-append w.queue (e ∷ []))

queue-finish : {F : Type 0} (faults : Faults) (w : Worker F) → (finish faults w).queue ≡ w.queue
unfolding finish
queue-finish faults w = queue-flush faults w

phase-finish : {F : Type 0} (faults : Faults) (w : Worker F) → (finish faults w).phase ≡ exited
unfolding finish
phase-finish faults w = refl

module _ {F : Type 0} {faults : Faults} where
  Step-IsEnding : {w w' : Worker F} → Step faults w w' → IsEnding w.phase → IsEnding w'.phase
  Step-IsEnding {w} (recorded e on eq) h = rw (eq, phase-enqueue faults e w) h
  Step-IsEnding (toggled b eq) h = rw eq (unfold set_enabled in h)
  Step-IsEnding (received e rest p q eq) h = absurd (no_longer_running h p)
  Step-IsEnding (ticked p eq) h = absurd (no_longer_running h p)
  Step-IsEnding (stop_called eq) h = rw eq h
  Step-IsEnding (stop_seen p s eq) h = absurd (no_longer_running h p)
  Step-IsEnding {w} (drained e rest p q eq) h = rw (eq, phase-receive faults e rest w) h
  Step-IsEnding (finished p q eq) h = rw eq (unfold finish in inr refl)

  rounds-Step :
      {w w' : Worker F} (st : Step faults w w')
      → IsEnding w.phase
      → loop_step st + remaining w' ≡ remaining w + length (accepted st)
  rounds-Step {w} (recorded e on eq) h =
      rw (eq, phase-enqueue faults e w) (omega (arith, length-enqueue e w))
  rounds-Step (toggled b eq) h = rw eq (unfold set_enabled in omega arith)
  rounds-Step (received e rest p q eq) h = absurd (no_longer_running h p)
  rounds-Step (ticked p eq) h = absurd (no_longer_running h p)
  rounds-Step (stop_called eq) h = rw eq (omega arith)
  rounds-Step (stop_seen p s eq) h = absurd (no_longer_running h p)
  rounds-Step {w} (drained e rest p q eq) h =
      rw (eq, phase-receive faults e rest w, queue-receive faults e rest w, q, p) (omega arith)
  rounds-Step {w} (finished p q eq) h =
      rw eq (ground (arith, p, q, queue-finish faults w, phase-finish faults w))

  rounds-Reach :
      {w w' : Worker F} (r : Reach faults w w')
      → IsEnding w.phase
      → IsEnding w'.phase × (loop_steps r + remaining w' ≡ remaining w + length (accepted_by r))
  rounds-Reach {w} here h = (h, omega arith)
  rounds-Reach (next r st) h =
      let (k, e) = rounds-Reach r h in
      (
        Step-IsEnding st k,
        omega (arith, e, rounds-Step st k, length-append (accepted_by r) (accepted st)),
      )

  -- A worker that is emptying its queue has a next round.
  draining_goes_on :
      (w : Worker F)
      → w.phase ≡ draining
      → (v : Worker F) × (st : Step faults w v) × (loop_step st ≡ 1)
  draining_goes_on w h = elim (List-cases w.queue) [
    | inl e ↦ (finish faults w, finished h e refl, refl)
    | inr (x, rest, e) ↦ (receive faults x rest w, drained x rest h e refl, refl)
  ]

  -- From the moment when the loop has seen the stop, however the callers go on, it makes at most
  -- one round for each event that is in the queue or is accepted in the meantime, and one more; and
  -- until it has returned it is never stuck.
  pub drain_terminates :
      {w w' : Worker F} (r : Reach faults w w')
      → w.phase ≡ draining
      → (loop_steps r ≤ suc (length w.queue + length (accepted_by r)))
        × ((w'.phase ≡ exited) ⊎ ((v : Worker F) × (st : Step faults w' v) × (loop_step st ≡ 1)))
  drain_terminates {w} {w'} r h =
      let (k, e) = rounds-Reach r (inl h) in
      (
        omega (arith, e, ap rounds h),
        elim k [ inl d ↦ inr (draining_goes_on w' d) | inr x ↦ inl x ],
      )

  -- A loop that has made more rounds since it saw the stop than there were events in the queue or
  -- accepted in the meantime has returned, with an empty queue.
  pub drain_returns :
      {w w' : Worker F} (r : Reach faults w w')
      → w.phase ≡ draining
      → length w.queue + length (accepted_by r) < loop_steps r
      → (w'.phase ≡ exited) × (w'.queue ≡ [])
  drain_returns {w} {w'} r h enough =
      let (k, e) = rounds-Reach r (inl h) in
      elim k [
        | inl d ↦ absurd (omega (arith, e, enough, ap rounds h, ap rounds d))
        | inr x ↦ (x, length_zero w'.queue (omega (arith, e, enough, ap rounds h)))
      ]
