-- ===== src/Tests/Worker.antt =====
-- internal/ego/worker.go at work.
use cli_control_account.Base.{
  ℕ, suc, ◌+◌, ◌≤◌, ◌⊎◌, length, ◌++◌, ◌≡◌, refl, [], ◌∷◌, map, true, false, some, arith,
}
use cli_control_account.Base.Int.{pos}
use cli_control_account.Text.{eq_text}
use cli_control_account.Ego.Storage.Engine.{ok, transaction, exec_rows}
use cli_control_account.Ego.Storage.Rows.{insert_batch, insert_event}
use cli_control_account.Ego.Queries.Window.{QueryWindow, selected, read_rows, read_row}
use cli_control_account.Ego.Queries.Groups.{group_by, add_row}
use cli_control_account.Ego.Queries.Summary.{SummaryStats, get_summary, empty_summary}
use cli_control_account.Ego.Counted.{get_summary_after_run}
use cli_control_account.Ego.Queries.Summary.Counts.{CountsEvents}
use cli_control_account.Tests.Queries.{value}
use cli_control_account.Ego.Storage.Config.{events_of}
use cli_control_account.Ego.Worker.{
  Worker, running, draining, exited, finish, Step, drained, finished, new_worker, enqueue, flush,
  receive, stop, drain, recorded, ticked, received, Reach, here, next,
}
use cli_control_account.Ego.Worker.Bounds.{IsBounded, Reach-IsBounded}
use cli_control_account.Ego.Worker.Ledger.{IsLive, ledger, ledger-Reach}
use cli_control_account.Ego.Worker.Runs.{content, accepted_by, loop_step, loop_steps}
use cli_control_account.Ego.Worker.Ending.{drain_terminates, drain_returns}
use cli_control_account.Ego.Worker.Drain.{IsDrained, stop_stores_all}
use cli_control_account.Tests.Fixtures.{
  plain_unicode, whole_float, event_at, no_faults, two_events, storage_of,
}

abbrev start : Worker ℕ
start = record {
  storage = some (storage_of two_events);
  queue = [];
  capacity = 2;
  batch = [];
  batch_size = 2;
  enabled = true;
  stopping = false;
  phase = running;
}

starts : new_worker (some (storage_of two_events)) 2 2 ≡ start
unfolding new_worker
starts = refl

live : IsLive start.storage
live = (storage_of two_events, two_events, refl, refl, refl)

-- An event is sent, received into the batch, and flushed by a tick.
one_event :
    Reach no_faults start
      (flush no_faults (receive no_faults (event_at 30) [] (enqueue (event_at 30) start)))
unfolding enqueue flush receive
one_event =
    next
      (next (next here (recorded (event_at 30) refl refl))
        (received (event_at 30) [] refl refl refl))
      (ticked refl refl)

ledger-Reach_example :
    ledger (flush no_faults (receive no_faults (event_at 30) [] (enqueue (event_at 30) start)))
    ≡ ledger start ++ accepted_by one_event
ledger-Reach_example = ledger-Reach no_faults (λ c. refl) one_event live

Reach-IsBounded_example :
    IsBounded (flush no_faults (receive no_faults (event_at 30) [] (enqueue (event_at 30) start)))
unfolding new_worker
Reach-IsBounded_example =
    Reach-IsBounded no_faults (some (storage_of two_events)) 2 2 (omega arith) one_event

abbrev busy : Worker ℕ
busy = record start { queue = event_at 40 ∷ event_at 41 ∷ []; batch = event_at 39 ∷ [] }

stop_stores_all_example :
    Reach no_faults
      (record busy { stopping = true })
      (drain no_faults (record busy { stopping = true }))
    × IsDrained no_faults (stop no_faults busy)
    × (map content (events_of (stop no_faults busy).storage) ≡ ledger busy)
stop_stores_all_example = stop_stores_all no_faults (λ c. refl) busy refl refl live

abbrev stopped : Worker ℕ
stopped = record busy { stopping = true; phase = draining }

abbrev half_drained : Worker ℕ
half_drained = receive no_faults (event_at 40) (event_at 41 ∷ []) stopped

abbrev all_received : Worker ℕ
all_received = receive no_faults (event_at 41) [] half_drained

-- The first event fills the batch, which is flushed; the second is flushed at the end.
last_rounds : Reach no_faults stopped (finish no_faults all_received)
unfolding receive finish
last_rounds =
    next
      (next (next here (drained (event_at 40) (event_at 41 ∷ []) refl refl refl))
        (drained (event_at 41) [] refl refl refl))
      (finished refl refl refl)

drain_terminates_example :
    (loop_steps last_rounds ≤ suc (length stopped.queue + length (accepted_by last_rounds)))
    × (((finish no_faults all_received).phase ≡ exited)
        ⊎ ((v : Worker ℕ) × (st : Step no_faults (finish no_faults all_received) v) × (loop_step st
              ≡ 1)))
drain_terminates_example = drain_terminates last_rounds refl

drain_returns_example :
    ((finish no_faults all_received).phase ≡ exited) × ((finish no_faults all_received).queue ≡ [])
unfolding last_rounds
drain_returns_example = drain_returns last_rounds refl (omega arith)

abbrev after_return : Worker ℕ
after_return = record start { stopping = true; phase = exited }

-- The loop has returned, and an event is recorded.
late_event : Reach no_faults after_return (enqueue (event_at 50) after_return)
late_event = next here (recorded (event_at 50) refl refl)

abbrev flushed : Worker ℕ
flushed = flush no_faults (receive no_faults (event_at 30) [] (enqueue (event_at 30) start))

abbrev until_100 : QueryWindow
until_100 = record { start = pos 1; end = pos 100 }

abbrev summary_after : SummaryStats ℕ
summary_after = value empty_summary (get_summary no_faults no_faults until_100 [] flushed.storage)

summary_after_returned :
    get_summary no_faults no_faults until_100 [] flushed.storage ≡ ok summary_after
unfolding get_summary read_rows read_row group_by add_row selected eq_text flush receive enqueue
    insert_batch transaction exec_rows insert_event
summary_after_returned = refl

get_summary_after_run_example :
    CountsEvents (selected until_100 [] (ledger start ++ accepted_by one_event)) summary_after
unfolding flush receive enqueue
get_summary_after_run_example =
    get_summary_after_run no_faults no_faults no_faults (λ c. refl) until_100 [] one_event
      summary_after live refl refl summary_after_returned
