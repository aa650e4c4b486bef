-- ===== src/Ego/Worker.antt =====
-- internal/ego/worker.go: the queue of usage events and the loop that stores them in batches. The
-- goroutines are a step relation: each step is one call of a method, or one round of the loop.
pub mod Runs
pub mod Bounds
pub mod Ledger
pub mod Drain
pub mod Ending
pub mod Returned
use cli_control_account.Base.{
  ℕ, ◌+◌, ◌≤◌, ◌<◌, ◌≡◌, List, [], ◌∷◌, ◌++◌, Bool, true, false, not, ◌||◌, Option, none, some, ltb,
  leb, if◌then◌else◌, is_empty, length,
}
use cli_control_account.Base.Int.{ℤ}
use cli_control_account.Text.{Text, text, eq_text, Unicode}
use cli_control_account.Ego.Events.{RawUsageRecord, EgoEvent, transform_to_ego_event}
use cli_control_account.Ego.Storage.Engine.{Faults, Result, ok, err, Storage}
use cli_control_account.Ego.Storage.Rows.{insert_batch, get_config, set_config, close}

-- Where the flush loop is: in its main select, emptying the queue after a stop, or returned.
pub data Phase : Type 0 where
  running draining exited : Phase

pub record Worker (F : Type 0) : Type 0 where
  pub storage : Option (Storage F)
  pub queue : List EgoEvent
  pub capacity : ℕ
  pub batch : List EgoEvent
  pub batch_size : ℕ
  pub enabled : Bool
  -- stopCh is closed
  pub stopping : Bool
  pub phase : Phase

abbrev pub flag_text : Bool → Text
flag_text true = text "true"
flag_text false = text "false"

module _ {F : Type 0} where
  -- NewWorker and Start; the flush interval is the environment's choice of the ticks.
  unfoldable pub new_worker : Option (Storage F) → ℕ → ℕ → Worker F
  new_worker storage queue_capacity batch_size = record {
    storage = storage;
    queue = [];
    capacity = queue_capacity;
    batch = [];
    batch_size = batch_size;
    enabled = true;
    stopping = false;
    phase = running;
  }

  abbrev pub store_flag : Faults → Bool → Option (Storage F) → Option (Storage F)
  store_flag faults enabled none = none
  store_flag faults enabled (some s) =
      (set_config faults (text "enabled") (flag_text enabled) (some s)).1

  unfoldable pub set_enabled : Faults → Bool → Worker F → Worker F
  set_enabled faults enabled w = record w {
    enabled = enabled;
    storage = store_flag faults enabled w.storage;
  }

  abbrev pub or_memory : Result (Storage F) → Result (Storage F) → Option (Storage F)
  or_memory (ok s) memory = some s
  or_memory (err e) (ok s) = some s
  or_memory (err e) (err e') = none

  abbrev pub started : Faults → Option (Storage F) → Bool
  started faults none = false
  started faults (some s) =
      not (eq_text (get_config faults (text "enabled") (text "true") (some s)) (text "false"))

  -- GetWorker, on its first call: the results of opening the disk storage and, if that fails, the
  -- in-memory one.
  unfoldable pub get_worker : Faults → Result (Storage F) → Result (Storage F) → Worker F
  unfolding new_worker set_enabled
  get_worker faults disk memory =
      let storage = or_memory disk memory in
      set_enabled faults (started faults storage) (new_worker storage 2048 50)

  -- The non-blocking send: a full queue drops the event.
  unfoldable pub enqueue : EgoEvent → Worker F → Worker F
  enqueue e w =
      if ltb (length w.queue) w.capacity then record w { queue = w.queue ++ e ∷ [] } else w

  abbrev pub insert_ignoring_error :
      Faults → List EgoEvent → Option (Storage F) → Option (Storage F)
  insert_ignoring_error faults batch none = none
  insert_ignoring_error faults batch (some s) = (insert_batch faults batch (some s)).1

  -- An insert that fails is logged, and its batch is dropped.
  unfoldable pub flush : Faults → Worker F → Worker F
  flush faults w =
      if is_empty w.batch
      then w
      else record w { storage = insert_ignoring_error faults w.batch w.storage; batch = [] }

  -- batch = append(batch, e), and the flush of a full batch
  unfoldable pub add_to_batch : Faults → EgoEvent → Worker F → Worker F
  unfolding flush
  add_to_batch faults e w =
      let added = record w { batch = w.batch ++ e ∷ [] } in
      if leb w.batch_size (length added.batch) then flush faults added else added

  -- One received event, the rest of the queue being given.
  unfoldable pub receive : Faults → EgoEvent → List EgoEvent → Worker F → Worker F
  unfolding add_to_batch
  receive faults e rest w = add_to_batch faults e (record w { queue = rest })

  -- The last flush of the loop, which then returns.
  unfoldable pub finish : Faults → Worker F → Worker F
  unfolding flush
  finish faults w = record (flush faults w) { phase = exited }

  -- The drain loop, with nobody sending any more.
  unfoldable pub drain_from : Faults → List EgoEvent → Worker F → Worker F
  unfolding receive finish
  drain_from faults [] w = finish faults w
  drain_from faults (e ∷ rest) w = drain_from faults rest (receive faults e rest w)

  unfoldable pub drain : Faults → Worker F → Worker F
  unfolding drain_from
  drain faults w = drain_from faults w.queue (record w { phase = draining })

  -- Stop: the loop empties the queue and returns, then the storage is closed. A second call does
  -- nothing.
  unfoldable pub stop : Faults → Worker F → Worker F
  unfolding drain
  stop faults w =
      let drained = drain faults (record w { stopping = true }) in
      if w.stopping then w else record drained { storage = close drained.storage }

  -- ShutdownWorker; `none` is a worker that was never started.
  unfoldable pub shutdown_worker : Faults → Option (Worker F) → Option (Worker F)
  unfolding stop
  shutdown_worker faults none = none
  shutdown_worker faults (some w) = some (stop faults w)

module _ {F : Type 0} ⦃u : Unicode⦄ where
  -- Record: `unmarshal` is json.Unmarshal, `none` its error, and `now` the clock.
  unfoldable pub record_usage : (Text → Option RawUsageRecord) → ℤ → Text → Worker F → Worker F
  unfolding enqueue
  record_usage unmarshal now raw w =
      if not w.enabled || is_empty raw
      then w
      else elim (unmarshal raw) [ none ↦ w | some rec ↦ enqueue (transform_to_ego_event now rec) w ]

-- One step of the worker among its callers. What a caller records is an event that passed the
-- checks of Record.
pub data Step {F : Type 0} (faults : Faults) (w : Worker F) (w' : Worker F) : Type 0 where
  recorded : (e : EgoEvent) → w.enabled ≡ true → w' ≡ enqueue e w → Step faults w w'
  toggled : (enabled : Bool) → w' ≡ set_enabled faults enabled w → Step faults w w'
  received :
      (e : EgoEvent) (rest : List EgoEvent)
      → w.phase ≡ running
      → w.queue ≡ e ∷ rest
      → w' ≡ receive faults e rest w
      → Step faults w w'
  ticked : w.phase ≡ running → w' ≡ flush faults w → Step faults w w'
  stop_called : w' ≡ record w { stopping = true } → Step faults w w'
  stop_seen :
      w.phase ≡ running → w.stopping ≡ true → w' ≡ record w { phase = draining } → Step faults w w'
  drained :
      (e : EgoEvent) (rest : List EgoEvent)
      → w.phase ≡ draining
      → w.queue ≡ e ∷ rest
      → w' ≡ receive faults e rest w
      → Step faults w w'
  finished : w.phase ≡ draining → w.queue ≡ [] → w' ≡ finish faults w → Step faults w w'

pub data Reach {F : Type 0} (faults : Faults) (w : Worker F) : Worker F → Type 0 where
  here : Reach faults w w
  next : {v v' : Worker F} → Reach faults w v → Step faults v v' → Reach faults w v'
