-- ===== src/Process/Sound.antt =====
-- What every operation on the worker keeps: the bounds of internal/ego/worker.go, and the prices of
-- internal/ego/storage.go, which are those of the embedded list.
use cli_control_account.Base.{
  ℕ, ◌<◌, ◌≡◌, refl, sym, subst, ◌++◌, leb, ◌∙◌, inl, inr, List, [], ◌∷◌, Bool, true, Option, none,
  some, arith, length, is_empty, Bool-cases,
}
use cli_control_account.Base.Int.{ℤ}
use cli_control_account.TextMap.{TextMap}
use cli_control_account.Ego.Pricing.{ModelPricing}
use cli_control_account.Ego.Events.{EgoEvent}
use cli_control_account.Ego.Storage.Engine.{Faults, Storage}
use cli_control_account.Ego.Storage.Rows.{
  insert_batch, set_config, close, prune_older_than, reset_database,
}
use cli_control_account.Ego.Storage.Prices.{source_from}
use cli_control_account.Ego.Storage.Rates.{IsVerified}
use cli_control_account.Ego.Worker.{
  Worker, draining, new_worker, set_enabled, enqueue, flush, add_to_batch, receive, finish,
  drain_from, drain, stop, store_flag, insert_ignoring_error, Step, recorded, toggled, received,
  ticked, stop_called, stop_seen, drained, finished,
}
use cli_control_account.Ego.Worker.Runs.{phase-receive, queue-receive}
use cli_control_account.Ego.Worker.Drain.{drained_by_stop, stop_eq}
use cli_control_account.Ego.Worker.Bounds.{
  IsBounded, enqueue-IsBounded, receive-IsBounded, finish-IsBounded, Step-IsBounded,
}

-- The price cache; a storage that is missing has none.
abbrev pub cache_of : {F : Type 0} → Option (Storage F) → TextMap (ModelPricing F)
cache_of none = []
cache_of (some s) = s.pricing_cache

module _ {F : Type 0} (faults : Faults) where
  cache_of-insert :
      (es : List EgoEvent) (p : Option (Storage F))
      → cache_of (insert_ignoring_error faults es p) ≡ cache_of p
  unfolding insert_batch
  cache_of-insert es none = refl
  cache_of-insert es (some s) = ground arith

  cache_of-store_flag :
      (b : Bool) (p : Option (Storage F)) → cache_of (store_flag faults b p) ≡ cache_of p
  unfolding set_config
  cache_of-store_flag b p = ground arith

  pub cache_of-prune :
      (days_ago : ℤ → ℤ) (days : ℤ) (p : Option (Storage F))
      → cache_of (prune_older_than days_ago faults days p).1 ≡ cache_of p
  unfolding prune_older_than
  cache_of-prune days_ago days p = ground arith

  pub cache_of-reset : (p : Option (Storage F)) → cache_of (reset_database faults p).1 ≡ cache_of p
  unfolding reset_database
  cache_of-reset p = ground arith

module _ {F : Type 0} (faults : Faults) where
  cache_of-flush : (w : Worker F) → cache_of (flush faults w).storage ≡ cache_of w.storage
  unfolding flush
  cache_of-flush w = elim (Bool-cases (is_empty w.batch)) [
    | inl e ↦ rw (e, flush) refl
    | inr e ↦ rw (e, flush) (cache_of-insert faults w.batch w.storage)
  ]

  cache_of-receive :
      (e : EgoEvent) (rest : List EgoEvent) (w : Worker F)
      → cache_of (receive faults e rest w).storage ≡ cache_of w.storage
  unfolding receive add_to_batch
  cache_of-receive e rest w =
      let added : Worker F = record w { queue = rest; batch = w.batch ++ e ∷ [] } in
      elim (Bool-cases (leb w.batch_size (length added.batch))) [
        | inl full ↦ rw (full, receive) (cache_of-flush added)
        | inr room ↦ rw (room, receive) refl
      ]

  cache_of-finish : (w : Worker F) → cache_of (finish faults w).storage ≡ cache_of w.storage
  unfolding finish
  cache_of-finish w = cache_of-flush w

  cache_of-drain_from :
      (q : List EgoEvent) (w : Worker F)
      → cache_of (drain_from faults q w).storage ≡ cache_of w.storage
  unfolding drain_from
  cache_of-drain_from [] w = cache_of-finish w
  cache_of-drain_from (e ∷ rest) w =
      cache_of-drain_from rest (receive faults e rest w) ∙ cache_of-receive e rest w

  cache_of-drain : (w : Worker F) → cache_of (drain faults w).storage ≡ cache_of w.storage
  unfolding drain
  cache_of-drain w = cache_of-drain_from w.queue (record w { phase = draining })

  drain_from-IsBounded :
      (q : List EgoEvent) (w : Worker F)
      → w.phase ≡ draining
      → w.queue ≡ q
      → IsBounded w
      → IsBounded (drain_from faults q w)
  unfolding drain_from
  drain_from-IsBounded [] w d h v = finish-IsBounded faults w v
  drain_from-IsBounded (e ∷ rest) w d h v =
      drain_from-IsBounded rest (receive faults e rest w) (phase-receive faults e rest w ∙ d)
        (queue-receive faults e rest w)
        (receive-IsBounded faults e rest w v h (λ x. absurd (ground arith)))

cache_of-enqueue :
    {F : Type 0} (e : EgoEvent) (w : Worker F) → cache_of (enqueue e w).storage ≡ cache_of w.storage
unfolding enqueue
cache_of-enqueue e w = ground arith

cache_of-set_enabled :
    {F : Type 0} (faults : Faults) (b : Bool) (w : Worker F)
    → cache_of (set_enabled faults b w).storage ≡ cache_of w.storage
unfolding set_enabled
cache_of-set_enabled faults b w = cache_of-store_flag faults b w.storage

cache_of-Step :
    {F : Type 0} {faults : Faults} {w w' : Worker F}
    → Step faults w w'
    → cache_of w'.storage ≡ cache_of w.storage
cache_of-Step {w = w} (recorded e on eq) = rw eq (cache_of-enqueue e w)
cache_of-Step {faults = faults} {w = w} (toggled b eq) = rw eq (cache_of-set_enabled faults b w)
cache_of-Step {faults = faults} {w = w} (received e rest p q eq) =
    rw eq (cache_of-receive faults e rest w)
cache_of-Step {faults = faults} {w = w} (ticked p eq) = rw eq (cache_of-flush faults w)
cache_of-Step (stop_called eq) = rw eq refl
cache_of-Step (stop_seen p s eq) = rw eq refl
cache_of-Step {faults = faults} {w = w} (drained e rest p q eq) =
    rw eq (cache_of-receive faults e rest w)
cache_of-Step {faults = faults} {w = w} (finished p q eq) = rw eq (cache_of-finish faults w)

cache_of-close : {F : Type 0} (p : Option (Storage F)) → cache_of (close p) ≡ cache_of p
unfolding close
cache_of-close p = ground arith

module _ {F : Type 0} (models : List (ModelPricing F)) where
  -- A bounded worker whose prices are pinned to the embedded list.
  pub record IsSound (w : Worker F) : Type 0 where
    pub bounded : IsBounded w
    pub pinned : IsVerified (source_from [] models) (cache_of w.storage)

  pub IsSound-cache :
      (w w' : Worker F)
      → IsBounded w'
      → cache_of w'.storage ≡ cache_of w.storage
      → IsSound w
      → IsSound w'
  IsSound-cache w w' b e v = record {
    bounded = b;
    pinned = subst (IsVerified (source_from [] models)) (sym e) v.pinned;
  }

  pub Step-IsSound : {faults : Faults} {w w' : Worker F} → Step faults w w' → IsSound w → IsSound w'
  Step-IsSound {faults = faults} {w = w} {w' = w'} st v =
      IsSound-cache w w' (Step-IsBounded faults st v.bounded) (cache_of-Step st) v

  pub enqueue-IsSound :
      (faults : Faults) (e : EgoEvent) (w : Worker F) → IsSound w → IsSound (enqueue e w)
  enqueue-IsSound faults e w v =
      IsSound-cache w _ (enqueue-IsBounded faults e w v.bounded) (cache_of-enqueue e w) v

  pub set_enabled-IsSound :
      (faults : Faults) (b : Bool) (w : Worker F) → IsSound w → IsSound (set_enabled faults b w)
  set_enabled-IsSound faults b w v = Step-IsSound (toggled b refl) v

  drain-IsBounded : (faults : Faults) (w : Worker F) → IsBounded w → IsBounded (drain faults w)
  unfolding drain
  drain-IsBounded faults w v =
      drain_from-IsBounded faults w.queue (record w { phase = draining }) refl refl
        (record { queue_fits = v.queue_fits; batch_open = v.batch_open; emptied = tt })

  stop_again : (faults : Faults) (w : Worker F) → w.stopping ≡ true → stop faults w ≡ w
  unfolding stop
  stop_again faults w again = ground arith

  stopped-IsSound :
      (faults : Faults) (w : Worker F)
      → IsSound w
      → IsSound
          (record (drained_by_stop faults w) { storage = close (drained_by_stop faults w).storage })
  stopped-IsSound faults w v =
      let drained' = drained_by_stop faults w in
      let b : IsBounded drained' =
        drain-IsBounded faults (record w { stopping = true })
          (record {
            queue_fits = v.bounded.queue_fits;
            batch_open = v.bounded.batch_open;
            emptied = v.bounded.emptied;
          }) in
      IsSound-cache w _
        (record { queue_fits = b.queue_fits; batch_open = b.batch_open; emptied = b.emptied })
        (cache_of-close drained'.storage ∙ cache_of-drain faults (record w { stopping = true })) v

  pub stop-IsSound : (faults : Faults) (w : Worker F) → IsSound w → IsSound (stop faults w)
  stop-IsSound faults w v = elim (Bool-cases w.stopping) [
    | inl again ↦ rw (stop_again faults w again) v
    | inr fresh ↦ rw (stop_eq faults w fresh) (stopped-IsSound faults w v)
  ]

  -- A storage that was opened, if it was.
  pub new_worker-IsSound :
      (p : Option (Storage F)) (capacity size : ℕ)
      → 0 < size
      → IsVerified (source_from [] models) (cache_of p)
      → IsSound (new_worker p capacity size)
  unfolding new_worker
  new_worker-IsSound p capacity size h v = record { bounded = ground arith; pinned = v }
