-- ===== src/Ego/Storage/Atomic.antt =====
-- The transactions of internal/ego/storage.go: a batch of events is stored whole or not at all.
use cli_control_account.Base.{
  ℕ, suc, ◌+◌, ◌≡◌, refl, ◌∙◌, ◌⊎◌, inl, inr, List, [], ◌∷◌, ◌++◌, false, ◌||◌, some, arith, length,
  append_assoc, append-nil, Bool-cases,
}
use cli_control_account.Base.Int.{pos}
use cli_control_account.Ego.Events.{EgoEvent}
use cli_control_account.Ego.Storage.Engine.{
  DbCall, begin_tx, prepare, commit, exec_stmt, Faults, StorageError, call_failed, Result, ok, err,
  Db, Storage, with_db, exec_rows, transaction,
}
use cli_control_account.Ego.Storage.Rows.{insert_event, insert_batch}

abbrev pub write_all {ℓ} : {F : Type 0} {A : Type ℓ} → (Db F → A → Db F) → Db F → List A → Db F
write_all write db [] = db
write_all write db (x ∷ xs) = write_all write (write db x) xs

-- Either the result is `ok b`, or it is an error.
abbrev pub OkOrErr {ℓ} : {B : Type ℓ} → B → Result B → Type ℓ
OkOrErr b r = (r ≡ ok b) ⊎ ((e : StorageError) × (r ≡ err e))

-- No call of the database engine fails.
abbrev pub NoFaults : Faults → Type 0
NoFaults faults = (c : DbCall) → faults c ≡ false

module _ {F : Type 0} {A : Type 0} (faults : Faults) (write : Db F → A → Db F) where
  exec_rows_outcome :
      (i : ℕ) (xs : List A) (db : Db F)
      → OkOrErr (write_all write db xs) (exec_rows faults i write xs db)
  unfolding exec_rows
  exec_rows_outcome i [] db = inl refl
  exec_rows_outcome i (x ∷ xs) db = elim (Bool-cases (faults (exec_stmt i) || db.closed)) [
    | inl e ↦ rw e (inr (call_failed (exec_stmt i), refl))
    | inr e ↦ rw e (exec_rows_outcome (suc i) xs (write db x))
  ]

  pub transaction_outcome :
      (xs : List A) (db : Db F) → OkOrErr (write_all write db xs) (transaction faults write xs db)
  unfolding transaction
  transaction_outcome xs db = ground (arith, exec_rows_outcome 0 xs db)

  module _ (keeps : (db : Db F) (x : A) → (write db x).closed ≡ db.closed)
      (quiet : NoFaults faults) where
    exec_rows_quiet :
        (i : ℕ) (xs : List A) (db : Db F)
        → db.closed ≡ false
        → exec_rows faults i write xs db ≡ ok (write_all write db xs)
    unfolding exec_rows
    exec_rows_quiet i [] db h = refl
    exec_rows_quiet i (x ∷ xs) db h =
        ground
          (arith, quiet (exec_stmt i), exec_rows_quiet (suc i) xs (write db x) (keeps db x ∙ h))

    pub transaction_quiet :
        (xs : List A) (db : Db F)
        → db.closed ≡ false
        → transaction faults write xs db ≡ ok (write_all write db xs)
    unfolding transaction
    transaction_quiet xs db h =
        ground (arith, quiet begin_tx, quiet prepare, quiet commit, exec_rows_quiet 0 xs db h)

-- The events of a batch with the ids that they get.
abbrev pub numbered : ℕ → List EgoEvent → List EgoEvent
numbered n [] = []
numbered n (e ∷ es) = record e { id = pos n } ∷ numbered (suc n) es

module _ {F : Type 0} where
  -- The database with a batch behind its events.
  abbrev pub append_events : Db F → List EgoEvent → Db F
  append_events db es = record db {
    events = db.events ++ numbered db.next_id es;
    next_id = db.next_id + length es;
  }

  write_all-insert_event :
      (db : Db F) (es : List EgoEvent) → write_all insert_event db es ≡ append_events db es
  unfolding insert_event
  write_all-insert_event db [] = ground (arith, append-nil db.events)
  write_all-insert_event db (e ∷ es) =
      write_all-insert_event (insert_event db e) es
      ∙ ground (
        arith,
        append_assoc db.events (record e { id = pos db.next_id } ∷ [])
            (numbered (suc db.next_id) es),
      )

  closed-insert_event : (db : Db F) (e : EgoEvent) → (insert_event db e).closed ≡ db.closed
  unfolding insert_event
  closed-insert_event db e = refl

  -- Whatever calls of the database fail, a batch of events given to an open storage is stored
  -- whole, in order, behind the stored events and under fresh consecutive ids, and the result is
  -- ok; or the result is an error and the storage is as it was.
  pub insert_batch_atomic :
      (faults : Faults) (es : List EgoEvent) (s : Storage F) (db : Db F)
      → s.db ≡ some db
      → let (result, after) = insert_batch faults es (some s) in
        ((result ≡ ok tt) × (after ≡ with_db s (append_events db es)))
        ⊎ ((e : StorageError) × (result ≡ err e) × (after ≡ some s))
  unfolding insert_batch
  insert_batch_atomic faults [] s db h = inl (ground arith, ground (arith, append-nil db.events))
  insert_batch_atomic faults (e ∷ es) s db h = ground (
    arith,
    transaction_outcome faults insert_event (e ∷ es) db,
    write_all-insert_event db (e ∷ es),
  )

  -- If no call fails and the database is not closed, the batch is stored.
  pub insert_batch_quiet :
      (faults : Faults) (es : List EgoEvent) (s : Storage F) (db : Db F)
      → s.db ≡ some db
      → db.closed ≡ false
      → NoFaults faults
      → insert_batch faults es (some s) ≡ (ok tt, with_db s (append_events db es))
  unfolding insert_batch
  insert_batch_quiet faults [] s db h live quiet = ground (arith, append-nil db.events)
  insert_batch_quiet faults (e ∷ es) s db h live quiet = ground (
    arith,
    transaction_quiet faults insert_event closed-insert_event quiet (e ∷ es) db live,
    write_all-insert_event db (e ∷ es),
  )
