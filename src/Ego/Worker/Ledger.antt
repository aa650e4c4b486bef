-- ===== src/Ego/Worker/Ledger.antt =====
-- No accepted event is lost, duplicated or reordered: internal/ego/worker.go over a storage whose
-- calls succeed.
use cli_control_account.Base.{
  ℕ, ◌≡◌, refl, sym, ap, ◌∙◌, ◌≡⟨◌⟩◌, ◌∎, List, [], ◌∷◌, ◌++◌, map, Bool, false, Option, some,
  arith, ltb, leb, is_empty, Bool-cases, inl, inr, length, append_assoc, append-nil, suc,
}
use mathlib.Core.List.{map-append}
use cli_control_account.Text.{text}
use cli_control_account.TextMap.{insert}
use cli_control_account.Ego.Events.{EgoEvent}
use cli_control_account.Ego.Storage.Engine.{exec_sql, Faults, Db, Storage, with_db}
use cli_control_account.Ego.Storage.Rows.{set_config}
use cli_control_account.Ego.Storage.Config.{events_of}
use cli_control_account.Ego.Storage.Atomic.{NoFaults, numbered, append_events, insert_batch_quiet}
use cli_control_account.Ego.Worker.{
  Worker, set_enabled, enqueue, flush, add_to_batch, receive, finish, Step, recorded, toggled,
  received, ticked, stop_called, stop_seen, drained, finished, Reach, here, next,
  insert_ignoring_error, store_flag, flag_text,
}
use cli_control_account.Ego.Worker.Runs.{content, sent, accepted, accepted_by}

contents-numbered : (n : ℕ) (es : List EgoEvent) → map content (numbered n es) ≡ map content es
contents-numbered n [] = refl
contents-numbered n (e ∷ es) = ap (λ r. content e ∷ r) (contents-numbered (suc n) es)

module _ {F : Type 0} where
  -- An open storage with an open database.
  abbrev pub IsLive : Option (Storage F) → Type 0
  IsLive p = (s : Storage F) × (db : Db F) × (p ≡ some s) × (s.db ≡ some db) × (db.closed ≡ false)

  -- The accepted events in order: stored, in the batch, in the queue.
  abbrev pub ledger : Worker F → List EgoEvent
  ledger w = map content (events_of w.storage) ++ (map content w.batch ++ map content w.queue)

  module _ (faults : Faults) (quiet : NoFaults faults) where
    insert_eq :
        (es : List EgoEvent) (p : Option (Storage F)) (s : Storage F) (db : Db F)
        → p ≡ some s
        → s.db ≡ some db
        → db.closed ≡ false
        → insert_ignoring_error faults es p ≡ with_db s (append_events db es)
    insert_eq es p s db ep edb live =
        ground (arith, insert_batch_quiet faults es s db edb live quiet)

    insert-IsLive :
        (es : List EgoEvent) (p : Option (Storage F))
        → IsLive p
        → IsLive (insert_ignoring_error faults es p)
    insert-IsLive es p (s, db, ep, edb, live) = (
      record s { db = some (append_events db es) },
      append_events db es,
      insert_eq es p s db ep edb live,
      refl,
      live,
    )

    contents-insert :
        (es : List EgoEvent) (p : Option (Storage F))
        → IsLive p
        → map content (events_of (insert_ignoring_error faults es p))
          ≡ map content (events_of p) ++ map content es
    contents-insert es p (s, db, ep, edb, live) =
        map content (events_of (insert_ignoring_error faults es p))
        ≡⟨ ap (λ q. map content (events_of q)) (insert_eq es p s db ep edb live) ⟩
          map content (db.events ++ numbered db.next_id es)
        ≡⟨ map-append content db.events (numbered db.next_id es) ⟩
          map content db.events ++ map content (numbered db.next_id es)
        ≡⟨ ap (λ r. map content db.events ++ r) (contents-numbered db.next_id es) ⟩
          map content db.events ++ map content es
        ≡⟨ ground arith ⟩ map content (events_of p) ++ map content es ∎

    pub flush-IsLive : (w : Worker F) → IsLive w.storage → IsLive (flush faults w).storage
    unfolding flush
    flush-IsLive w v = elim (Bool-cases (is_empty w.batch)) [
      | inl e ↦ rw (e, flush) v
      | inr e ↦ rw (e, flush) (insert-IsLive w.batch w.storage v)
    ]

    pub ledger-flush : (w : Worker F) → IsLive w.storage → ledger (flush faults w) ≡ ledger w
    unfolding flush
    ledger-flush w v = elim (Bool-cases (is_empty w.batch)) [
      | inl e ↦ rw (e, flush) refl
      | inr e ↦
          rw (e, flush)
            (ap (λ r. r ++ map content w.queue) (contents-insert w.batch w.storage v)
              ∙ append_assoc (map content (events_of w.storage)) (map content w.batch)
                  (map content w.queue))
    ]

    -- The batch with one more event, whose ledger has it at the end of the batch.
    abbrev added : EgoEvent → List EgoEvent → Worker F → Worker F
    added e rest w = record w { queue = rest; batch = w.batch ++ e ∷ [] }

    ledger-added :
        (e : EgoEvent) (rest : List EgoEvent) (w : Worker F)
        → w.queue ≡ e ∷ rest
        → ledger (added e rest w) ≡ ledger w
    ledger-added e rest w q =
        rw (q, map-append content w.batch (e ∷ []))
          (ap (λ r. map content (events_of w.storage) ++ r)
            (append_assoc (map content w.batch) (content e ∷ []) (map content rest)))

    pub receive-IsLive :
        (e : EgoEvent) (rest : List EgoEvent) (w : Worker F)
        → IsLive w.storage
        → IsLive (receive faults e rest w).storage
    unfolding receive add_to_batch
    receive-IsLive e rest w v = elim (Bool-cases (leb w.batch_size (length (w.batch ++ e ∷ [])))) [
      | inl full ↦ rw (full, receive) (flush-IsLive (added e rest w) v)
      | inr room ↦ rw (room, receive) v
    ]

    pub ledger-receive :
        (e : EgoEvent) (rest : List EgoEvent) (w : Worker F)
        → IsLive w.storage
        → w.queue ≡ e ∷ rest
        → ledger (receive faults e rest w) ≡ ledger w
    unfolding receive add_to_batch
    ledger-receive e rest w v q =
        elim (Bool-cases (leb w.batch_size (length (w.batch ++ e ∷ [])))) [
          | inl full ↦
              rw (full, receive) (ledger-flush (added e rest w) v ∙ ledger-added e rest w q)
          | inr room ↦ rw (room, receive) (ledger-added e rest w q)
        ]

    pub enqueue-IsLive :
        (e : EgoEvent) (w : Worker F) → IsLive w.storage → IsLive (enqueue e w).storage
    unfolding enqueue
    enqueue-IsLive e w v = elim (Bool-cases (ltb (length w.queue) w.capacity)) [
      | inl room ↦ rw (room, enqueue) v
      | inr full ↦ rw (full, enqueue) v
    ]

    pub ledger-enqueue : (e : EgoEvent) (w : Worker F) → ledger (enqueue e w) ≡ ledger w ++ sent e w
    unfolding enqueue
    ledger-enqueue e w = elim (Bool-cases (ltb (length w.queue) w.capacity)) [
      | inl room ↦ rw (room, map-append content w.queue (e ∷ [])) (simp append_assoc)
      | inr full ↦ rw full (sym (append-nil (ledger w)))
    ]

    flag_eq :
        (b : Bool) (p : Option (Storage F)) (s : Storage F) (db : Db F)
        → p ≡ some s
        → s.db ≡ some db
        → db.closed ≡ false
        → store_flag faults b p
          ≡ with_db s (record db { config = insert (text "enabled") (flag_text b) db.config })
    unfolding set_config
    flag_eq b p s db ep edb live = ground (arith, quiet exec_sql)

    flag-IsLive : (b : Bool) (p : Option (Storage F)) → IsLive p → IsLive (store_flag faults b p)
    flag-IsLive b p (s, db, ep, edb, live) =
        let db' : Db F = record db { config = insert (text "enabled") (flag_text b) db.config } in
        (record s { db = some db' }, db', flag_eq b p s db ep edb live, refl, live)

    ledger-set_enabled :
        (b : Bool) (w : Worker F) → IsLive w.storage → ledger (set_enabled faults b w) ≡ ledger w
    unfolding set_enabled
    ledger-set_enabled b w (s, db, ep, edb, live) =
        ap (λ q. map content (events_of q) ++ (map content w.batch ++ map content w.queue))
          (flag_eq b w.storage s db ep edb live)
        ∙ ground arith

    Step-IsLive : {w w' : Worker F} → Step faults w w' → IsLive w.storage → IsLive w'.storage
    Step-IsLive {w} (recorded e on eq) v = rw eq (enqueue-IsLive e w v)
    Step-IsLive {w} (toggled b eq) v = rw eq (unfold set_enabled in flag-IsLive b w.storage v)
    Step-IsLive {w} (received e rest p q eq) v = rw eq (receive-IsLive e rest w v)
    Step-IsLive {w} (ticked p eq) v = rw eq (flush-IsLive w v)
    Step-IsLive {w} (stop_called eq) v = rw eq v
    Step-IsLive {w} (stop_seen p s eq) v = rw eq v
    Step-IsLive {w} (drained e rest p q eq) v = rw eq (receive-IsLive e rest w v)
    Step-IsLive {w} (finished p q eq) v = rw eq (unfold finish in flush-IsLive w v)

    ledger-Step :
        {w w' : Worker F} (st : Step faults w w')
        → IsLive w.storage
        → ledger w' ≡ ledger w ++ accepted st
    ledger-Step {w} (recorded e on eq) v = rw eq (ledger-enqueue e w)
    ledger-Step {w} (toggled b eq) v = rw (eq, append-nil (ledger w)) (ledger-set_enabled b w v)
    ledger-Step {w} (received e rest p q eq) v =
        rw (eq, append-nil (ledger w)) (ledger-receive e rest w v q)
    ledger-Step {w} (ticked p eq) v = rw (eq, append-nil (ledger w)) (ledger-flush w v)
    ledger-Step {w} (stop_called eq) v = rw (eq, append-nil (ledger w)) refl
    ledger-Step {w} (stop_seen p s eq) v = rw (eq, append-nil (ledger w)) refl
    ledger-Step {w} (drained e rest p q eq) v =
        rw (eq, append-nil (ledger w)) (ledger-receive e rest w v q)
    ledger-Step {w} (finished p q eq) v =
        rw (eq, append-nil (ledger w)) (unfold finish in ledger-flush w v)

    pub Reach-IsLive : {w w' : Worker F} → Reach faults w w' → IsLive w.storage → IsLive w'.storage
    Reach-IsLive here v = v
    Reach-IsLive (next r st) v = Step-IsLive st (Reach-IsLive r v)

    -- Over an open database whose calls succeed, whatever the interleaving of senders, ticks,
    -- toggles and a stop, the contents of the stored events, the batch and the queue, in this
    -- order, are those at the start followed by the events that the queue had room for, in the
    -- order in which they were sent: no accepted event is lost, stored twice or overtaken.
    pub ledger-Reach :
        {w w' : Worker F} (r : Reach faults w w')
        → IsLive w.storage
        → ledger w' ≡ ledger w ++ accepted_by r
    ledger-Reach {w} here v = sym (append-nil (ledger w))
    ledger-Reach {w} (next r st) v =
        ledger-Step st (Reach-IsLive r v)
        ∙ (ap (λ l. l ++ accepted st) (ledger-Reach r v)
            ∙ append_assoc (ledger w) (accepted_by r) (accepted st))
