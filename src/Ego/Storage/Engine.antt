-- ===== src/Ego/Storage/Engine.antt =====
-- The state behind internal/ego/storage.go and the way it calls the database. A table is the list
-- of its rows, and a call of the database engine may fail as the parameter `Faults` says. Each
-- method of the storage runs under its lock, so it is one step here.
use cli_control_account.Base.{
  ◌≡◌, refl, ◌⊎◌, inl, inr, ℕ, suc, List, [], ◌∷◌, Bool, true, false, ◌||◌, Option, none, some,
  if◌then◌else◌, arith,
}
use cli_control_account.Text.{Text}
use cli_control_account.TextMap.{TextMap}
use cli_control_account.Ego.Pricing.{ModelPricing}
use cli_control_account.Ego.Events.{EgoEvent}

-- The calls of the database engine that an operation makes; the n-th execution of a prepared
-- statement and the n-th row of a result have numbers, where `next_row` is the step of the engine to the row.
pub data DbCall : Type 0 where
  begin_tx prepare commit exec_sql query rows_err : DbCall
  exec_stmt scan next_row : ℕ → DbCall

abbrev pub Faults : Type 0
Faults = DbCall → Bool

pub data StorageError : Type 0 where
  storage_nil days_not_positive embedded_unreadable mkdir_failed open_failed stat_failed :
      StorageError
  call_failed : DbCall → StorageError

pub data Result {ℓ} (A : Type ℓ) : Type ℓ where
  err : StorageError → Result A
  ok : A → Result A

pub Result-cases {ℓ} :
    {A : Type ℓ} (r : Result A) → ((a : A) × (r ≡ ok a)) ⊎ ((e : StorageError) × (r ≡ err e))
Result-cases (ok a) = inl (a, refl)
Result-cases (err e) = inr (e, refl)

infixl 5 ◌>>=◌ ◌>>◌
abbrev pub ◌>>=◌ {ℓ κ} : {A : Type ℓ} {B : Type κ} → Result A → (A → Result B) → Result B
err e >>= next = err e
ok value >>= next = next value

abbrev pub ◌>>◌ {ℓ} : {B : Type ℓ} → Result (Unit {0}) → Result B → Result B
m >> k = m >>= λ _. k

-- Fails with the given error if the test says so.
abbrev pub fail_if : Bool → StorageError → Result (Unit {0})
fail_if true e = err e
fail_if false e = ok tt

-- A chain that succeeds has both its parts succeed.
pub bind_ok {ℓ κ} :
    {A : Type ℓ} {B : Type κ} (m : Result A) (f : A → Result B) {b : B}
    → m >>= f ≡ ok b
    → (a : A) × (m ≡ ok a) × (f a ≡ ok b)
bind_ok (ok a) f h = (a, refl, h)
bind_ok (err e) f h = ground arith

-- The tables ego_events, ego_config and ego_pricing; `next_id` is the AUTOINCREMENT counter.
pub record Db (F : Type 0) : Type 0 where
  pub events : List EgoEvent
  pub next_id : ℕ
  pub config : TextMap Text
  pub pricing : TextMap (ModelPricing F)
  pub closed : Bool

pub record Storage (F : Type 0) : Type 0 where
  pub db : Option (Db F)
  pub db_path : Text
  pub pricing_cache : TextMap (ModelPricing F)

module _ {F : Type 0} where
  -- A call on a closed database fails.
  abbrev pub call : Faults → Db F → DbCall → Result (Unit {0})
  call faults db c = fail_if (faults c || db.closed) (call_failed c)

  -- `s == nil || s.db == nil`
  abbrev pub open_db : Option (Storage F) → Option (Storage F × Db F)
  open_db none = none
  open_db (some s) = elim s.db [ none ↦ none | some db ↦ some (s, db) ]

  abbrev pub with_db : Storage F → Db F → Option (Storage F)
  with_db s db = some (record s { db = some db })

  -- The loop of stmt.Exec over the rows of a batch.
  unfoldable pub exec_rows {ℓ} :
      {A : Type ℓ} → Faults → ℕ → (Db F → A → Db F) → List A → Db F → Result (Db F)
  exec_rows faults i write [] db = ok db
  exec_rows faults i write (x ∷ xs) db =
      let rest = exec_rows faults (suc i) write xs (write db x) in
      if faults (exec_stmt i) || db.closed then err (call_failed (exec_stmt i)) else rest

  -- Begin, Prepare, the executions and Commit. What a transaction wrote is dropped by the deferred
  -- Rollback unless it commits, so an error carries no database.
  unfoldable pub transaction {ℓ} :
      {A : Type ℓ} → Faults → (Db F → A → Db F) → List A → Db F → Result (Db F)
  transaction faults write rows db = do
    call faults db begin_tx
    call faults db prepare
    written ← exec_rows faults 0 write rows db
    call faults db commit
    ok written

  abbrev pub stored : Storage F → Result (Db F) → Result (Unit {0}) × Option (Storage F)
  stored s (ok db) = (ok tt, with_db s db)
  stored s (err e) = (err e, some s)
