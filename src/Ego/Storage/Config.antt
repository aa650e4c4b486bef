-- ===== src/Ego/Storage/Config.antt =====
-- Settings, pruning and the reset of internal/ego/storage.go.
use cli_control_account.Base.{
  ℕ, ◌+◌, ◌≡◌, refl, ◌⊎◌, inl, inr, ◌||◌, ◌-◌, List, [], ◌∷◌, Bool, false, not, Option, none, some,
  arith, if◌then◌else◌, length, keep, All, Bool-cases, length-keep-le,
}
use cli_control_account.Base.Int.{ℤ, pos, ltb_ℤ, leb_ℤ, ◌≤ℤ◌}
use cli_control_account.Text.{Text, eq_text}
use cli_control_account.TextMap.{lookup-insert}
use cli_control_account.Ego.Events.{EgoEvent}
use cli_control_account.Ego.Storage.Engine.{
  exec_sql, query, days_not_positive, call_failed, Faults, StorageError, ok, err, Db, Storage,
  open_db, with_db,
}
use cli_control_account.Ego.Storage.Rows.{get_config, set_config, prune_older_than}

module _ {F : Type 0} where
  -- After a setting was written, its key reads back as the value and every other key as before,
  -- as far as the reads succeed.
  pub get_config-set_config :
      (faults reading : Faults) (key key' val default_val : Text) (s : Storage F) (db : Db F)
      → s.db ≡ some db
      → (set_config faults key val (some s)).0 ≡ ok tt
      → reading query ≡ false
      → get_config reading key' default_val (set_config faults key val (some s)).1
        ≡ (if eq_text key key' then val else get_config reading key' default_val (some s))
  unfolding get_config set_config
  get_config-set_config faults reading key key' val default_val s db h written quiet =
      ground (arith, lookup-insert key key' val db.config)

  abbrev pub events_of : Option (Storage F) → List EgoEvent
  events_of p = elim (open_db p) [ none ↦ [] | some (s, db) ↦ db.events ]

abbrev pub is_recent : ℤ → EgoEvent → Bool
is_recent cutoff e = not (ltb_ℤ e.timestamp cutoff)

keep_recent-All :
    (cutoff : ℤ) (es : List EgoEvent)
    → All (λ e. cutoff ≤ℤ e.timestamp) (keep (is_recent cutoff) es)
keep_recent-All cutoff [] = tt
keep_recent-All cutoff (e ∷ es) = elim (Bool-cases (is_recent cutoff e)) [
  | inl y ↦ rw y (ground arith, keep_recent-All cutoff es)
  | inr n ↦ rw n (keep_recent-All cutoff es)
]

keep_idem :
    (cutoff : ℤ) (es : List EgoEvent)
    → keep (is_recent cutoff) (keep (is_recent cutoff) es) ≡ keep (is_recent cutoff) es
keep_idem cutoff [] = refl
keep_idem cutoff (e ∷ es) = elim (Bool-cases (is_recent cutoff e)) [
  | inl y ↦ rw (y, y, keep_idem cutoff es)
  | inr n ↦ rw n (keep_idem cutoff es)
]

module _ {F : Type 0} where
  module _ (days_ago : ℤ → ℤ) (faults : Faults) (days : ℤ) (s : Storage F) (db : Db F)
      (h : s.db ≡ some db) where
    abbrev kept : List EgoEvent
    kept = keep (is_recent (days_ago days)) db.events

    pruned :
        leb_ℤ days (pos 0) ≡ false
        → (faults exec_sql || db.closed) ≡ false
        → prune_older_than days_ago faults days (some s)
          ≡ (ok (length db.events - length kept), with_db s (record db { events = kept }))
    unfolding prune_older_than
    pruned positive quiet = ground arith

    -- Pruning an open storage either fails and changes nothing, or the days are positive and it
    -- leaves no event older than the cutoff, keeps every event that is not, in order, and reports
    -- how many rows it deleted.
    pub prune_older_than_lem :
        let (result, after) = prune_older_than days_ago faults days (some s) in
        ((e : StorageError) × (result ≡ err e) × (after ≡ some s))
        ⊎ ((n : ℕ) × (result ≡ ok n)
            × (pos 1 ≤ℤ days)
            × (n + length (events_of after) ≡ length db.events)
            × All (λ e. days_ago days ≤ℤ e.timestamp) (events_of after)
            × (keep (is_recent (days_ago days)) (events_of after)
                ≡ keep (is_recent (days_ago days)) db.events))
    prune_older_than_lem = elim (Bool-cases (leb_ℤ days (pos 0))) [
      | inl low ↦ inl (
        days_not_positive,
        unfold prune_older_than in ground arith,
        unfold prune_older_than in ground arith,
      )
      | inr positive ↦ elim (Bool-cases (faults exec_sql || db.closed)) [
        | inl fault ↦ inl (
          call_failed exec_sql,
          unfold prune_older_than in ground arith,
          unfold prune_older_than in ground arith,
        )
        | inr quiet ↦ rw (pruned positive quiet) (
            inr (
              length db.events - length kept,
              refl,
              ground arith,
              omega (arith, length-keep-le (is_recent (days_ago days)) db.events),
              keep_recent-All (days_ago days) db.events,
              keep_idem (days_ago days) db.events,
            ))
      ]
    ]
