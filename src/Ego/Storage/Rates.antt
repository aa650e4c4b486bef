-- ===== src/Ego/Storage/Rates.antt =====
-- The prices that internal/ego/storage.go exposes are those of the embedded list.
use cli_control_account.Base.{
  ℕ, suc, ◌≡◌, refl, inl, inr, List, [], ◌∷◌, Option, none, some, arith, if◌then◌else◌, is_empty,
  Bool-cases, Option-cases,
}
use cli_control_account.Base.Int.{ℤ}
use cli_control_account.Text.{Text, eq_text}
use cli_control_account.Text.Laws.{eq_text_iff}
use cli_control_account.TextMap.{TextMap, lookup, lookup-insert}
use cli_control_account.Ego.Pricing.{ModelPricing}
use cli_control_account.Ego.Storage.Engine.{
  Faults, storage_nil, exec_rows, transaction, Result, ok, err, Result-cases, Db, Storage,
}
use cli_control_account.Ego.Storage.Prices.{
  seed_pricing, upsert_pricing, source_from, cache_row, load_rows, load_pricing_cache_locked,
  upsert_pricing_batch, init_pricing, with_cache, upserted,
}
use cli_control_account.Ego.Storage.Open.{
  open_storage, System, default_database_path, data_source_name,
}

module _ {F : Type 0} where
  -- The price is that of the source under the key, but for the time of the row.
  abbrev pub IsSourced : TextMap (ModelPricing F) → Text → ModelPricing F → Type 0
  IsSourced source k p =
      (q : ModelPricing F) × (lookup k source ≡ some q)
      × (p ≡ record q { updated_at = p.updated_at })

  pub record IsVerified (source cache : TextMap (ModelPricing F)) : Type 0 where
    pub at : (k : Text) (p : ModelPricing F) → lookup k cache ≡ some p → IsSourced source k p

  pub IsVerified-nil : (source : TextMap (ModelPricing F)) → IsVerified source []
  IsVerified-nil source = record { at = λ k p h. unfold lookup in cc }

  cache_row-IsVerified :
      (source cache : TextMap (ModelPricing F)) (k : Text) (row : ModelPricing F)
      → IsVerified source cache
      → IsVerified source (cache_row source cache k row)
  unfolding cache_row
  cache_row-IsVerified source cache k row v = elim (Option-cases (lookup k source)) [
    | inl absent ↦ rw (absent, cache_row) v
    | inr (q, present) ↦
        let entry : ModelPricing F = record q { updated_at = row.updated_at } in
        rw (present, cache_row)
          (record {
            at = λ j p h. elim (Bool-cases (eq_text k j)) [
              | inl same ↦ (
                q,
                ground (arith, eq_text_iff k j),
                ground (arith, lookup-insert k j entry cache),
              )
              | inr other ↦ v.at j p (ground (arith, lookup-insert k j entry cache))
            ];
          })
  ]

  load_rows-IsVerified :
      (faults : Faults) (i : ℕ) (source cache rows : TextMap (ModelPricing F))
      {out : TextMap (ModelPricing F)}
      → IsVerified source cache
      → load_rows faults i source cache rows ≡ ok out
      → IsVerified source out
  unfolding load_rows
  load_rows-IsVerified faults i source cache [] {out} v h =
      let same : cache ≡ out = ground arith in rw (← same) v
  load_rows-IsVerified faults i source cache ((k, row) ∷ rows) v h =
      load_rows-IsVerified faults (suc i) source (cache_row source cache k row) rows
        (cache_row-IsVerified source cache k row v) (ground arith)

  module _ (models : List (ModelPricing F)) where
    load_pricing_cache_locked-IsVerified :
        (faults : Faults) (db : Db F) {out : TextMap (ModelPricing F)}
        → load_pricing_cache_locked faults (some models) db ≡ ok out
        → IsVerified (source_from [] models) out
    unfolding load_pricing_cache_locked
    load_pricing_cache_locked-IsVerified faults db {out} h =
        elim (Result-cases (load_rows faults 0 (source_from [] models) [] db.pricing)) [
          | inl (cache, loaded) ↦
              let same : cache ≡ out = ground arith in
              rw (← same) (
                load_rows-IsVerified faults 0 (source_from [] models) [] db.pricing
                  (IsVerified-nil (source_from [] models)) loaded)
          | inr (e, failed) ↦ absurd (ground arith)
        ]

    -- Every price in the cache of a storage is pinned to the embedded list.
    abbrev pub IsPinned : Option (Storage F) → Type 0
    IsPinned none = Unit
    IsPinned (some s) = IsVerified (source_from [] models) s.pricing_cache

    with_cache-IsPinned :
        (s : Storage F) (db : Db F) (r : Result (TextMap (ModelPricing F)))
        → IsVerified (source_from [] models) s.pricing_cache
        → ((out : TextMap (ModelPricing F)) → r ≡ ok out → IsVerified (source_from [] models) out)
        → IsPinned (with_cache s db r).1
    with_cache-IsPinned s db (ok cache) v new = new cache refl
    with_cache-IsPinned s db (err e) v new = v

    upserted-IsPinned :
        (faults : Faults) (s : Storage F) (r : Result (Db F))
        → IsVerified (source_from [] models) s.pricing_cache
        → IsPinned (upserted faults (some models) s r).1
    upserted-IsPinned faults s (err e) v = v
    upserted-IsPinned faults s (ok db) v =
        with_cache-IsPinned s db (load_pricing_cache_locked faults (some models) db) v
          (λ out h. load_pricing_cache_locked-IsVerified faults db h)

    module _ (now : ℤ) (faults : Faults) (x : ModelPricing F) (xs : List (ModelPricing F))
        (s : Storage F) where
      upsert_without_db :
          s.db ≡ none
          → upsert_pricing_batch now faults (some models) (x ∷ xs) (some s)
            ≡ (err storage_nil, some s)
      unfolding upsert_pricing_batch
      upsert_without_db h = ground arith

      upsert_with_db :
          (db : Db F)
          → s.db ≡ some db
          → upsert_pricing_batch now faults (some models) (x ∷ xs) (some s)
            ≡ upserted faults (some models) s (transaction faults (upsert_pricing now) (x ∷ xs) db)
      unfolding upsert_pricing_batch
      upsert_with_db db h = ground arith

    upsert_nothing :
        (now : ℤ) (faults : Faults) (s : Storage F)
        → (upsert_pricing_batch now faults (some models) [] (some s)).1 ≡ some s
    unfolding upsert_pricing_batch
    upsert_nothing now faults s = ground arith

    -- Upserting any batch of prices, whatever calls of the database fail, leaves every price in
    -- the cache pinned: its key is in the embedded list, and its rates are the ones of that list.
    pub upsert_pricing_batch-IsPinned :
        (now : ℤ) (faults : Faults) (batch : List (ModelPricing F)) (p : Option (Storage F))
        → IsPinned p
        → IsPinned (upsert_pricing_batch now faults (some models) batch p).1
    upsert_pricing_batch-IsPinned now faults batch none v = unfold upsert_pricing_batch in tt
    upsert_pricing_batch-IsPinned now faults [] (some s) v = rw (upsert_nothing now faults s) v
    upsert_pricing_batch-IsPinned now faults (x ∷ xs) (some s) v = elim (Option-cases s.db) [
      | inl closed ↦ rw (upsert_without_db now faults x xs s closed) v
      | inr (db, h) ↦
          rw (upsert_with_db now faults x xs s db h)
            (upserted-IsPinned faults s (transaction faults (upsert_pricing now) (x ∷ xs) db) v)
    ]

    init_pricing-IsPinned :
        (now : ℤ) (faults : Faults) (s₀ s : Storage F) (db : Db F)
        → init_pricing now faults (some models) s₀ db ≡ ok s
        → IsPinned (some s)
    unfolding init_pricing
    init_pricing-IsPinned now faults s₀ s db h =
        elim (Result-cases (exec_rows faults 0 (seed_pricing now) models db)) [
          | inr (e, failed) ↦ absurd (ground arith)
          | inl (seeded, wrote) ↦
              elim (Result-cases (load_pricing_cache_locked faults (some models) seeded)) [
                | inr (e, failed) ↦ absurd (ground arith)
                | inl (cache, loaded) ↦
                    let same : cache ≡ s.pricing_cache = ground arith in
                    rw (← same) (load_pricing_cache_locked-IsVerified faults seeded loaded)
              ]
        ]

    -- A storage that was opened, on whatever database, has a pinned cache: prices that an older
    -- version or another program left in the table are not exposed.
    pub open_storage-IsPinned :
        (now : ℤ) (faults : Faults) (sys : System F) (given : Text) (s : Storage F)
        → open_storage now faults (some models) sys given ≡ ok s
        → IsPinned (some s)
    unfolding open_storage
    open_storage-IsPinned now faults sys given s h =
        let path = if is_empty given then default_database_path sys else given in
        elim (Option-cases (sys.open_source (data_source_name sys.memory_name path))) [
          | inl failed ↦ absurd (ground arith)
          | inr (db, found) ↦
              init_pricing-IsPinned now faults
                (record { db = some db; db_path = path; pricing_cache = [] }) s db (ground arith)
        ]
