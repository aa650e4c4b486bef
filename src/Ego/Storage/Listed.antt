-- ===== src/Ego/Storage/Listed.antt =====
-- Every model of the embedded list has its price once internal/ego/storage.go has opened a storage.
use cli_control_account.Base.{
  ℕ, suc, ◌≡◌, ◌≢◌, List, [], ◌∷◌, true, Option, some, arith, Bool-cases, inl, inr, Option-cases,
  if◌then◌else◌, is_empty,
}
use cli_control_account.Base.Int.{ℤ}
use cli_control_account.Text.{Text, eq_text}
use cli_control_account.Text.Laws.{eq_text_iff}
use cli_control_account.TextMap.{TextMap, lookup, insert, lookup-insert}
use cli_control_account.Ego.Pricing.{ModelPricing}
use cli_control_account.Ego.Storage.Engine.{Faults, exec_rows, ok, Result-cases, Db, Storage}
use cli_control_account.Ego.Storage.Prices.{
  seed_pricing, source_from, cache_row, load_rows, load_pricing_cache_locked, init_pricing,
}
use cli_control_account.Ego.Storage.Open.{
  open_storage, System, default_database_path, data_source_name,
}
use cli_control_account.Ego.Storage.Rates.{open_storage-IsPinned}

module _ {F : Type 0} where
  -- The key has an entry.
  abbrev pub HasKey : Text → TextMap (ModelPricing F) → Type 0
  HasKey k m = (p : ModelPricing F) × (lookup k m ≡ some p)

  abbrev HasKeysOf : TextMap (ModelPricing F) → TextMap (ModelPricing F) → Type 0
  HasKeysOf source table = (k : Text) → HasKey k source → HasKey k table

  insert-HasKey :
      (k j : Text) (p : ModelPricing F) (m : TextMap (ModelPricing F))
      → HasKey k m
      → HasKey k (insert j p m)
  insert-HasKey k j p m (q, h) = elim (Bool-cases (eq_text j k)) [
    | inl same ↦ (p, ground (arith, lookup-insert j k p m))
    | inr other ↦ (q, ground (arith, lookup-insert j k p m))
  ]

  insert_both :
      (j : Text) (p q : ModelPricing F) (source table : TextMap (ModelPricing F))
      → HasKeysOf source table
      → HasKeysOf (insert j p source) (insert j q table)
  insert_both j p q source table h k (r, found) = elim (Bool-cases (eq_text j k)) [
    | inl same ↦ (q, ground (arith, lookup-insert j k q table))
    | inr other ↦
        let (r', found') = h k (r, ground (arith, lookup-insert j k p source)) in
        (r', ground (arith, lookup-insert j k q table))
  ]

  no_key : (k : Text) (p : ModelPricing F) → lookup k [] ≢ some p
  unfolding lookup
  no_key k p h = ground arith

  same_entry :
      {o : Option (ModelPricing F)} {p q : ModelPricing F} → o ≡ some p → o ≡ some q → p ≡ q
  same_entry h k = ground arith

  -- The seed writes a row for every model.
  seed-HasKeysOf :
      (now : ℤ) (faults : Faults) (i : ℕ) (models : List (ModelPricing F))
      (source : TextMap (ModelPricing F)) (db : Db F) {out : Db F}
      → HasKeysOf source db.pricing
      → exec_rows faults i (seed_pricing now) models db ≡ ok out
      → HasKeysOf (source_from source models) out.pricing
  unfolding exec_rows source_from seed_pricing
  seed-HasKeysOf now faults i [] source db {out} h e =
      let same : db ≡ out = ground arith in rw (← same) h
  seed-HasKeysOf now faults i (p ∷ ps) source db {out} h e =
      seed-HasKeysOf now faults (suc i) ps (insert p.model p source) (seed_pricing now db p)
        {out = out} (insert_both p.model p (record p { updated_at = now }) source db.pricing h)
        (ground arith)

  cache_row-HasKey :
      (source cache : TextMap (ModelPricing F)) (j : Text) (row : ModelPricing F) (k : Text)
      → HasKey k cache
      → HasKey k (cache_row source cache j row)
  unfolding cache_row
  cache_row-HasKey source cache j row k h = elim (Option-cases (lookup j source)) [
    | inl absent ↦ rw (absent, cache_row) h
    | inr (q, present) ↦
        rw (present, cache_row)
          (insert-HasKey k j (record q { updated_at = row.updated_at }) cache h)
  ]

  cache_row_listed :
      (source cache : TextMap (ModelPricing F)) (j : Text) (row : ModelPricing F) (k : Text)
      → eq_text j k ≡ true
      → HasKey k source
      → HasKey k (cache_row source cache j row)
  unfolding cache_row
  cache_row_listed source cache j row k same (q, price_list) =
      let here : lookup j source ≡ some q = ground (arith, eq_text_iff j k) in
      let entry : ModelPricing F = record q { updated_at = row.updated_at } in
      rw (here, cache_row) (entry, ground (arith, lookup-insert j k entry cache))

  load_rows-HasKey :
      (faults : Faults) (i : ℕ) (source cache rows : TextMap (ModelPricing F))
      {out : TextMap (ModelPricing F)} (k : Text)
      → HasKey k cache
      → load_rows faults i source cache rows ≡ ok out
      → HasKey k out
  unfolding load_rows
  load_rows-HasKey faults i source cache [] {out} k h e =
      let same : cache ≡ out = ground arith in rw (← same) h
  load_rows-HasKey faults i source cache ((j, row) ∷ rows) {out} k h e =
      load_rows-HasKey faults (suc i) source (cache_row source cache j row) rows {out = out} k
        (cache_row-HasKey source cache j row k h) (ground arith)

  -- A key of the source with a row in the table gets into the cache.
  load_rows_listed :
      (faults : Faults) (i : ℕ) (source cache rows : TextMap (ModelPricing F))
      {out : TextMap (ModelPricing F)} (k : Text)
      → HasKey k source
      → HasKey k rows
      → load_rows faults i source cache rows ≡ ok out
      → HasKey k out
  unfolding load_rows lookup
  load_rows_listed faults i source cache [] k price_list (p, found) e = absurd (ground arith)
  load_rows_listed faults i source cache ((j, row) ∷ rows) {out} k price_list (p, found) e =
      elim (Bool-cases (eq_text j k)) [
        | inl same ↦
            load_rows-HasKey faults (suc i) source (cache_row source cache j row) rows {out = out} k
              (cache_row_listed source cache j row k same price_list) (ground arith)
        | inr other ↦
            load_rows_listed faults (suc i) source (cache_row source cache j row) rows {out = out} k
              price_list (p, ground arith) (ground arith)
      ]

  module _ (models : List (ModelPricing F)) where
    abbrev pub price_list : TextMap (ModelPricing F)
    price_list = source_from [] models

    load_pricing_cache_locked_listed :
        (faults : Faults) (db : Db F) {out : TextMap (ModelPricing F)}
        → HasKeysOf price_list db.pricing
        → load_pricing_cache_locked faults (some models) db ≡ ok out
        → HasKeysOf price_list out
    unfolding load_pricing_cache_locked
    load_pricing_cache_locked_listed faults db {out} h e k known =
        elim (Result-cases (load_rows faults 0 price_list [] db.pricing)) [
          | inl (cache, loaded) ↦
              let same : cache ≡ out = ground arith in
              rw (← same)
                (load_rows_listed faults 0 price_list [] db.pricing k known (h k known) loaded)
          | inr (e', failed) ↦ absurd (ground arith)
        ]

    init_pricing_listed :
        (now : ℤ) (faults : Faults) (s₀ s : Storage F) (db : Db F)
        → init_pricing now faults (some models) s₀ db ≡ ok s
        → HasKeysOf price_list s.pricing_cache
    unfolding init_pricing
    init_pricing_listed now faults s₀ s db h =
        elim (Result-cases (exec_rows faults 0 (seed_pricing now) models db)) [
          | inr (e, failed) ↦ absurd (ground arith)
          | inl (seeded, wrote) ↦
              elim (Result-cases (load_pricing_cache_locked faults (some models) seeded)) [
                | inr (e, failed) ↦ absurd (ground arith)
                | inl (cache, loaded) ↦
                    let same : cache ≡ s.pricing_cache = ground arith in
                    rw (← same) (
                      load_pricing_cache_locked_listed faults seeded
                        (seed-HasKeysOf now faults 0 models [] db
                          (λ k (p, found). absurd (no_key k p found)) wrote)
                        loaded)
              ]
        ]

    open_storage-HasKey :
        (now : ℤ) (faults : Faults) (sys : System F) (given : Text) (s : Storage F)
        → open_storage now faults (some models) sys given ≡ ok s
        → HasKeysOf price_list s.pricing_cache
    unfolding open_storage
    open_storage-HasKey now faults sys given s h =
        let path = if is_empty given then default_database_path sys else given in
        elim (Option-cases (sys.open_source (data_source_name sys.memory_name path))) [
          | inl failed ↦ absurd (ground arith)
          | inr (db, found) ↦
              init_pricing_listed now faults
                (record { db = some db; db_path = path; pricing_cache = [] }) s db (ground arith)
        ]

    -- A storage that was opened, on whatever database, has the price of every model of the embedded
    -- list in its cache, with the rates that the list gives last for that model.
    pub open_storage_listed :
        (now : ℤ) (faults : Faults) (sys : System F) (given : Text) (s : Storage F) (k : Text)
        (q : ModelPricing F)
        → open_storage now faults (some models) sys given ≡ ok s
        → lookup k price_list ≡ some q
        → (p : ModelPricing F) × (lookup k s.pricing_cache ≡ some p)
          × (p ≡ record q { updated_at = p.updated_at })
    open_storage_listed now faults sys given s k q h known =
        let (p, found) = open_storage-HasKey now faults sys given s h k (q, known) in
        let (q', known', rates) =
          (open_storage-IsPinned models now faults sys given s h).at k p found in
        (p, found, rw (same_entry known known') rates)
