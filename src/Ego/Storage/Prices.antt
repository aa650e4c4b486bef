-- ===== src/Ego/Storage/Prices.antt =====
-- The price table of internal/ego/storage.go and the cache over it.
use cli_control_account.Base.{
  ℕ, suc, List, [], ◌∷◌, Option, none, some, if◌then◌else◌, is_empty, map,
}
use cli_control_account.Base.Int.{ℤ, pos, eqb_ℤ}
use cli_control_account.Text.{Text, Unicode}
use cli_control_account.TextMap.{TextMap, lookup, insert}
use cli_control_account.Float.{Float}
use cli_control_account.Ego.Pricing.{ModelPricing, unpriced, find_model_pricing}
use cli_control_account.Ego.Storage.Engine.{
  begin_tx, prepare, commit, query, rows_err, scan, Faults, storage_nil, embedded_unreadable,
  call_failed, Result, ok, err, ◌>>=◌, ◌>>◌, fail_if, Db, Storage, call, open_db, with_db,
  exec_rows, transaction,
}

-- The list of getEmbeddedPricing, `none` for its error.
abbrev pub Embedded : Type 0 → Type 0
Embedded F = Option (List (ModelPricing F))

module _ {F : Type 0} where
  -- INSERT … ON CONFLICT(model) DO UPDATE: the row of a model is written or replaced.
  unfoldable pub upsert_pricing : ℤ → Db F → ModelPricing F → Db F
  upsert_pricing now db p =
      let updated = if eqb_ℤ p.updated_at (pos 0) then now else p.updated_at in
      record db { pricing = insert p.model (record p { updated_at = updated }) db.pricing }

  -- source[p.Model] = p for every embedded entry, onto a map
  unfoldable pub source_from :
      TextMap (ModelPricing F) → List (ModelPricing F) → TextMap (ModelPricing F)
  source_from source [] = source
  source_from source (p ∷ ps) = source_from (insert p.model p source) ps

  -- A row enters the cache only under a key of the source, with the rates of the source.
  unfoldable pub cache_row :
      TextMap (ModelPricing F)
      → TextMap (ModelPricing F)
      → Text
      → ModelPricing F
      → TextMap (ModelPricing F)
  cache_row source cache k row = elim (lookup k source) [
    | none ↦ cache
    | some verified ↦ insert k (record verified { updated_at = row.updated_at }) cache
  ]

  -- The loop over the rows of ego_pricing.
  unfoldable pub load_rows :
      Faults
      → ℕ
      → TextMap (ModelPricing F)
      → TextMap (ModelPricing F)
      → TextMap (ModelPricing F)
      → Result (TextMap (ModelPricing F))
  load_rows faults i source cache [] = ok cache
  load_rows faults i source cache ((k, row) ∷ rows) =
      let rest = load_rows faults (suc i) source (cache_row source cache k row) rows in
      if faults (scan i) then err (call_failed (scan i)) else rest

  abbrev pub or_unreadable : Embedded F → Result (List (ModelPricing F))
  or_unreadable none = err embedded_unreadable
  or_unreadable (some models) = ok models

  unfoldable pub load_pricing_cache_locked :
      Faults → Embedded F → Db F → Result (TextMap (ModelPricing F))
  unfolding load_rows source_from
  load_pricing_cache_locked faults embedded db = do
    call faults db query
    models ← or_unreadable embedded
    cache ← load_rows faults 0 (source_from [] models) [] db.pricing
    fail_if (faults rows_err) (call_failed rows_err)
    ok cache

  abbrev pub with_cache :
      Storage F → Db F → Result (TextMap (ModelPricing F)) → Result (Unit {0}) × Option (Storage F)
  with_cache s db (ok cache) = (ok tt, some (record s { db = some db; pricing_cache = cache }))
  with_cache s db (err e) = (err e, with_db s db)

  -- The upsert is committed before the cache is loaded, and stays if that fails.
  abbrev pub upserted :
      Faults → Embedded F → Storage F → Result (Db F) → Result (Unit {0}) × Option (Storage F)
  upserted faults embedded s (err e) = (err e, some s)
  upserted faults embedded s (ok db) =
      with_cache s db (load_pricing_cache_locked faults embedded db)

  unfoldable pub upsert_pricing_batch :
      ℤ
      → Faults
      → Embedded F
      → List (ModelPricing F)
      → Option (Storage F)
      → Result (Unit {0}) × Option (Storage F)
  unfolding transaction load_pricing_cache_locked upsert_pricing
  upsert_pricing_batch now faults embedded pricing p = elim (open_db p) [
    | none ↦ (err storage_nil, p)
    | some (s, db) ↦
        if is_empty pricing
        then (ok tt, p)
        else upserted faults embedded s (transaction faults (upsert_pricing now) pricing db)
  ]

  -- The seed of initPricing: every row gets the time of the start.
  unfoldable pub seed_pricing : ℤ → Db F → ModelPricing F → Db F
  seed_pricing now db p = record db {
    pricing = insert p.model (record p { updated_at = now }) db.pricing;
  }

  unfoldable pub init_pricing : ℤ → Faults → Embedded F → Storage F → Db F → Result (Storage F)
  unfolding exec_rows load_pricing_cache_locked seed_pricing
  init_pricing now faults embedded s db = do
    call faults db begin_tx
    call faults db prepare
    models ← or_unreadable embedded
    seeded ← exec_rows faults 0 (seed_pricing now) models db
    call faults db commit
    cache ← load_pricing_cache_locked faults embedded seeded
    ok (record s { db = some seeded; pricing_cache = cache })

module _ {F : Type 0} ⦃fl : Float F⦄ ⦃u : Unicode⦄ where
  unfoldable pub get_pricing : Text → Option (Storage F) → ModelPricing F
  get_pricing model none = unpriced model
  get_pricing model (some s) = (find_model_pricing s.pricing_cache model).0

module _ {F : Type 0} where
  unfoldable pub get_all_pricing : Option (Storage F) → List (ModelPricing F)
  get_all_pricing none = []
  get_all_pricing (some s) = map (λ e. e.1) s.pricing_cache
