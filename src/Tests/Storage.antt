-- ===== src/Tests/Storage.antt =====
-- internal/ego/storage.go at work.
use cli_control_account.Base.{
  ℕ, zero, suc, ◌+◌, ◌≡◌, refl, ◌⊎◌, List, [], ◌∷◌, true, false, some, length, keep, All,
}
use cli_control_account.Base.Int.{ℤ, pos, ◌≤ℤ◌}
use cli_control_account.Text.{text, eq_text, contains, has_prefix}
use cli_control_account.TextMap.{lookup, insert}
use cli_control_account.Ego.Pricing.{ModelPricing}
use cli_control_account.Ego.Storage.Engine.{
  exec_stmt, call_failed, ok, err, Faults, StorageError, Db, Storage, with_db, exec_rows,
}
use cli_control_account.Ego.Storage.Rows.{insert_batch, prune_older_than}
use cli_control_account.Ego.Storage.Prices.{
  upsert_pricing_batch, load_rows, source_from, cache_row, seed_pricing, get_pricing,
}
use cli_control_account.Ego.Storage.Open.{open_storage}
use cli_control_account.Ego.Storage.Atomic.{append_events, insert_batch_atomic}
use cli_control_account.Ego.Storage.Listed.{open_storage_listed}
use cli_control_account.Ego.Storage.Config.{prune_older_than_lem, events_of, is_recent}
use cli_control_account.Ego.Storage.Rates.{
  IsPinned, upsert_pricing_batch-IsPinned, open_storage-IsPinned,
}
use cli_control_account.Ego.Storage.Exposed.{IsListed, get_pricing-IsListed}
use cli_control_account.Tests.Fixtures.{
  plain_unicode, whole_float, price, event_at, no_faults, two_events, storage_of, system_of,
}

-- The second insert of a batch fails: nothing is stored.
abbrev second_fails : Faults
second_fails (exec_stmt n) = elim n [ zero ↦ false | suc k ↦ true ]
second_fails c = false

failed_batch_test :
    insert_batch second_fails (event_at 20 ∷ event_at 21 ∷ []) (some (storage_of two_events))
    ≡ (err (call_failed (exec_stmt 1)), some (storage_of two_events))
unfolding insert_batch exec_rows
failed_batch_test = refl

insert_batch_atomic_example :
    let (result, after) =
      insert_batch no_faults (event_at 20 ∷ []) (some (storage_of two_events)) in
    ((result ≡ ok tt)
      × (after ≡ with_db (storage_of two_events) (append_events two_events (event_at 20 ∷ []))))
    ⊎ ((e : StorageError) × (result ≡ err e) × (after ≡ some (storage_of two_events)))
insert_batch_atomic_example =
    insert_batch_atomic no_faults (event_at 20 ∷ []) (storage_of two_events) two_events refl

-- The cutoff of a pruning by n days, where the present is day 10 and a day is one unit.
abbrev day_count : ℤ → ℤ
day_count n = pos 7

prune_older_than_lem_example :
    let (result, after) =
      prune_older_than day_count no_faults (pos 3) (some (storage_of two_events)) in
    ((e : StorageError) × (result ≡ err e) × (after ≡ some (storage_of two_events)))
    ⊎ ((n : ℕ) × (result ≡ ok n)
        × (pos 1 ≤ℤ pos 3)
        × (n + length (events_of after) ≡ length two_events.events)
        × All (λ e. pos 7 ≤ℤ e.timestamp) (events_of after)
        × (keep (is_recent (pos 7)) (events_of after) ≡ keep (is_recent (pos 7)) two_events.events))
prune_older_than_lem_example =
    prune_older_than_lem day_count no_faults (pos 3) (storage_of two_events) two_events refl

-- An older version left a tariff of its own in the table.
abbrev stale_db : Db ℕ
stale_db = record two_events {
  pricing =
      (text "gpt-4o", price (text "gpt-4o") 99 99) ∷ (text "house", price (text "house") 1 1) ∷ [];
}

abbrev sample_list : List (ModelPricing ℕ)
sample_list = price (text "gpt-4o") 2 8 ∷ []

abbrev opened_storage : Storage ℕ
opened_storage = record {
  db = some (record stale_db {
    pricing =
        (text "gpt-4o", record (price (text "gpt-4o") 2 8) { updated_at = pos 1 })
        ∷ (text "house", price (text "house") 1 1)
        ∷ [];
  });
  db_path = text "plugins/ego.db";
  pricing_cache = (text "gpt-4o", record (price (text "gpt-4o") 2 8) { updated_at = pos 1 }) ∷ [];
}

opens :
    open_storage (pos 1) no_faults (some sample_list) (system_of stale_db) [] ≡ ok opened_storage
unfolding open_storage insert lookup eq_text contains has_prefix exec_rows seed_pricing load_rows
    cache_row source_from
opens = refl

open_storage-IsPinned_example : IsPinned sample_list (some opened_storage)
open_storage-IsPinned_example =
    open_storage-IsPinned sample_list (pos 1) no_faults (system_of stale_db) [] opened_storage opens

abbrev gpt_4o : ModelPricing ℕ
gpt_4o = price (text "gpt-4o") 2 8

open_storage_listed_example :
    (p : ModelPricing ℕ) × (lookup (text "gpt-4o") opened_storage.pricing_cache ≡ some p)
    × (p ≡ record gpt_4o { updated_at = p.updated_at })
unfolding source_from insert lookup eq_text
open_storage_listed_example =
    open_storage_listed sample_list (pos 1) no_faults (system_of stale_db) [] opened_storage
      (text "gpt-4o") gpt_4o opens refl

upsert_pricing_batch-IsPinned_example :
    IsPinned sample_list
      (upsert_pricing_batch
        (pos 2)
        no_faults
        (some sample_list)
        (price (text "gpt-4o") 50 50 ∷ [])
        (some opened_storage)).1
upsert_pricing_batch-IsPinned_example =
    upsert_pricing_batch-IsPinned sample_list (pos 2) no_faults (price (text "gpt-4o") 50 50 ∷ [])
      (some opened_storage)
      (open_storage-IsPinned sample_list (pos 1) no_faults (system_of stale_db) [] opened_storage
        opens)

get_pricing-IsListed_example :
    IsListed sample_list (text "gpt-4o") (get_pricing (text "gpt-4o") (some opened_storage))
get_pricing-IsListed_example =
    get_pricing-IsListed sample_list (text "gpt-4o") (some opened_storage) (
      open_storage-IsPinned sample_list (pos 1) no_faults (system_of stale_db) [] opened_storage
        opens)
