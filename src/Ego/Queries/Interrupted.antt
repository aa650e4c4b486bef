-- ===== src/Ego/Queries/Interrupted.antt =====
-- The queries of internal/ego/storage.go when the engine fails while it gives the rows.
use cli_control_account.Base.{◌≡◌, refl, List, [], ◌∷◌, true, false, is_empty, arith}
use cli_control_account.Text.{Text, Unicode}
use cli_control_account.Float.{Float}
use cli_control_account.Ego.Storage.Engine.{
  Faults, query, scan, next_row, rows_err, call_failed, ok, err, Db, Storage, with_db,
}
use cli_control_account.Ego.Queries.Window.{QueryWindow, selected, read_rows_interrupted}
use cli_control_account.Ego.Queries.Groups.{Group, group_by, add_row}
use cli_control_account.Ego.Queries.Summary.{same_model, get_summary}
use cli_control_account.Ego.Queries.Rankings.{
  deliver, get_provider_rankings, get_model_rankings, get_account_rankings,
}
use cli_control_account.Ego.Queries.Timeline.{SqlFunctions, get_timeline}

deliver_interrupted {ℓ} :
    {R : Type ℓ} (faults : Faults) (row : Group → R) (gs : List Group)
    → faults (next_row 0) ≡ true
    → deliver faults row gs ≡ ok []
unfolding deliver
deliver_interrupted faults row gs h = rw (read_rows_interrupted faults 0 gs h) refl

is_empty-add_row : (same : _) (e : _) (gs : List Group) → is_empty (add_row same e gs) ≡ false
unfolding add_row
is_empty-add_row same e [] = refl
is_empty-add_row same e (g ∷ gs) = ground arith

is_empty-group_by : (same : _) (es : _) → is_empty (group_by same es) ≡ is_empty es
unfolding group_by
is_empty-group_by same [] = refl
is_empty-group_by same (e ∷ es) = is_empty-add_row same e (group_by same es)

module _ {F : Type 0} ⦃fl : Float F⦄ ⦃u : Unicode⦄ where
  -- If the queries themselves succeed and the engine fails on the way to the first row, the
  -- timeline and the three rankings are returned empty and without an error, where the summary of
  -- a window that has events reports the failure.
  pub interrupted_queries :
      (sql : SqlFunctions) (faults : Faults) (window : QueryWindow) (time_range provider : Text)
      (s : Storage F) (db : Db F)
      → db.closed ≡ false
      → faults query ≡ false
      → faults (scan 0) ≡ false
      → faults (next_row 0) ≡ true
      → is_empty (selected window provider db.events) ≡ false
      → (get_timeline sql faults window time_range provider (with_db s db) ≡ ok [])
        × (get_provider_rankings faults window (with_db s db) ≡ ok [])
        × (get_model_rankings faults window provider (with_db s db) ≡ ok [])
        × (get_account_rankings faults window provider (with_db s db) ≡ ok [])
        × (get_summary faults faults window provider (with_db s db) ≡ err (call_failed rows_err))
  unfolding get_timeline get_provider_rankings get_model_rankings get_account_rankings get_summary
  interrupted_queries sql faults window time_range provider s db live asked scanned lost some' =
      let es = selected window provider db.events in
      (
        rw (live, asked) (deliver_interrupted faults _ _ lost),
        rw (live, asked) (deliver_interrupted faults _ _ lost),
        rw (live, asked) (deliver_interrupted faults _ _ lost),
        rw (live, asked) (deliver_interrupted faults _ _ lost),
        rw
            (
              live,
              asked,
              scanned,
              read_rows_interrupted faults 0 (group_by same_model es) lost,
              is_empty-group_by same_model es,
              some',
            )
            refl,
      )
