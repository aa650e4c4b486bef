-- ===== src/Ego/Queries/Window.antt =====
-- The time window and the provider filter of the queries of internal/ego/storage.go.
use cli_control_account.Base.{
  ◌≡◌, refl, sym, ap, ◌∙◌, arith, ℕ, suc, ◌*◌, List, [], ◌∷◌, Bool, true, false, ◌&&◌, ◌||◌, keep,
  is_empty, take, not, if◌then◌else◌,
}
use cli_control_account.Base.Int.{ℤ, pos, ltb_ℤ, leb_ℤ, eqb_ℤ}
use cli_control_account.Base.Word.{sub64}
use cli_control_account.Text.{Text, text, eq_text}
use cli_control_account.Ego.Events.{EgoEvent}
use cli_control_account.Ego.Storage.Engine.{
  Faults, DbCall, Result, ok, err, call_failed, next_row, scan,
}

-- A zero end is no upper bound.
pub record QueryWindow : Type 0 where
  pub start : ℤ
  pub end : ℤ

abbrev pub hour_ms : ℕ
hour_ms = 3_600_000

abbrev pub day_ms : ℕ
day_ms = 24 * hour_ms

unfoldable pub calculate_min_timestamp : ℤ → Text → ℤ
calculate_min_timestamp now time_range =
    if eq_text time_range (text "1h")
    then sub64 now (pos hour_ms)
    else if eq_text time_range (text "24h")
    then sub64 now (pos day_ms)
    else if eq_text time_range (text "7d")
    then sub64 now (pos (7 * day_ms))
    else if eq_text time_range (text "30d")
    then sub64 now (pos (30 * day_ms))
    else if eq_text time_range (text "all")
    then pos 0
    else sub64 now (pos day_ms)

unfoldable pub legacy_window : ℤ → Text → QueryWindow
unfolding calculate_min_timestamp
legacy_window now time_range = record {
  start = calculate_min_timestamp now time_range;
  end = pos 0;
}

-- timestamp >= start, and timestamp < end if there is an end
abbrev pub in_window : QueryWindow → EgoEvent → Bool
in_window w e = leb_ℤ w.start e.timestamp && (eqb_ℤ w.end (pos 0) || ltb_ℤ e.timestamp w.end)

-- provider = ?, unless the filter is empty or "all"
abbrev pub of_provider : Text → EgoEvent → Bool
of_provider provider e =
    (is_empty provider || eq_text provider (text "all")) || eq_text e.provider provider

unfoldable pub selected : QueryWindow → Text → List EgoEvent → List EgoEvent
selected w provider = keep (λ e. in_window w e && of_provider provider e)

-- One turn of a loop over `rows.Next`, given whether the engine fails on the way to the row,
-- whether scanning row i fails, and what the rest of the loop gives.
unfoldable pub read_row {ℓ} :
    {A : Type ℓ} → Bool → Bool → ℕ → A → Result (List A × Bool) → Result (List A × Bool)
read_row true scan_fails i x rest = ok ([], true)
read_row false true i x rest = err (call_failed (scan i))
read_row false false i x (ok (ys, broken)) = ok (x ∷ ys, broken)
read_row false false i x (err e) = err e

-- The rows that `rows.Next` and `rows.Scan` deliver from row i on, and whether the engine failed
-- in between, which ends the loop and is reported by rows.Err alone.
unfoldable pub read_rows {ℓ} : {A : Type ℓ} → Faults → ℕ → List A → Result (List A × Bool)
unfolding read_row
read_rows faults i [] = ok ([], false)
read_rows faults i (x ∷ xs) =
    read_row (faults (next_row i)) (faults (scan i)) i x (read_rows faults (suc i) xs)

unfoldable rows_read {ℓ} : {A : Type ℓ} → Result (List A × Bool) → List A
rows_read (ok (xs, broken)) = xs
rows_read (err e) = []

read_row_whole {ℓ} :
    {A : Type ℓ} (f g : Bool) (i : ℕ) (x : A) (xs : List A) (rest : Result (List A × Bool))
    {ys : List A}
    → ((zs : List A) → rest ≡ ok (zs, false) → zs ≡ xs)
    → read_row f g i x rest ≡ ok (ys, false)
    → ys ≡ x ∷ xs
unfolding read_row rows_read
read_row_whole true g i x xs rest ih h = ground arith
read_row_whole false true i x xs rest ih h = ground arith
read_row_whole false false i x xs (ok (zs, true)) ih h = ground arith
read_row_whole false false i x xs (ok (zs, false)) ih h =
    sym (ap rows_read h) ∙ ap (λ z. x ∷ z) (ih zs refl)
read_row_whole false false i x xs (err e) ih h = ground arith

-- A loop that no failure of the engine cut short has read every row.
pub read_rows_whole {ℓ} :
    {A : Type ℓ} (faults : Faults) (i : ℕ) (xs : List A) {ys : List A}
    → read_rows faults i xs ≡ ok (ys, false)
    → ys ≡ xs
unfolding read_rows
read_rows_whole faults i [] h = ground arith
read_rows_whole faults i (x ∷ xs) h =
    read_row_whole (faults (next_row i)) (faults (scan i)) i x xs (read_rows faults (suc i) xs)
      (λ zs k. read_rows_whole faults (suc i) xs k) h

read_row_prefix {ℓ} :
    {A : Type ℓ} (f g : Bool) (i : ℕ) (x : A) (xs : List A) (rest : Result (List A × Bool))
    {ys : List A} {b : Bool}
    → ((zs : List A) (c : Bool) → rest ≡ ok (zs, c) → (k : ℕ) × (zs ≡ take k xs))
    → read_row f g i x rest ≡ ok (ys, b)
    → (k : ℕ) × (ys ≡ take k (x ∷ xs))
unfolding read_row rows_read
read_row_prefix true g i x xs rest ih h = (0, sym (ap rows_read h))
read_row_prefix false true i x xs rest ih h = ground arith
read_row_prefix false false i x xs (ok (zs, c)) ih h =
    let (k, e) = ih zs c refl in (suc k, sym (ap rows_read h) ∙ ap (λ z. x ∷ z) e)
read_row_prefix false false i x xs (err e) ih h = ground arith

-- The rows that a loop has read are the first ones of the result.
pub read_rows_prefix {ℓ} :
    {A : Type ℓ} (faults : Faults) (i : ℕ) (xs : List A) {ys : List A} {b : Bool}
    → read_rows faults i xs ≡ ok (ys, b)
    → (k : ℕ) × (ys ≡ take k xs)
unfolding read_rows rows_read
read_rows_prefix faults i [] h = (0, sym (ap rows_read h))
read_rows_prefix faults i (x ∷ xs) h =
    read_row_prefix (faults (next_row i)) (faults (scan i)) i x xs (read_rows faults (suc i) xs)
      (λ zs c k. read_rows_prefix faults (suc i) xs k) h

-- Without failures, a loop reads every row.
pub read_rows_no_faults {ℓ} :
    {A : Type ℓ} (faults : Faults) (quiet : (c : DbCall) → faults c ≡ false) (i : ℕ) (xs : List A)
    → read_rows faults i xs ≡ ok (xs, false)
unfolding read_rows read_row
read_rows_no_faults faults quiet i [] = refl
read_rows_no_faults faults quiet i (x ∷ xs) =
    rw (quiet (next_row i), quiet (scan i), read_rows_no_faults faults quiet (suc i) xs) refl

-- If the engine fails before the first row, a loop reads none, and reports no error by itself.
pub read_rows_interrupted {ℓ} :
    {A : Type ℓ} (faults : Faults) (i : ℕ) (xs : List A)
    → faults (next_row i) ≡ true
    → read_rows faults i xs ≡ ok ([], not (is_empty xs))
unfolding read_rows read_row
read_rows_interrupted faults i [] h = refl
read_rows_interrupted faults i (x ∷ xs) h = rw h refl
