-- ===== src/Ego/Queries/Figures.antt =====
-- The averages and rates that the queries of internal/ego/storage.go report. Sums of a column are
-- taken to fit 64 bits, where SQLite would fail.
use cli_control_account.Base.{ℕ, List, Bool, if◌then◌else◌, ltb, length, ◌==◌}
use cli_control_account.Base.Int.{ℤ, pos, leb_ℤ, ltb_ℤ}
use cli_control_account.Text.{text, eq_text}
use cli_control_account.Float.{Float, zero_f}
use cli_control_account.Ego.Events.{EgoEvent}
use cli_control_account.Ego.Queries.Groups.{sum_of}

abbrev pub succeeded : EgoEvent → Bool
succeeded e = eq_text e.status (text "success")

abbrev pub is_failed : EgoEvent → Bool
is_failed e = eq_text e.status (text "failed")

-- CASE WHEN gen_ms > 0 THEN 1 ELSE 0 END
abbrev pub is_sample : EgoEvent → Bool
is_sample e = ltb_ℤ (pos 0) e.gen_ms

module _ {F : Type 0} ⦃fl : Float F⦄ where
  -- math.Round(x*k) / d
  abbrev pub rounded : ℕ → ℕ → F → F
  rounded k d x = fl.div (fl.round (fl.mul x (fl.of_int (pos k)))) (fl.of_int (pos d))

  unfoldable pub weighted_tps : ℤ → ℤ → F
  weighted_tps gen_tokens gen_ms =
      if leb_ℤ gen_ms (pos 0)
      then zero_f
      else rounded 10 10
          (fl.div (fl.mul (fl.of_int gen_tokens) (fl.of_int (pos 1000))) (fl.of_int gen_ms))

  -- COALESCE(AVG(column), 0.0)
  unfoldable pub average : (EgoEvent → ℤ) → List EgoEvent → F
  average f es =
      if length es == 0
      then zero_f
      else fl.div (fl.of_int (sum_of f es)) (fl.of_int (pos (length es)))

  -- The percentage of the successes, to one decimal; zero without requests.
  unfoldable pub success_rate : ℕ → ℕ → F
  success_rate success requests =
      if ltb 0 requests
      then rounded 1000 10 (fl.div (fl.of_int (pos success)) (fl.of_int (pos requests)))
      else zero_f
