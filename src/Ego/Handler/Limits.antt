-- ===== src/Ego/Handler/Limits.antt =====
-- The bounds of today's window and of a pruning, in internal/ego/handler.go.
use cli_control_account.Base.{◌≡◌, ◌-◌, ◌^◌, [], ◌∷◌, Bool, true, some, arith, ◌*◌}
use cli_control_account.Base.Int.{ℤ, pos, negsuc, ◌≤ℤ◌, ◌+ℤ◌, int_laws}
use cli_control_account.Base.Word.{sub64, sub64_pos}
use cli_control_account.Text.{Text, text, eq_text}
use cli_control_account.Text.Laws.{eq_text_self}
use cli_control_account.Text.Number.{parse_int}
use cli_control_account.Ego.Queries.Window.{QueryWindow, hour_ms}
use cli_control_account.Ego.Handler.{Request, Env, today_window, read_window, prune_days}

-- A number that was parsed fits 64 bits.
pub parse_int_le : (s : Text) → (parse_int s).0 ≤ℤ pos (2 ^ 63 - 1)
unfolding parse_int
parse_int_le [] = ground arith
parse_int_le (c ∷ s) = ground arith

sub64_le :
    (start end n : ℤ)
    → end ≤ℤ pos (2 ^ 63 - 1)
    → pos 1 ≤ℤ start
    → start ≤ℤ end
    → sub64 end start ≤ℤ n
    → end ≤ℤ start +ℤ n
sub64_le (pos a) (pos b) n h k l m =
    let m' = rw (sub64_pos b a (omega arith) (omega arith)) at m in omega int_laws
sub64_le (negsuc a) end n h k l m = absurd (omega arith)
sub64_le (pos a) (negsuc b) n h k l m = absurd (omega arith)

-- Today's window: in order, and at most 26 hours long.
abbrev pub IsToday : QueryWindow → Type 0
IsToday w =
    (pos 1 ≤ℤ w.start) × (w.start +ℤ pos 1 ≤ℤ w.end) × (w.end ≤ℤ w.start +ℤ pos (26 * hour_ms))

today_window-IsToday :
    (start end : ℤ) (start_ok end_ok : Bool) (w : QueryWindow)
    → end ≤ℤ pos (2 ^ 63 - 1)
    → today_window (start, start_ok) (end, end_ok) ≡ some w
    → IsToday w
unfolding today_window
today_window-IsToday start end start_ok end_ok w h k =
    let no_overflow = sub64_le start end (pos (26 * hour_ms)) h in grind (int_laws, no_overflow)

-- A window that is accepted for the range `today` starts after the epoch, ends after it starts, and
-- at most 26 hours later.
pub read_window-IsToday :
    (now : ℤ) (req : Request) (w : QueryWindow)
    → req.query (text "range") ≡ text "today"
    → read_window now req ≡ some w
    → IsToday w
unfolding read_window
read_window-IsToday now req w h k =
    let today : eq_text (req.query (text "range")) (text "today") ≡ true =
      rw h (eq_text_self (text "today")) in
    let start = parse_int (req.query (text "start")) in
    let end = parse_int (req.query (text "end")) in
    today_window-IsToday start.0 end.0 start.1 end.1 w (parse_int_le (req.query (text "end")))
      (rw today at k)

-- A pruning always asks for a positive number of days.
pub prune_days_pos : (env : Env) (req : Request) → pos 1 ≤ℤ prune_days env req
unfolding prune_days
prune_days_pos env req = ground arith
