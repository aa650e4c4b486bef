-- ===== src/Ego/Queries/Timeline/Hours.antt =====
-- The hours of today in the timeline of internal/ego/storage.go.
use cli_control_account.Base.{ℕ, ◌+◌, ◌-◌, ◌*◌, ◌/◌, ◌≡◌, refl, arith}
use cli_control_account.Base.Int.{
  ℤ, pos, ◌+ℤ◌, ◌-ℤ◌, ◌≤ℤ◌, pos_part, neg_part, quot, times, int_laws,
}
use cli_control_account.Ego.Queries.Window.{hour_ms}
use cli_control_account.Ego.Queries.Timeline.{hour_bucket}

unfoldable difference : (a b : ℤ) → a ≤ℤ b → (n : ℕ) × (b -ℤ a ≡ pos n)
unfolding ◌-ℤ◌
difference a b h = (pos_part b + neg_part a - (pos_part a + neg_part b), ground arith)

-- An event that is not before the start of the day lands in the hour, counted from that start,
-- which has the event in it.
pub hour_bucket_lem :
    (start timestamp : ℤ)
    → start ≤ℤ timestamp
    → (hours : ℕ) × (hour_bucket start timestamp ≡ start +ℤ pos (hours * hour_ms))
      × (hour_bucket start timestamp ≤ℤ timestamp)
      × (timestamp +ℤ pos 1 ≤ℤ hour_bucket start timestamp +ℤ pos hour_ms)
unfolding hour_bucket quot times ◌+ℤ◌ difference
hour_bucket_lem start timestamp h =
    let (n, e) = difference start timestamp h in
    rw e (n / hour_ms, refl, omega int_laws, omega int_laws)
