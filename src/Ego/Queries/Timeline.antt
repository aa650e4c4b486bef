-- ===== src/Ego/Queries/Timeline.antt =====
-- `getTimeline` of internal/ego/storage.go, with `TimelinePoint` of models.go.
pub mod Hours
pub mod Buckets
pub mod Today
use cli_control_account.Base.{
  ℕ, ◌*◌, List, [], ◌∷◌, ◌++◌, Bool, true, false, Option, none, some, ltb, ◌==◌, if◌then◌else◌,
  length,
}
use cli_control_account.Base.Int.{ℤ, pos, ◌+ℤ◌, ◌-ℤ◌, quot, times, ltb_ℤ, eqb_ℤ}
use cli_control_account.Text.{Text, text, eq_text}
use cli_control_account.Float.{Float}
use cli_control_account.Ego.Events.{EgoEvent}
use cli_control_account.Ego.Storage.Engine.{
  Faults, query, Result, ok, err, ◌>>◌, call, Db, Storage, open_db,
}
use cli_control_account.Ego.Queries.Window.{QueryWindow, selected, hour_ms}
use cli_control_account.Ego.Queries.Groups.{
  count_of, sum_of, every, Group, rows, group_by, order_by,
}
use cli_control_account.Ego.Queries.Figures.{succeeded, is_failed}
use cli_control_account.Ego.Queries.Summary.{min_of}
use cli_control_account.Ego.Queries.Rankings.{ranked, deliver}

-- The functions of SQLite that the bucket expressions call: strftime of a number of seconds with
-- 'unixepoch' and 'localtime', the cast of a text to an integer, printf('%02d'), and an integer as
-- the driver hands it to a string.
pub record SqlFunctions : Type 0 where
  pub strftime : Text → ℤ → Text
  pub to_integer : Text → ℤ
  pub two_digits : ℤ → Text
  pub integer_text : ℤ → Text

-- A value of the bucket column. SQLite puts integers before texts, and texts in the order of their
-- bytes.
pub data Bucket : Type 0 where
  at : ℤ → Bucket
  label : Text → Bucket

pub record TimelinePoint : Type 0 where
  pub time_bucket : Text
  pub timestamp : ℤ
  pub total_requests : ℕ
  pub success_requests : ℕ
  pub failed_requests : ℕ
  pub total_tokens : ℤ
  pub prompt_tokens : ℤ
  pub completion_tokens : ℤ
  pub avg_latency_ms : ℤ

unfoldable pub lt_text : Text → Text → Bool
lt_text s [] = false
lt_text [] (d ∷ t) = true
lt_text (c ∷ s) (d ∷ t) = let later = lt_text s t in if c == d then later else ltb c d

unfoldable pub eq_bucket : Bucket → Bucket → Bool
eq_bucket (at a) (at b) = eqb_ℤ a b
eq_bucket (at a) (label t) = false
eq_bucket (label s) (at b) = false
eq_bucket (label s) (label t) = eq_text s t

unfoldable pub lt_bucket : Bucket → Bucket → Bool
lt_bucket (at a) (at b) = ltb_ℤ a b
lt_bucket (at a) (label t) = true
lt_bucket (label s) (at b) = false
lt_bucket (label s) (label t) = lt_text s t

-- start + ((timestamp - start) / 3600000) * 3600000, where no intermediate leaves 64 bits
unfoldable pub hour_bucket : ℤ → ℤ → ℤ
hour_bucket start timestamp = start +ℤ times (quot (timestamp -ℤ start) hour_ms) hour_ms

-- The bucket expression of a range.
unfoldable pub bucket_of : SqlFunctions → QueryWindow → Text → EgoEvent → Bucket
unfolding hour_bucket
bucket_of sql window time_range e =
    let seconds = quot e.timestamp 1000 in
    let minute = sql.to_integer (sql.strftime (text "%M") seconds) in
    if eq_text time_range (text "1h")
    then label
        (sql.strftime (text "%Y-%m-%d %H:") seconds ++ sql.two_digits (times (quot minute 5) 5))
    else if eq_text time_range (text "24h")
    then label (sql.strftime (text "%Y-%m-%d %H:00") seconds)
    else if eq_text time_range (text "today")
    then at (hour_bucket window.start e.timestamp)
    else label (sql.strftime (text "%Y-%m-%d") seconds)

abbrev pub bucket_text : SqlFunctions → Bucket → Text
bucket_text sql (at a) = sql.integer_text a
bucket_text sql (label s) = s

-- MIN(timestamp), and the bucket itself for today
abbrev pub bucket_time : Bucket → List EgoEvent → ℤ
bucket_time (at a) es = a
bucket_time (label s) es = min_of (λ e. e.timestamp) es

-- CAST(AVG(latency_ms) AS INTEGER) rounds the average towards zero; the average is taken exactly.
unfoldable pub timeline_point : SqlFunctions → QueryWindow → Text → Group → TimelinePoint
unfolding bucket_of
timeline_point sql window time_range g =
    let es = rows g in
    let bucket = bucket_of sql window time_range g.first in
    record {
      time_bucket = bucket_text sql bucket;
      timestamp = bucket_time bucket es;
      total_requests = count_of every es;
      success_requests = count_of succeeded es;
      failed_requests = count_of is_failed es;
      total_tokens = sum_of (λ e. e.total_tokens) es;
      prompt_tokens = sum_of (λ e. e.prompt_tokens) es;
      completion_tokens = sum_of (λ e. e.completion_tokens) es;
      avg_latency_ms = quot (sum_of (λ e. e.latency_ms) es) (length es);
    }

abbrev pub same_bucket : SqlFunctions → QueryWindow → Text → EgoEvent → EgoEvent → Bool
same_bucket sql window time_range a b =
    eq_bucket (bucket_of sql window time_range a) (bucket_of sql window time_range b)

-- ORDER BY bucket ASC
abbrev pub earlier : SqlFunctions → QueryWindow → Text → Group → Group → Bool
earlier sql window time_range a b =
    lt_bucket (bucket_of sql window time_range a.first) (bucket_of sql window time_range b.first)

module _ {F : Type 0} where
  unfoldable pub get_timeline :
      SqlFunctions
      → Faults
      → QueryWindow
      → Text
      → Text
      → Option (Storage F)
      → Result (List TimelinePoint)
  unfolding ranked deliver timeline_point
  get_timeline sql faults window time_range provider p = elim (open_db p) [
    | none ↦ ok []
    | some (s, db) ↦
        call faults db query
        >> deliver faults (timeline_point sql window time_range) (
            ranked (same_bucket sql window time_range) (earlier sql window time_range)
              (selected window provider db.events))
  ]
