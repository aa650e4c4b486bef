-- ===== src/Ego/Queries/Timeline/Today.antt =====
-- Today's timeline of internal/ego/storage.go counts every event of an hour in the point of the hour.
use cli_control_account.Base.{
  ◌≡◌, refl, ap, subst, ◌∙◌, List, [], ◌∷◌, Bool, true, false, ◌&&◌, arith, keep, map, All,
  All-keep, Bool-cases, inl, inr, length,
}
use cli_control_account.Base.Int.{◌≤ℤ◌, quot}
use cli_control_account.Text.{Text, text, eq_text}
use cli_control_account.Ego.Events.{EgoEvent}
use cli_control_account.Ego.Queries.Window.{QueryWindow, selected, in_window, of_provider}
use cli_control_account.Ego.Queries.Groups.{
  Group, rows, group_by, order_by, count_of, sum_of, every,
}
use cli_control_account.Ego.Queries.Groups.Exact.{
  IsExact, group_by-IsExact, All-Permᴰ, sum_of-Permᴰ, count_of-Permᴰ, length-Permᴰ,
}
use cli_control_account.Ego.Queries.Timeline.{
  SqlFunctions, TimelinePoint, eq_bucket, bucket_of, hour_bucket, same_bucket, timeline_point,
  earlier, get_timeline,
}
use mathlib.Core.List.{Permᴰ}
use cli_control_account.Ego.Queries.Figures.{succeeded, is_failed}
use cli_control_account.Ego.Storage.Engine.{Faults, query, ok, Db, Storage, with_db}
use cli_control_account.Ego.Storage.Atomic.{NoFaults}
use cli_control_account.Ego.Queries.Groups.Sums.{
  total, total-group_by, total-order_by, All-order_by,
}
use cli_control_account.Ego.Queries.Rankings.{ranked}
use cli_control_account.Ego.Queries.Rankings.Totals.{total-map, deliver-NoFaults}
use cli_control_account.Ego.Queries.Timeline.Buckets.{
  eq_bucket_self, eq_bucket_eq, eq_bucket_flip, in_hour, hour_bucket-in_hour,
}

module _ (sql : SqlFunctions) (window : QueryWindow) where
  abbrev same_hour : EgoEvent → EgoEvent → Bool
  same_hour = same_bucket sql window (text "today")

  keep-in_hour :
      (a : EgoEvent) (es : List EgoEvent)
      → window.start ≤ℤ a.timestamp
      → All (λ e. window.start ≤ℤ e.timestamp) es
      → keep (same_hour a) es ≡ keep (in_hour (hour_bucket window.start a.timestamp)) es
  unfolding bucket_of eq_bucket eq_text
  keep-in_hour a [] h hs = refl
  keep-in_hour a (e ∷ es) h hs =
      rw (hour_bucket-in_hour window.start a e h hs.0, keep-in_hour a es h hs.1) refl

  same_hour_self : (e : EgoEvent) → same_hour e e ≡ true
  same_hour_self e = eq_bucket_self (bucket_of sql window (text "today") e)

  same_hour_flip : (a b : EgoEvent) → same_hour a b ≡ same_hour b a
  same_hour_flip a b =
      eq_bucket_flip (bucket_of sql window (text "today") a) (bucket_of sql window (text "today") b)

  same_hour_follow : (a b c : EgoEvent) → same_hour a b ≡ true → same_hour c a ≡ same_hour c b
  same_hour_follow a b c h = ap (eq_bucket (bucket_of sql window (text "today") c)) (
      eq_bucket_eq (bucket_of sql window (text "today") a) (bucket_of sql window (text "today") b)
        h)

  -- The figures of a point are those of the events in the hour that begins at its time.
  pub record CountsHour (es : List EgoEvent) (pt : TimelinePoint) : Type 0 where
    pub requests : pt.total_requests ≡ count_of every (keep (in_hour pt.timestamp) es)
    pub succeeded_requests :
        pt.success_requests ≡ count_of succeeded (keep (in_hour pt.timestamp) es)
    pub failed_requests : pt.failed_requests ≡ count_of is_failed (keep (in_hour pt.timestamp) es)
    pub tokens : pt.total_tokens ≡ sum_of (λ e. e.total_tokens) (keep (in_hour pt.timestamp) es)
    pub prompts : pt.prompt_tokens ≡ sum_of (λ e. e.prompt_tokens) (keep (in_hour pt.timestamp) es)
    pub completions :
        pt.completion_tokens ≡ sum_of (λ e. e.completion_tokens) (keep (in_hour pt.timestamp) es)
    pub latency :
        pt.avg_latency_ms
        ≡ quot
            (sum_of (λ e. e.latency_ms) (keep (in_hour pt.timestamp) es))
            (length (keep (in_hour pt.timestamp) es))

  abbrev IsHourly : List EgoEvent → Group → Type 0
  IsHourly = IsExact same_hour same_hour_self same_hour_flip same_hour_follow

  timeline_point-CountsHour :
      (es : List EgoEvent) (g : Group)
      → All (λ e. window.start ≤ℤ e.timestamp) es
      → IsHourly es g
      → CountsHour es (timeline_point sql window (text "today") g)
  unfolding timeline_point bucket_of eq_text
  timeline_point-CountsHour es g hs exact =
      let first' : window.start ≤ℤ g.first.timestamp =
        (All-Permᴰ (λ e. window.start ≤ℤ e.timestamp) exact
          (All-keep (λ e. window.start ≤ℤ e.timestamp) (same_hour g.first) es hs)).0 in
      let mine : Permᴰ (rows g) (keep (in_hour (hour_bucket window.start g.first.timestamp)) es) =
        subst (Permᴰ (rows g)) (keep-in_hour g.first es first' hs) exact in
      record {
        requests = count_of-Permᴰ every mine;
        succeeded_requests = count_of-Permᴰ succeeded mine;
        failed_requests = count_of-Permᴰ is_failed mine;
        tokens = sum_of-Permᴰ (λ e. e.total_tokens) mine;
        prompts = sum_of-Permᴰ (λ e. e.prompt_tokens) mine;
        completions = sum_of-Permᴰ (λ e. e.completion_tokens) mine;
        latency =
            ap (λ s. quot s (length (rows g))) (sum_of-Permᴰ (λ e. e.latency_ms) mine)
            ∙ ap (quot (sum_of (λ e. e.latency_ms) _)) (length-Permᴰ mine);
      }

  selected_late :
      (provider : Text) (es : List EgoEvent)
      → All (λ e. window.start ≤ℤ e.timestamp) (selected window provider es)
  unfolding selected
  selected_late provider [] = tt
  selected_late provider (e ∷ es) =
      elim (Bool-cases (in_window window e && of_provider provider e)) [
        | inl y ↦ rw y (ground arith, selected_late provider es)
        | inr n ↦ rw n (selected_late provider es)
      ]

  groups-CountsHour :
      (es : List EgoEvent) (gs : List Group)
      → All (λ e. window.start ≤ℤ e.timestamp) es
      → All (IsHourly es) gs
      → All (CountsHour es) (map (timeline_point sql window (text "today")) gs)
  groups-CountsHour es [] hs h = tt
  groups-CountsHour es (g ∷ gs) hs h =
      (timeline_point-CountsHour es g hs h.0, groups-CountsHour es gs hs h.1)

  total_requests-timeline_point :
      (gs : List Group)
      → total (λ pt. pt.total_requests) (map (timeline_point sql window (text "today")) gs)
        ≡ total (λ g. count_of every (rows g)) gs
  unfolding timeline_point
  total_requests-timeline_point gs =
      total-map (λ pt. pt.total_requests) (timeline_point sql window (text "today")) gs

module _ {F : Type 0} where
  -- On an open database without failures, today's timeline is returned, each of its points has the
  -- counts, the tokens and the average latency of exactly the selected events in the hour that
  -- begins at the point's time, and the points count every selected event once.
  pub get_timeline_today :
      (sql : SqlFunctions) (faults : Faults) (window : QueryWindow) (provider : Text)
      (s : Storage F) (db : Db F)
      → NoFaults faults
      → db.closed ≡ false
      → (pts : List TimelinePoint) × (get_timeline sql faults window
            (text "today")
            provider
            (with_db s db)
          ≡ ok pts)
        × All (CountsHour sql window (selected window provider db.events)) pts
        × (total (λ pt. pt.total_requests) pts
            ≡ count_of every (selected window provider db.events))
  unfolding get_timeline ranked
  get_timeline_today sql faults window provider s db quiet live =
      let es : List EgoEvent = selected window provider db.events in
      let same = same_hour sql window in
      let before = earlier sql window (text "today") in
      let gs : List Group = group_by same es in
      (
        map (timeline_point sql window (text "today")) (order_by before gs),
        rw (quiet query, live)
            (deliver-NoFaults faults quiet (timeline_point sql window (text "today"))
              (order_by before gs)),
        groups-CountsHour sql window es (order_by before gs)
            (selected_late sql window provider db.events)
            (All-order_by before (IsHourly sql window es) gs (
              group_by-IsExact same (same_hour_self sql window) (same_hour_flip sql window)
                (same_hour_follow sql window) es)),
        total_requests-timeline_point sql window (order_by before gs)
            ∙ total-order_by before (λ g. count_of every (rows g)) gs
            ∙ total-group_by same every es,
      )
