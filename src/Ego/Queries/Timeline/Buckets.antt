-- ===== src/Ego/Queries/Timeline/Buckets.antt =====
-- The buckets of the timeline of internal/ego/storage.go: when two events have the same one.
use cli_control_account.Base.{
  ℕ, ◌*◌, ◌<◌, ◌⊎◌, ◌≡◌, refl, ap, subst, Bool, true, false, ◌&&◌, arith, inl, inr,
}
use cli_control_account.Base.Int.{ℤ, pos, ◌+ℤ◌, ◌≤ℤ◌, leb_ℤ, ltb_ℤ, eqb_ℤ, int_laws, +ℤ_parts}
use cli_control_account.Text.Laws.{eq_text_self, eq_text_iff}
use cli_control_account.Ego.Events.{EgoEvent}
use cli_control_account.Ego.Queries.Window.{hour_ms}
use cli_control_account.Ego.Queries.Timeline.{Bucket, at, label, eq_bucket, hour_bucket}
use cli_control_account.Ego.Queries.Timeline.Hours.{hour_bucket_lem}

compare-cases : (i j : ℕ) → (i < j) ⊎ ((i ≡ j) ⊎ (j < i))
compare-cases i j = ground arith

pub eq_bucket_self : (a : Bucket) → eq_bucket a a ≡ true
unfolding eq_bucket
eq_bucket_self (at n) = ground arith
eq_bucket_self (label s) = eq_text_self s

pub eq_bucket_eq : (a b : Bucket) → eq_bucket a b ≡ true → a ≡ b
unfolding eq_bucket
eq_bucket_eq (at n) (at m) h = ap at (ground arith)
eq_bucket_eq (at n) (label t) h = absurd (ground arith)
eq_bucket_eq (label s) (at m) h = absurd (ground arith)
eq_bucket_eq (label s) (label t) h = ap label ((eq_text_iff s t).0 h)

pub eq_bucket_flip : (a b : Bucket) → eq_bucket a b ≡ eq_bucket b a
eq_bucket_flip a b = ground (arith, eq_bucket_eq a b, eq_bucket_eq b a, eq_bucket_self a)

-- The event is in the hour that begins at the given time.
abbrev pub in_hour : ℤ → EgoEvent → Bool
in_hour t e = leb_ℤ t e.timestamp && ltb_ℤ e.timestamp (t +ℤ pos hour_ms)

leb-true : (a b : ℤ) → a ≤ℤ b → leb_ℤ a b ≡ true
leb-true a b h = ground arith

ltb-true : (a b : ℤ) → a +ℤ pos 1 ≤ℤ b → ltb_ℤ a b ≡ true
ltb-true a b h = ground (arith, +ℤ_parts a (pos 1))

leb-false : (a b : ℤ) → b +ℤ pos 1 ≤ℤ a → leb_ℤ a b ≡ false
leb-false a b h = ground (arith, +ℤ_parts b (pos 1))

ltb-false : (a b : ℤ) → b ≤ℤ a → ltb_ℤ a b ≡ false
ltb-false a b h = ground arith

eqb-false : (a b : ℤ) → a +ℤ pos 1 ≤ℤ b → eqb_ℤ a b ≡ false
eqb-false a b h = ground (arith, +ℤ_parts a (pos 1))

eqb_flip : (a b : ℤ) → eqb_ℤ a b ≡ eqb_ℤ b a
eqb_flip a b = ground arith

abbrev hour_start : ℤ → ℕ → ℤ
hour_start start i = start +ℤ pos (i * hour_ms)

-- The i-th and the j-th hour, where t is in the latter.
hours_meet :
    (start t : ℤ) (i j : ℕ)
    → hour_start start j ≤ℤ t
    → t +ℤ pos 1 ≤ℤ hour_start start j +ℤ pos hour_ms
    → eqb_ℤ (hour_start start i) (hour_start start j)
      ≡ (leb_ℤ (hour_start start i) t && ltb_ℤ t (hour_start start i +ℤ pos hour_ms))
hours_meet start t i j l r = elim (compare-cases i j) [
  | inl below ↦
      rw
        (
          eqb-false (hour_start start i) (hour_start start j) (omega int_laws),
          ltb-false t (hour_start start i +ℤ pos hour_ms) (omega int_laws),
        )
        (ground arith)
  | inr (inl same) ↦
      rw (same, leb-true (hour_start start j) t l, ltb-true t (hour_start start j +ℤ pos hour_ms) r)
        (ground arith)
  | inr (inr above) ↦
      rw
        (
          eqb_flip (hour_start start i) (hour_start start j),
          eqb-false (hour_start start j) (hour_start start i) (omega int_laws),
          leb-false (hour_start start i) t (omega int_laws),
        )
        refl
]

-- Two events of the day have the same bucket if the one is in the hour of the other.
pub hour_bucket-in_hour :
    (start : ℤ) (a e : EgoEvent)
    → start ≤ℤ a.timestamp
    → start ≤ℤ e.timestamp
    → eqb_ℤ (hour_bucket start a.timestamp) (hour_bucket start e.timestamp)
      ≡ in_hour (hour_bucket start a.timestamp) e
hour_bucket-in_hour start a e h k =
    let (i, ea, la, ra) = hour_bucket_lem start a.timestamp h in
    let (j, ee, le, re) = hour_bucket_lem start e.timestamp k in
    rw (ea, ee)
      (hours_meet start e.timestamp i j (subst (λ y. y ≤ℤ e.timestamp) ee le)
        (subst (λ y. e.timestamp +ℤ pos 1 ≤ℤ y +ℤ pos hour_ms) ee re))
