-- ===== src/Models/Quota/Usage.antt =====
-- The share and the time that are left of a quota, in internal/models/quota.go.
use cli_control_account.Base.{ℕ, ◌-◌, ◌^◌, ◌≤◌, ◌<◌, ◌≡◌, false, arith}
use cli_control_account.Base.Int.{pos}
use cli_control_account.Float.{Float, FloatLaws}
use cli_control_account.Models.Quota.{QuotaWindow, hundred, usage_percentage, time_until_reset}

-- A usage is at most 100 percent, however far the use exceeds the limit.
pub usage_percentage_le :
    {F : Type 0} ⦃fl : Float F⦄ (laws : FloatLaws fl) (qw : QuotaWindow)
    → fl.lt hundred (usage_percentage qw) ≡ false
unfolding usage_percentage
usage_percentage_le laws qw =
    ground (arith, laws.of_int_mono (pos 0) (pos 100) (omega arith), laws.le_refl hundred)

-- The time until the reset is zero once the reset has passed or is not set; before it, it is the
-- time up to the reset, or the largest duration where that does not fit 63 bits.
pub time_until_reset_lem :
    (qw : QuotaWindow) (now : ℕ)
    → (time_until_reset qw now < 2 ^ 63)
      × (time_until_reset qw now ≤ qw.reset_at - now)
      × (1 ≤ qw.reset_at → qw.reset_at - now < 2 ^ 63 → time_until_reset qw now ≡ qw.reset_at - now)
unfolding time_until_reset
time_until_reset_lem qw now = (ground arith, ground arith, λ h k. ground arith)
