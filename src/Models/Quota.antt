-- ===== src/Models/Quota.antt =====
-- internal/models/quota.go: providers, quota windows and accounts. An instant is its nanoseconds
-- after the zero time, and a duration is a 64-bit number of them.
pub mod Prefix
pub mod Usage
pub mod Filter
use cli_control_account.Base.{
  ℕ, ◌-◌, ◌^◌, List, [], ◌∷◌, Bool, true, false, not, ◌||◌, ltb, if◌then◌else◌, is_empty, any, keep,
  ◌==◌,
}
use cli_control_account.Base.Int.{ℤ, pos, leb_ℤ, ltb_ℤ, ◌-ℤ◌}
use cli_control_account.Text.{
  Text, text, eq_text, Unicode, to_lower, trim_space, equal_fold, text_fields, join,
}
use cli_control_account.Float.{Float, zero_f}

pub record QuotaWindow : Type 0 where
  pub limit : ℤ
  pub used : ℤ
  pub remaining : ℤ
  pub reset_at : ℕ
  pub window_seconds : ℤ

pub record AccountQuota : Type 0 where
  pub id : Text
  pub name : Text
  pub provider : Text
  pub prefix : Text
  pub status : Text
  pub priority : ℤ
  pub quota : QuotaWindow
  pub updated_at : ℕ

pub record QuotaSummary : Type 0 where
  pub total_accounts : ℤ
  pub active_accounts : ℤ
  pub accounts : List AccountQuota
  pub generated_at : ℕ

abbrev pub provider_types : List Text
provider_types =
    text "all" ∷ text "antigravity" ∷ text "claude" ∷ text "codex" ∷ text "kimi" ∷ text "xai" ∷ []

-- Durations stop at the largest 64-bit number, as Time.Sub has it.
unfoldable pub time_until_reset : QuotaWindow → ℕ → ℕ
time_until_reset qw now =
    let left = qw.reset_at - now in
    if (qw.reset_at == 0) || ltb qw.reset_at now
    then 0
    else if ltb left (2 ^ 63)
    then left
    else 2 ^ 63 - 1

module _ {F : Type 0} ⦃fl : Float F⦄ where
  abbrev pub hundred : F
  hundred = fl.of_int (pos 100)

  unfoldable pub usage_percentage : QuotaWindow → F
  usage_percentage qw =
      let pct = fl.mul (fl.div (fl.of_int qw.used) (fl.of_int qw.limit)) hundred in
      if leb_ℤ qw.limit (pos 0)
      then zero_f
      else if leb_ℤ qw.used (pos 0)
      then zero_f
      else if fl.lt hundred pct
      then hundred
      else pct

module _ ⦃u : Unicode⦄ where
  unfoldable pub is_valid : Text → Bool
  is_valid p = any (eq_text (to_lower p)) provider_types

  unfoldable pub formatted_prefix : AccountQuota → Text
  formatted_prefix aq =
      let trimmed = trim_space aq.prefix in if is_empty trimmed then text "-" else trimmed

  unfoldable pub has_prefix_set : AccountQuota → Bool
  has_prefix_set aq = not (is_empty (trim_space aq.prefix))

  unfoldable pub sanitize_prefix : Text → Text
  sanitize_prefix s =
      let trimmed = trim_space s in
      if is_empty trimmed then [] else join (text "-") (text_fields trimmed)

  unfoldable pub filter_by_provider : QuotaSummary → Text → List AccountQuota
  filter_by_provider qs provider =
      if is_empty provider || equal_fold provider (text "all")
      then qs.accounts
      else keep (λ acc. equal_fold acc.provider provider) qs.accounts
