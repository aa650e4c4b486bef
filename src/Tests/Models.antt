-- ===== src/Tests/Models.antt =====
-- internal/models at work.
use cli_control_account.Base.{◌≡◌, refl, [], ◌∷◌, true, false}
use cli_control_account.Base.Int.{pos}
use cli_control_account.Text.{
  Text, text, eq_text, equal_fold, to_lower, trim_space, trim_left, trim_right, text_fields,
  split_fields, join,
}
use cli_control_account.Text.Fields.{IsSolid}
use cli_control_account.Models.Quota.{
  QuotaWindow, AccountQuota, QuotaSummary, is_valid, sanitize_prefix, filter_by_provider,
}
use cli_control_account.Models.Quota.Prefix.{sanitize_prefix_idem}
use cli_control_account.Tests.Fixtures.{plain_unicode, whole_float}

sanitize_test :
    (sanitize_prefix (text "  my  team ") ≡ text "my-team")
    × (is_valid (text "Claude") ≡ true)
    × (is_valid (text "gpt") ≡ false)
unfolding sanitize_prefix is_valid trim_space trim_left trim_right text_fields split_fields join
    eq_text to_lower
sanitize_test = (refl, refl, refl)

sanitize_prefix_idem_example :
    IsSolid (sanitize_prefix (text "  my  team "))
    × (sanitize_prefix (sanitize_prefix (text "  my  team "))
        ≡ sanitize_prefix (text "  my  team "))
sanitize_prefix_idem_example = sanitize_prefix_idem (text "  my  team ") refl

abbrev used_up : QuotaWindow
used_up = record {
  limit = pos 10;
  used = pos 30;
  remaining = pos 0;
  reset_at = 700;
  window_seconds = pos 60;
}

abbrev account : Text → AccountQuota
account provider = record {
  id = text "a";
  name = text "a";
  provider = provider;
  prefix = [];
  status = text "active";
  priority = pos 0;
  quota = used_up;
  updated_at = 0;
}

abbrev dashboard : QuotaSummary
dashboard = record {
  total_accounts = pos 2;
  active_accounts = pos 2;
  accounts = account (text "Claude") ∷ account (text "codex") ∷ [];
  generated_at = 0;
}

filter_test : filter_by_provider dashboard (text "claude") ≡ account (text "Claude") ∷ []
unfolding filter_by_provider equal_fold eq_text
filter_test = refl
