-- ===== src/Ego/Pricing/Semantics.antt =====
-- How `ResolveTokenSemantics` of internal/ego/pricing.go classifies a provider.
use cli_control_account.Base.{◌≡◌, refl, Option, none, [], some, false, arith, if◌then◌else◌}
use cli_control_account.Text.{Text, text, contains, has_prefix, Unicode, to_lower, trim_space}
use cli_control_account.Text.Laws.{IsAscii, to_lower-trim_space_idem}
use cli_control_account.Ego.Pricing.{
  subset, is_openai_compatible, clean_executor, resolve_token_semantics,
}

not-contains-nil : contains [] (text "openaicompat") ≡ false
unfolding contains has_prefix
not-contains-nil = refl

module _ ⦃u : Unicode⦄ where
  -- An ASCII provider name has the semantics of its trimmed lower-case form, with any executor
  -- type: an event stored under the normalized name is classified as the raw record was.
  pub resolve_token_semantics-normalized :
      (provider : Text) (executor : Option Text)
      → IsAscii provider
      → resolve_token_semantics (to_lower (trim_space provider)) executor
        ≡ resolve_token_semantics provider executor
  unfolding resolve_token_semantics
  resolve_token_semantics-normalized provider executor h = rw (to_lower-trim_space_idem provider h)

  -- The executor type can only turn the classification into `subset`; it never makes one of the
  -- other two. It does so exactly when its cleaned form names OpenAI compatibility.
  pub resolve_token_semantics_executor :
      (provider executor : Text)
      → resolve_token_semantics provider (some executor) ≡ (
          if contains (clean_executor (some executor)) (text "openaicompat")
          then subset
          else resolve_token_semantics provider none)
  unfolding resolve_token_semantics is_openai_compatible
  resolve_token_semantics_executor provider executor = ground (arith, not-contains-nil)
