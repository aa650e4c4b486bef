-- ===== src/Models/Quota/Prefix.antt =====
-- `SanitizePrefix` of internal/models/quota.go.
use cli_control_account.Base.{◌≡◌, refl, ap, ◌∙◌, [], ◌∷◌, is_empty, Bool-cases, inl, inr}
use cli_control_account.Text.{
  Text, text, Unicode, trim_space, trim_right, text_fields, split_fields, join,
}
use cli_control_account.Text.Laws.{IsAscii, trim_space_ascii, trim_space-IsAscii}
use cli_control_account.Text.Fields.{
  IsSolid, split_fields-IsSolid, join-IsSolid, solid-IsAscii, trim_left_solid, trim_right_solid,
  split_fields_solid,
}
use cli_control_account.Models.Quota.{sanitize_prefix}

hyphen : IsSolid (text "-")
hyphen = refl

module _ ⦃u : Unicode⦄ where
  text_fields_ascii : (s : Text) → IsAscii s → text_fields s ≡ split_fields s
  unfolding text_fields
  text_fields_ascii s h = rw h

  sanitize-IsSolid : (s : Text) → IsAscii s → IsSolid (sanitize_prefix s)
  unfolding sanitize_prefix
  sanitize-IsSolid s h = elim (Bool-cases (is_empty (trim_space s))) [
    | inl yes' ↦ rw yes' refl
    | inr no' ↦
        rw (no', text_fields_ascii (trim_space s) (trim_space-IsAscii s h))
          (join-IsSolid (text "-") (split_fields (trim_space s)) hyphen
            (split_fields-IsSolid (trim_space s) (trim_space-IsAscii s h)))
  ]

  trim_space_solid : (s : Text) → IsSolid s → trim_space s ≡ s
  trim_space_solid s h =
      trim_space_ascii s (solid-IsAscii s h)
      ∙ ap trim_right (trim_left_solid s h)
      ∙ trim_right_solid s h

  sanitize_solid : (s : Text) → IsSolid s → sanitize_prefix s ≡ s
  unfolding sanitize_prefix join
  sanitize_solid [] h = rw (trim_space_solid [] h) refl
  sanitize_solid (c ∷ s) h =
      rw
        (
          trim_space_solid (c ∷ s) h,
          text_fields_ascii (c ∷ s) (solid-IsAscii (c ∷ s) h),
          split_fields_solid c s h,
        )
        refl

  -- A sanitized ASCII prefix has no white space, neither around it nor inside, and sanitizing it
  -- again changes nothing.
  pub sanitize_prefix_idem :
      (s : Text)
      → IsAscii s
      → IsSolid (sanitize_prefix s) × (sanitize_prefix (sanitize_prefix s) ≡ sanitize_prefix s)
  sanitize_prefix_idem s h =
      (sanitize-IsSolid s h, sanitize_solid (sanitize_prefix s) (sanitize-IsSolid s h))
