-- ===== src/Models/Quota/Filter.antt =====
-- `FilterByProvider` of internal/models/quota.go.
use cli_control_account.Base.{
  ◌≡◌, refl, sym, ap, ◌∙◌, List, [], ◌∷◌, Bool, arith, All, keep, map, is_empty,
}
use cli_control_account.Text.{Text, text, eq_text, lower_byte, Unicode, to_lower, equal_fold}
use cli_control_account.Text.Laws.{IsAscii, to_lower-IsAscii, to_lower_ascii, map-lower_byte_idem}
use cli_control_account.Models.Quota.{AccountQuota, QuotaSummary, filter_by_provider}

keep_idem : {A : Type 0} (p : A → Bool) (xs : List A) → keep p (keep p xs) ≡ keep p xs
keep_idem p [] = refl
keep_idem p (x ∷ xs) = ground (arith, keep_idem p xs)

module _ ⦃u : Unicode⦄ where
  equal_fold_ascii :
      (s t : Text)
      → IsAscii s
      → IsAscii t
      → equal_fold s t ≡ eq_text (map lower_byte s) (map lower_byte t)
  unfolding equal_fold
  equal_fold_ascii s t h k = rw (h, k) refl

  equal_fold_lower :
      (s t : Text) → IsAscii s → IsAscii t → equal_fold s (to_lower t) ≡ equal_fold s t
  equal_fold_lower s t h k =
      equal_fold_ascii s (to_lower t) h (to_lower-IsAscii t k)
      ∙ ap (eq_text (map lower_byte s))
          (ap (map lower_byte) (to_lower_ascii t k) ∙ map-lower_byte_idem t)
      ∙ sym (equal_fold_ascii s t h k)

  lower_equal_fold :
      (s t : Text) → IsAscii s → IsAscii t → equal_fold (to_lower s) t ≡ equal_fold s t
  lower_equal_fold s t h k =
      equal_fold_ascii (to_lower s) t (to_lower-IsAscii s h) k
      ∙ ap (λ x. eq_text x (map lower_byte t))
          (ap (map lower_byte) (to_lower_ascii s h) ∙ map-lower_byte_idem s)
      ∙ sym (equal_fold_ascii s t h k)

  is_empty_lower : (s : Text) → IsAscii s → is_empty (to_lower s) ≡ is_empty s
  is_empty_lower [] h = rw (to_lower_ascii [] h) refl
  is_empty_lower (c ∷ s) h = rw (to_lower_ascii (c ∷ s) h) refl

  keep_lower :
      (t : Text) (accounts : List AccountQuota)
      → IsAscii t
      → All (λ a. IsAscii a.provider) accounts
      → keep (λ a. equal_fold a.provider (to_lower t)) accounts
        ≡ keep (λ a. equal_fold a.provider t) accounts
  keep_lower t [] k h = refl
  keep_lower t (a ∷ as') k h =
      ground (arith, keep_lower t as' k h.1, equal_fold_lower a.provider t h.0 k)

  -- The filter does not depend on the case of an ASCII provider, with ASCII accounts, and filtering
  -- what it returned by the same provider changes nothing.
  pub filter_by_provider_lem :
      (qs : QuotaSummary) (provider : Text)
      → IsAscii provider
      → All (λ a. IsAscii a.provider) qs.accounts
      → let filtered = filter_by_provider qs provider in
        (filter_by_provider qs (to_lower provider) ≡ filtered)
        × (filter_by_provider (record qs { accounts = filtered }) provider ≡ filtered)
  unfolding filter_by_provider
  filter_by_provider_lem qs provider k h = (
    rw
        (
          is_empty_lower provider k,
          lower_equal_fold provider (text "all") k refl,
          keep_lower provider qs.accounts k h,
        )
        refl,
    ground (arith, keep_idem (λ a. equal_fold a.provider provider) qs.accounts),
  )
