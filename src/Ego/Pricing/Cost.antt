-- ===== src/Ego/Pricing/Cost.antt =====
-- `CalculateTokenCost` of internal/ego/pricing.go.
use cli_control_account.Base.Int.{ℤ, ◌+ℤ◌, ◌-ℤ◌}
use cli_control_account.Base.Word.{IsInt64}
use cli_control_account.Text.{Text}
use cli_control_account.Float.{Float}

-- The usage of a request, in range: no sum of the calculation leaves the 64-bit integers.
pub record FitsInt64 (prompt completion reasoning cache_read cache_creation : ℤ) : Type 0 where
  pub cached : IsInt64 (cache_read +ℤ cache_creation)
  pub rest : IsInt64 (prompt -ℤ (cache_read +ℤ cache_creation))
  pub generated : IsInt64 (completion +ℤ reasoning)
