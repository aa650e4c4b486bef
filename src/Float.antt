-- ===== src/Float.antt =====
-- The 64-bit floating-point numbers of the source, as an interface: the type is a parameter and
-- these are the operations that the plugin uses. The laws are those of IEEE arithmetic, where
-- `≤` says that the right side is not smaller, so that they hold of a NaN too.
use cli_control_account.Base.{ℕ, ◌+◌, ◌^◌, ◌≤◌, ◌≡◌, Bool, false}
use cli_control_account.Base.Int.{ℤ, pos, ◌≤ℤ◌}

pub record Float (F : Type 0) : Type 0 where
  -- float64(n)
  pub of_int : ℤ → F
  -- 1.25
  pub five_quarters : F
  pub add : F → F → F
  pub mul : F → F → F
  pub div : F → F → F
  pub lt : F → F → Bool
  pub eq : F → F → Bool
  -- math.Round
  pub round : F → F

module _ {F : Type 0} ⦃fl : Float F⦄ where
  abbrev pub zero_f : F
  zero_f = fl.of_int (pos 0)

  infix 50 ◌≤F◌
  abbrev pub ◌≤F◌ : F → F → Type 0
  a ≤F b = fl.lt b a ≡ false

-- Rounding keeps the order: sums are monotone, and so is the product with a rate that is not
-- negative.
pub record FloatLaws {F : Type 0} (fl : Float F) : Type 0 where
  pub le_refl : (a : F) → fl.lt a a ≡ false
  pub of_int_mono : (m n : ℤ) → m ≤ℤ n → fl.lt (fl.of_int n) (fl.of_int m) ≡ false
  pub add_mono :
      (a b c d : F)
      → fl.lt b a ≡ false
      → fl.lt d c ≡ false
      → fl.lt (fl.add b d) (fl.add a c) ≡ false
  pub mul_mono :
      (m n : ℤ) (r : F)
      → fl.lt r (fl.of_int (pos 0)) ≡ false
      → m ≤ℤ n
      → fl.lt (fl.mul (fl.of_int n) r) (fl.mul (fl.of_int m) r) ≡ false

-- Whole numbers up to 2^53 are exact: they are all different, their sums are exact, and a product
-- with one is the number.
pub record ExactFloat {F : Type 0} (fl : Float F) : Type 0 where
  pub of_int_inj :
      (m n : ℕ) → m ≤ 2 ^ 53 → n ≤ 2 ^ 53 → fl.of_int (pos m) ≡ fl.of_int (pos n) → m ≡ n
  pub one_ne_zero : fl.eq (fl.of_int (pos 1)) (fl.of_int (pos 0)) ≡ false
  pub mul_one :
      (n : ℕ) → n ≤ 2 ^ 53 → fl.mul (fl.of_int (pos n)) (fl.of_int (pos 1)) ≡ fl.of_int (pos n)
  pub add_exact :
      (m n : ℕ)
      → m + n ≤ 2 ^ 53
      → fl.add (fl.of_int (pos m)) (fl.of_int (pos n)) ≡ fl.of_int (pos (m + n))
