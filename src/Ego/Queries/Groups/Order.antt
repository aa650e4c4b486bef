-- ===== src/Ego/Queries/Groups/Order.antt =====
-- ORDER BY puts the rows in order.
use cli_control_account.Base.{
  ℕ, ◌≡◌, List, [], ◌∷◌, Bool, true, false, Bool-cases, inl, inr, All, All-take, take, zero, suc,
}
use cli_control_account.Ego.Queries.Groups.{insert_by, order_by}

module _ {ℓ} {A : Type ℓ} (before : A → A → Bool) where
  -- No row stands behind one that it belongs in front of.
  abbrev pub IsOrdered : List A → Type 0
  IsOrdered [] = Unit
  IsOrdered (x ∷ xs) = All (λ y. before y x ≡ false) xs × IsOrdered xs

  module _ (asym : (x y : A) → before x y ≡ true → before y x ≡ false)
      (trans : (x y z : A) → before y x ≡ false → before z y ≡ false → before z x ≡ false) where
    All-trans :
        (x y : A) (zs : List A)
        → before y x ≡ false
        → All (λ z. before z y ≡ false) zs
        → All (λ z. before z x ≡ false) zs
    All-trans x y [] h hs = tt
    All-trans x y (z ∷ zs) h hs = (trans x y z h hs.0, All-trans x y zs h hs.1)

    All-insert :
        (y x : A) (ys : List A)
        → before x y ≡ false
        → All (λ z. before z y ≡ false) ys
        → All (λ z. before z y ≡ false) (insert_by before x ys)
    unfolding insert_by
    All-insert y x [] h hs = (h, tt)
    All-insert y x (z ∷ zs) h hs = elim (Bool-cases (before z x)) [
      | inl yes' ↦ rw yes' (hs.0, All-insert y x zs h hs.1)
      | inr no' ↦ rw no' (h, hs)
    ]

    insert_by-IsOrdered : (x : A) (ys : List A) → IsOrdered ys → IsOrdered (insert_by before x ys)
    unfolding insert_by
    insert_by-IsOrdered x [] h = (tt, tt)
    insert_by-IsOrdered x (y ∷ ys) h = elim (Bool-cases (before y x)) [
      | inl yes' ↦ rw yes' (All-insert y x ys (asym y x yes') h.0, insert_by-IsOrdered x ys h.1)
      | inr no' ↦ rw no' ((no', All-trans x y ys no' h.0), h)
    ]

    pub order_by-IsOrdered : (xs : List A) → IsOrdered (order_by before xs)
    unfolding order_by
    order_by-IsOrdered [] = tt
    order_by-IsOrdered (x ∷ xs) = insert_by-IsOrdered x (order_by before xs) (order_by-IsOrdered xs)

  pub take-IsOrdered : (n : ℕ) (xs : List A) → IsOrdered xs → IsOrdered (take n xs)
  take-IsOrdered zero xs h = tt
  take-IsOrdered (suc n) [] h = tt
  take-IsOrdered (suc n) (x ∷ xs) h =
      (All-take (λ y. before y x ≡ false) n xs h.0, take-IsOrdered n xs h.1)
