-- ===== src/Ego/Queries/Groups/Sums.antt =====
-- Grouping and ordering lose no row: sums and counts over the groups are those over the rows.
use cli_control_account.Base.{
  ℕ, ◌+◌, ◌≡◌, refl, ap, ◌∙◌, List, [], ◌∷◌, Bool, true, arith, if◌then◌else◌, Bool-cases, inl, inr,
  All,
}
use cli_control_account.Base.Int.{ℤ, ◌+ℤ◌, int_laws, +ℤ_left_comm, +ℤ_pull}
use cli_control_account.Ego.Events.{EgoEvent}
use cli_control_account.Ego.Queries.Groups.{
  count_of, sum_of, Group, rows, add_row, group_by, insert_by, order_by,
}

-- Sums of numbers.
unfoldable pub total {ℓ} : {A : Type ℓ} → (A → ℕ) → List A → ℕ
total f [] = 0
total f (x ∷ xs) = f x + total f xs

module _ (same : EgoEvent → EgoEvent → Bool) (f : EgoEvent → ℤ) where
  sum_of-add_row :
      (e : EgoEvent) (gs : List Group)
      → sum_of (λ g. sum_of f (rows g)) (add_row same e gs)
        ≡ f e +ℤ sum_of (λ g. sum_of f (rows g)) gs
  unfolding sum_of add_row
  sum_of-add_row e [] = omega int_laws
  sum_of-add_row e (g ∷ gs) = elim (Bool-cases (same g.first e)) [
    | inl yes' ↦
        rw yes' (+ℤ_pull (f g.first) (f e) (sum_of f g.others) (sum_of (λ g. sum_of f (rows g)) gs))
    | inr no' ↦ rw no' (
        ap (λ s. sum_of f (rows g) +ℤ s) (sum_of-add_row e gs)
        ∙ +ℤ_left_comm (sum_of f (rows g)) (f e) (sum_of (λ g. sum_of f (rows g)) gs))
  ]

  -- The sums of a column over the groups add up to its sum over the rows.
  pub sum_of-group_by :
      (es : List EgoEvent) → sum_of (λ g. sum_of f (rows g)) (group_by same es) ≡ sum_of f es
  unfolding sum_of group_by
  sum_of-group_by [] = refl
  sum_of-group_by (e ∷ es) =
      sum_of-add_row e (group_by same es) ∙ ap (λ s. f e +ℤ s) (sum_of-group_by es)

module _ (same : EgoEvent → EgoEvent → Bool) (p : EgoEvent → Bool) where
  total-add_row :
      (e : EgoEvent) (gs : List Group)
      → total (λ g. count_of p (rows g)) (add_row same e gs)
        ≡ (if p e then 1 else 0) + total (λ g. count_of p (rows g)) gs
  unfolding total count_of add_row
  total-add_row e [] = ground arith
  total-add_row e (g ∷ gs) = ground (arith, total-add_row e gs)

  pub total-group_by :
      (es : List EgoEvent) → total (λ g. count_of p (rows g)) (group_by same es) ≡ count_of p es
  unfolding count_of group_by total
  total-group_by [] = refl
  total-group_by (e ∷ es) = ground (arith, total-add_row e (group_by same es), total-group_by es)

module _ {ℓ} {A : Type ℓ} (before : A → A → Bool) where
  sum_of-insert_by :
      (f : A → ℤ) (x : A) (xs : List A) → sum_of f (insert_by before x xs) ≡ f x +ℤ sum_of f xs
  unfolding sum_of insert_by
  sum_of-insert_by f x [] = refl
  sum_of-insert_by f x (y ∷ ys) = elim (Bool-cases (before y x)) [
    | inl yes' ↦
        rw yes'
          (ap (λ s. f y +ℤ s) (sum_of-insert_by f x ys) ∙ +ℤ_left_comm (f y) (f x) (sum_of f ys))
    | inr no' ↦ rw no' refl
  ]

  pub sum_of-order_by : (f : A → ℤ) (xs : List A) → sum_of f (order_by before xs) ≡ sum_of f xs
  unfolding sum_of order_by
  sum_of-order_by f [] = refl
  sum_of-order_by f (x ∷ xs) =
      sum_of-insert_by f x (order_by before xs) ∙ ap (λ s. f x +ℤ s) (sum_of-order_by f xs)

  total-insert_by :
      (f : A → ℕ) (x : A) (xs : List A) → total f (insert_by before x xs) ≡ f x + total f xs
  unfolding total insert_by
  total-insert_by f x [] = refl
  total-insert_by f x (y ∷ ys) = ground (arith, total-insert_by f x ys)

  pub total-order_by : (f : A → ℕ) (xs : List A) → total f (order_by before xs) ≡ total f xs
  unfolding total order_by
  total-order_by f [] = refl
  total-order_by f (x ∷ xs) =
      total-insert_by f x (order_by before xs) ∙ ap (λ s. f x + s) (total-order_by f xs)

  All-insert_by :
      (P : A → Type 0) (x : A) (xs : List A) → P x → All P xs → All P (insert_by before x xs)
  unfolding insert_by
  All-insert_by P x [] h hs = (h, tt)
  All-insert_by P x (y ∷ ys) h hs = elim (Bool-cases (before y x)) [
    | inl yes' ↦ rw yes' (hs.0, All-insert_by P x ys h hs.1)
    | inr no' ↦ rw no' (h, hs)
  ]

  pub All-order_by : (P : A → Type 0) (xs : List A) → All P xs → All P (order_by before xs)
  unfolding order_by
  All-order_by P [] h = tt
  All-order_by P (x ∷ xs) h = All-insert_by P x (order_by before xs) h.0 (All-order_by P xs h.1)

-- The key of a group, for an equivalence of rows: every row of a group has it.
module _ (same : EgoEvent → EgoEvent → Bool) (self : (e : EgoEvent) → same e e ≡ true) where
  abbrev pub IsUniform : Group → Type 0
  IsUniform g = All (λ e. same g.first e ≡ true) (rows g)

  add_row-IsUniform :
      (e : EgoEvent) (gs : List Group) → All IsUniform gs → All IsUniform (add_row same e gs)
  unfolding add_row
  add_row-IsUniform e [] h = ((self e, tt), tt)
  add_row-IsUniform e (g ∷ gs) h = elim (Bool-cases (same g.first e)) [
    | inl yes' ↦ rw yes' ((self g.first, (yes', h.0.1)), h.1)
    | inr no' ↦ rw no' (h.0, add_row-IsUniform e gs h.1)
  ]

  pub group_by-IsUniform : (es : List EgoEvent) → All IsUniform (group_by same es)
  unfolding group_by
  group_by-IsUniform [] = tt
  group_by-IsUniform (e ∷ es) = add_row-IsUniform e (group_by same es) (group_by-IsUniform es)
