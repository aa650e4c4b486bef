-- ===== src/Ego/Queries/Groups.antt =====
-- GROUP BY, the aggregate functions and ORDER BY, as the queries of internal/ego/storage.go use them.
-- Ties of the order keep the order in which the groups appeared, which SQL leaves open.
pub mod Sums
pub mod Order
pub mod Exact
use cli_control_account.Base.{ℕ, suc, ◌+◌, List, [], ◌∷◌, Bool, true, false, if◌then◌else◌}
use cli_control_account.Base.Int.{ℤ, pos, ◌+ℤ◌}
use cli_control_account.Ego.Events.{EgoEvent}

-- COUNT(*) of the rows that pass a test, and SUM of a column
unfoldable pub count_of {ℓ} : {A : Type ℓ} → (A → Bool) → List A → ℕ
count_of p [] = 0
count_of p (x ∷ xs) = let rest = count_of p xs in if p x then suc rest else rest

unfoldable pub sum_of {ℓ} : {A : Type ℓ} → (A → ℤ) → List A → ℤ
sum_of f [] = pos 0
sum_of f (x ∷ xs) = f x +ℤ sum_of f xs

abbrev pub every : EgoEvent → Bool
every e = true

-- A group is its first row and its other rows.
pub record Group : Type 0 where
  pub first : EgoEvent
  pub others : List EgoEvent

abbrev pub rows : Group → List EgoEvent
rows g = g.first ∷ g.others

-- The row joins the first group with its key.
unfoldable pub add_row : (EgoEvent → EgoEvent → Bool) → EgoEvent → List Group → List Group
add_row same e [] = record { first = e; others = [] } ∷ []
add_row same e (g ∷ gs) =
    let later = add_row same e gs in
    if same g.first e then record g { others = e ∷ g.others } ∷ gs else g ∷ later

unfoldable pub group_by : (EgoEvent → EgoEvent → Bool) → List EgoEvent → List Group
unfolding add_row
group_by same [] = []
group_by same (e ∷ es) = add_row same e (group_by same es)

-- ORDER BY by insertion: `before a b` puts a in front of b.
unfoldable pub insert_by {ℓ} : {A : Type ℓ} → (A → A → Bool) → A → List A → List A
insert_by before x [] = x ∷ []
insert_by before x (y ∷ ys) =
    let later = insert_by before x ys in if before y x then y ∷ later else x ∷ y ∷ ys

unfoldable pub order_by {ℓ} : {A : Type ℓ} → (A → A → Bool) → List A → List A
unfolding insert_by
order_by before [] = []
order_by before (x ∷ xs) = insert_by before x (order_by before xs)
