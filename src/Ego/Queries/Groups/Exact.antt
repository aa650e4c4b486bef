-- ===== src/Ego/Queries/Groups/Exact.antt =====
-- GROUP BY on a key: each group has exactly the rows with its key, and no two groups have the same.
use mathlib.Core.List.{Permᴰ}
use mathlib.Core.List.Permᴰ
use cli_control_account.Base.{
  ◌≡◌, refl, sym, ap, subst, ◌∙◌, List, [], ◌∷◌, Bool, true, false, arith, keep, Bool-cases, inl,
  inr, All, length,
}
use cli_control_account.Base.Int.{ℤ, ◌+ℤ◌, +ℤ_left_comm}
use cli_control_account.Ego.Events.{EgoEvent}
use cli_control_account.Ego.Queries.Groups.{count_of, sum_of, Group, rows, add_row, group_by}

-- The aggregates do not look at the order of the rows.
pub sum_of-Permᴰ {ℓ} :
    {A : Type ℓ} (f : A → ℤ) {xs ys : List A} → Permᴰ xs ys → sum_of f xs ≡ sum_of f ys
unfolding sum_of
sum_of-Permᴰ f Permᴰ.nil = refl
sum_of-Permᴰ f (Permᴰ.cons {b = b} e p) = rw e (ap (λ s. f b +ℤ s) (sum_of-Permᴰ f p))
sum_of-Permᴰ f (Permᴰ.swap {a = a} {b = b} {l = l} e k) =
    rw (← e, ← k) (+ℤ_left_comm (f a) (f b) (sum_of f l))
sum_of-Permᴰ f (Permᴰ.trans p q) = sum_of-Permᴰ f p ∙ sum_of-Permᴰ f q

pub count_of-Permᴰ {ℓ} :
    {A : Type ℓ} (t : A → Bool) {xs ys : List A} → Permᴰ xs ys → count_of t xs ≡ count_of t ys
unfolding count_of
count_of-Permᴰ t Permᴰ.nil = refl
count_of-Permᴰ t (Permᴰ.cons e p) = ground (arith, count_of-Permᴰ t p)
count_of-Permᴰ t (Permᴰ.swap {a = a} {b = b} {l = l} e k) = rw (← e, ← k) (ground arith)
count_of-Permᴰ t (Permᴰ.trans p q) = count_of-Permᴰ t p ∙ count_of-Permᴰ t q

pub length-Permᴰ {ℓ} : {A : Type ℓ} {xs ys : List A} → Permᴰ xs ys → length xs ≡ length ys
length-Permᴰ Permᴰ.nil = refl
length-Permᴰ (Permᴰ.cons e p) = ground (arith, length-Permᴰ p)
length-Permᴰ (Permᴰ.swap e k) = refl
length-Permᴰ (Permᴰ.trans p q) = length-Permᴰ p ∙ length-Permᴰ q

module _ (same : EgoEvent → EgoEvent → Bool) (self : (e : EgoEvent) → same e e ≡ true)
    (flip : (a b : EgoEvent) → same a b ≡ same b a)
    (follow : (a b c : EgoEvent) → same a b ≡ true → same c a ≡ same c b) where
  -- The rows of a group are those with its key.
  abbrev pub IsExact : List EgoEvent → Group → Type 0
  IsExact es g = Permᴰ (rows g) (keep (same g.first) es)

  abbrev IsNew : EgoEvent → List Group → Type 0
  IsNew k gs = All (λ g. same k g.first ≡ false) gs

  abbrev pub IsDistinct : List Group → Type 0
  IsDistinct [] = Unit
  IsDistinct (g ∷ gs) = IsNew g.first gs × IsDistinct gs

  -- A row that no group has the key of.
  IsExact-others :
      (e : EgoEvent) (es : List EgoEvent) (gs : List Group)
      → IsNew e gs
      → All (IsExact es) gs
      → All (IsExact (e ∷ es)) gs
  IsExact-others e es [] n h = tt
  IsExact-others e es (g ∷ gs) n h = (rw (flip g.first e ∙ n.0) h.0, IsExact-others e es gs n.1 h.1)

  -- The groups after the one that a row joins do not have its key.
  IsNew-after :
      (e : EgoEvent) (g : Group) (gs : List Group)
      → same g.first e ≡ true
      → IsNew g.first gs
      → IsNew e gs
  IsNew-after e g [] yes' n = tt
  IsNew-after e g (h ∷ gs) yes' n = (
    flip e h.first ∙ (sym (follow g.first e h.first yes') ∙ (flip h.first g.first ∙ n.0)),
    IsNew-after e g gs yes' n.1,
  )

  add_row-IsExact :
      (e : EgoEvent) (es : List EgoEvent) (gs : List Group)
      → IsDistinct gs
      → (IsNew e gs → keep (same e) es ≡ [])
      → All (IsExact es) gs
      → All (IsExact (e ∷ es)) (add_row same e gs)
  unfolding add_row
  add_row-IsExact e es [] d cover h = (rw (self e, cover tt) (Permᴰ.refl (e ∷ [])), tt)
  add_row-IsExact e es (g ∷ gs) d cover h = elim (Bool-cases (same g.first e)) [
    | inl yes' ↦
        rw (yes', yes')
          (
            Permᴰ.trans (Permᴰ.swap refl refl) (Permᴰ.cons refl h.0),
            IsExact-others e es gs (IsNew-after e g gs yes' d.0) h.1,
          )
    | inr no' ↦
        rw (no', no') (h.0, add_row-IsExact e es gs d.1 (λ n. cover (flip e g.first ∙ no', n)) h.1)
  ]

  add_row-IsNew :
      (k e : EgoEvent) (gs : List Group)
      → same k e ≡ false
      → IsNew k gs
      → IsNew k (add_row same e gs)
  unfolding add_row
  add_row-IsNew k e [] other n = (other, tt)
  add_row-IsNew k e (g ∷ gs) other n = elim (Bool-cases (same g.first e)) [
    | inl yes' ↦ rw yes' n
    | inr no' ↦ rw no' (n.0, add_row-IsNew k e gs other n.1)
  ]

  add_row-IsDistinct :
      (e : EgoEvent) (gs : List Group) → IsDistinct gs → IsDistinct (add_row same e gs)
  unfolding add_row
  add_row-IsDistinct e [] d = (tt, tt)
  add_row-IsDistinct e (g ∷ gs) d = elim (Bool-cases (same g.first e)) [
    | inl yes' ↦ rw yes' d
    | inr no' ↦ rw no' (add_row-IsNew g.first e gs no' d.0, add_row-IsDistinct e gs d.1)
  ]

  IsNew-add_row :
      (k e : EgoEvent) (gs : List Group)
      → IsNew k (add_row same e gs)
      → (same k e ≡ false) × IsNew k gs
  unfolding add_row
  IsNew-add_row k e [] = λ n. (n.0, tt)
  IsNew-add_row k e (g ∷ gs) = elim (Bool-cases (same g.first e)) [
    | inl yes' ↦ rw yes' (λ n. (sym (follow g.first e k yes') ∙ n.0, n))
    | inr no' ↦ rw no' λ n. let (other, rest) = IsNew-add_row k e gs n.1 in (other, (n.0, rest))
  ]

  -- A key of no group is the key of no row.
  IsNew-group_by :
      (k : EgoEvent) (es : List EgoEvent) → IsNew k (group_by same es) → keep (same k) es ≡ []
  unfolding group_by
  IsNew-group_by k [] n = refl
  IsNew-group_by k (e ∷ es) n =
      let (other, rest) = IsNew-add_row k e (group_by same es) n in
      rw other (IsNew-group_by k es rest)

  pub group_by-IsDistinct : (es : List EgoEvent) → IsDistinct (group_by same es)
  unfolding group_by
  group_by-IsDistinct [] = tt
  group_by-IsDistinct (e ∷ es) = add_row-IsDistinct e (group_by same es) (group_by-IsDistinct es)

  pub group_by-IsExact : (es : List EgoEvent) → All (IsExact es) (group_by same es)
  unfolding group_by
  group_by-IsExact [] = tt
  group_by-IsExact (e ∷ es) =
      add_row-IsExact e es (group_by same es) (group_by-IsDistinct es) (IsNew-group_by e es)
        (group_by-IsExact es)

pub All-Permᴰ {ℓ κ} :
    {A : Type ℓ} (P : A → Type κ) {xs ys : List A} → Permᴰ xs ys → All P ys → All P xs
All-Permᴰ P Permᴰ.nil h = tt
All-Permᴰ P (Permᴰ.cons e p) h = (subst P (sym e) h.0, All-Permᴰ P p h.1)
All-Permᴰ P (Permᴰ.swap e k) h = (subst P (sym e) h.1.0, (subst P (sym k) h.0, h.1.1))
All-Permᴰ P (Permᴰ.trans p q) h = All-Permᴰ P p (All-Permᴰ P q h)
