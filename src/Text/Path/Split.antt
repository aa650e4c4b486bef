-- ===== src/Text/Path/Split.antt =====
-- The elements of a path: joining them with slashes gives the path, and splitting the join gives them.
use cli_control_account.Base.{
  ℕ, ◌≡◌, refl, ap, ◌∙◌, List, [], ◌∷◌, ◌++◌, Bool, false, arith, All, any, ◌==◌, Bool-cases, inl,
  inr,
}
use cli_control_account.Text.{Text, text, join}
use cli_control_account.Text.Path.{elements, push_front}

abbrev pub has_slash : Text → Bool
has_slash c = any (λ d. d == b'/') c

push_front-All :
    (c : ℕ) (fs : List Text)
    → (c == b'/') ≡ false
    → All (λ f. has_slash f ≡ false) fs
    → All (λ f. has_slash f ≡ false) (push_front c fs)
push_front-All c [] h hs = (ground arith, tt)
push_front-All c (f ∷ fs) h hs = (ground (arith, hs.0), hs.1)

pub elements_no_slash : (s : Text) → All (λ f. has_slash f ≡ false) (elements s)
unfolding elements
elements_no_slash [] = (refl, tt)
elements_no_slash (c ∷ s) = elim (Bool-cases (c == b'/')) [
  | inl yes' ↦ rw yes' (refl, elements_no_slash s)
  | inr no' ↦ rw no' (push_front-All c (elements s) no' (elements_no_slash s))
]

elements_slash : (s : Text) → elements (b'/' ∷ s) ≡ [] ∷ elements s
unfolding elements
elements_slash s = refl

pub elements-append : (f s : Text) → has_slash f ≡ false → elements (f ++ b'/' ∷ s) ≡ f ∷ elements s
unfolding elements
elements-append [] s h = refl
elements-append (c ∷ f) s h = let rest = elements-append f s (ground arith) in ground arith

pub elements_one : (f : Text) → has_slash f ≡ false → elements f ≡ f ∷ []
unfolding elements
elements_one [] h = refl
elements_one (c ∷ f) h = let rest = elements_one f (ground arith) in ground arith

pub elements-join :
    (f : Text) (fs : List Text)
    → All (λ g. has_slash g ≡ false) (f ∷ fs)
    → elements (join (text "/") (f ∷ fs)) ≡ f ∷ fs
unfolding join
elements-join f [] h = elements_one f h.0
elements-join f (g ∷ fs) h =
    elements-append f (join (text "/") (g ∷ fs)) h.0 ∙ ap (λ r. f ∷ r) (elements-join g fs h.1)
