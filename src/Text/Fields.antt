-- ===== src/Text/Fields.antt =====
-- Fields of ASCII texts and their joins: no white space is left, and what has none is one field.
use cli_control_account.Base.{
  ℕ, ◌≡◌, refl, List, [], ◌∷◌, ◌++◌, Bool, true, not, ◌&&◌, arith, All, all, Bool-cases, inl, inr,
}
use cli_control_account.Text.{
  Text, is_ascii, is_space, attach, split_fields, join, trim_left, trim_right,
}
use cli_control_account.Text.Laws.{IsAscii}

-- An ASCII character that is not white space.
abbrev pub is_solid : ℕ → Bool
is_solid c = is_ascii c && not (is_space c)

abbrev pub IsSolid : Text → Type 0
IsSolid s = all is_solid s ≡ true

attach-IsSolid :
    (c : ℕ) (s : Text) (fs : List Text)
    → is_solid c ≡ true
    → All IsSolid fs
    → All IsSolid (attach c s fs)
attach-IsSolid c [] fs h hs = (ground arith, hs)
attach-IsSolid c (d ∷ s) [] h hs = (ground arith, tt)
attach-IsSolid c (d ∷ s) (f ∷ fs) h hs = elim (Bool-cases (is_space d)) [
  | inl yes' ↦ rw yes' (ground arith, hs)
  | inr no' ↦ rw no' (ground (arith, hs.0), hs.1)
]

pub split_fields-IsSolid : (s : Text) → IsAscii s → All IsSolid (split_fields s)
unfolding split_fields
split_fields-IsSolid [] h = tt
split_fields-IsSolid (c ∷ s) h = elim (Bool-cases (is_space c)) [
  | inl yes' ↦ rw yes' (split_fields-IsSolid s (ground arith))
  | inr no' ↦
      rw no'
        (attach-IsSolid c s (split_fields s) (ground arith) (split_fields-IsSolid s (ground arith)))
]

IsSolid-append : (s t : Text) → IsSolid s → IsSolid t → IsSolid (s ++ t)
IsSolid-append [] t h k = k
IsSolid-append (c ∷ s) t h k = ground (arith, IsSolid-append s t)

pub join-IsSolid :
    (sep : Text) (fs : List Text) → IsSolid sep → All IsSolid fs → IsSolid (join sep fs)
unfolding join
join-IsSolid sep [] h hs = refl
join-IsSolid sep (f ∷ []) h hs = hs.0
join-IsSolid sep (f ∷ g ∷ fs) h hs =
    IsSolid-append f (sep ++ join sep (g ∷ fs)) hs.0
      (IsSolid-append sep (join sep (g ∷ fs)) h (join-IsSolid sep (g ∷ fs) h hs.1))

pub solid-IsAscii : (s : Text) → IsSolid s → IsAscii s
solid-IsAscii [] h = refl
solid-IsAscii (c ∷ s) h = ground (arith, solid-IsAscii s)

pub trim_left_solid : (s : Text) → IsSolid s → trim_left s ≡ s
unfolding trim_left
trim_left_solid [] h = refl
trim_left_solid (c ∷ s) h = ground arith

pub trim_right_solid : (s : Text) → IsSolid s → trim_right s ≡ s
unfolding trim_right
trim_right_solid [] h = refl
trim_right_solid (c ∷ []) h = ground arith
trim_right_solid (c ∷ d ∷ s) h = rw (trim_right_solid (d ∷ s) (ground arith)) refl

pub split_fields_solid : (c : ℕ) (s : Text) → IsSolid (c ∷ s) → split_fields (c ∷ s) ≡ (c ∷ s) ∷ []
unfolding split_fields
split_fields_solid c [] h = ground arith
split_fields_solid c (d ∷ s) h = let rest = split_fields_solid d s (ground arith) in ground arith
