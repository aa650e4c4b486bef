-- ===== src/Text/Laws.antt =====
-- Laws of texts: equality, prefixes, and that trimming and lower case are idempotent and commute.
use cli_control_account.Base.{
  ℕ, ◌≡◌, refl, ◌↔◌, inl, inr, [], ◌∷◌, map, true, false, arith, all, Bool-cases,
}
use cli_control_account.Text.{
  Text, eq_text, is_ascii, is_space, lower_byte, trim_left, cons_trimmed, trim_right, Unicode,
  to_lower, trim_space,
}

pub eq_text-eq : (s t : Text) → eq_text s t ≡ true → s ≡ t
unfolding eq_text
eq_text-eq [] [] h = refl
eq_text-eq [] (b ∷ t) h = cc
eq_text-eq (a ∷ s) [] h = cc
eq_text-eq (a ∷ s) (b ∷ t) h = ground (arith, eq_text-eq s t)

pub eq_text_self : (s : Text) → eq_text s s ≡ true
unfolding eq_text
eq_text_self [] = refl
eq_text_self (a ∷ s) = ground (arith, eq_text_self s)

pub eq_text_iff : (s t : Text) → (eq_text s t ≡ true) ↔ (s ≡ t)
eq_text_iff s t = (eq_text-eq s t, λ e. rw (← e) (eq_text_self s))

pub eq_text_sym : (s t : Text) → eq_text s t ≡ eq_text t s
eq_text_sym s t = ground (arith, eq_text_iff s t, eq_text_iff t s)

is_space-lower_byte : (c : ℕ) → is_space (lower_byte c) ≡ is_space c
is_space-lower_byte c = ground arith

lower_byte_idem : (c : ℕ) → lower_byte (lower_byte c) ≡ lower_byte c
lower_byte_idem c = ground arith

is_ascii-lower_byte : (c : ℕ) → is_ascii c ≡ true → is_ascii (lower_byte c) ≡ true
is_ascii-lower_byte c h = ground arith

pub all-is_ascii-lower : (s : Text) → all is_ascii s ≡ true → all is_ascii (map lower_byte s) ≡ true
all-is_ascii-lower [] h = refl
all-is_ascii-lower (c ∷ s) h = ground (arith, is_ascii-lower_byte c, all-is_ascii-lower s)

pub map-lower_byte_idem : (s : Text) → map lower_byte (map lower_byte s) ≡ map lower_byte s
map-lower_byte_idem [] = refl
map-lower_byte_idem (c ∷ s) = cc (lower_byte_idem c, map-lower_byte_idem s)

all-is_ascii-trim_left : (s : Text) → all is_ascii s ≡ true → all is_ascii (trim_left s) ≡ true
unfolding trim_left
all-is_ascii-trim_left [] h = refl
all-is_ascii-trim_left (c ∷ s) h = ground (arith, all-is_ascii-trim_left s)

all-is_ascii-cons_trimmed :
    (c : ℕ) (r : Text)
    → is_ascii c ≡ true
    → all is_ascii r ≡ true
    → all is_ascii (cons_trimmed c r) ≡ true
all-is_ascii-cons_trimmed c [] h k = ground arith
all-is_ascii-cons_trimmed c (d ∷ r) h k = ground arith

all-is_ascii-trim_right : (s : Text) → all is_ascii s ≡ true → all is_ascii (trim_right s) ≡ true
unfolding trim_right
all-is_ascii-trim_right [] h = refl
all-is_ascii-trim_right (c ∷ s) h =
    ground (arith, all-is_ascii-trim_right s, all-is_ascii-cons_trimmed c (trim_right s))

trim_left-lower : (s : Text) → trim_left (map lower_byte s) ≡ map lower_byte (trim_left s)
unfolding trim_left
trim_left-lower [] = refl
trim_left-lower (c ∷ s) = elim (Bool-cases (is_space c)) [
  | inl e ↦ rw (e, is_space-lower_byte c, e) (trim_left-lower s)
  | inr e ↦ rw (e, is_space-lower_byte c, e) refl
]

cons_trimmed-lower :
    (c : ℕ) (r : Text)
    → cons_trimmed (lower_byte c) (map lower_byte r) ≡ map lower_byte (cons_trimmed c r)
cons_trimmed-lower c [] = elim (Bool-cases (is_space c)) [
  | inl e ↦ rw (e, is_space-lower_byte c, e) refl
  | inr e ↦ rw (e, is_space-lower_byte c, e) refl
]
cons_trimmed-lower c (d ∷ r) = refl

trim_right-lower : (s : Text) → trim_right (map lower_byte s) ≡ map lower_byte (trim_right s)
unfolding trim_right
trim_right-lower [] = refl
trim_right-lower (c ∷ s) = rw (trim_right-lower s) (cons_trimmed-lower c (trim_right s))

-- Trimmed on the left: no white space at the front.
trim_left_fixed : (c : ℕ) (s : Text) → is_space c ≡ false → trim_left (c ∷ s) ≡ c ∷ s
unfolding trim_left
trim_left_fixed c s h = rw h

trim_left_idem : (s : Text) → trim_left (trim_left s) ≡ trim_left s
unfolding trim_left
trim_left_idem [] = refl
trim_left_idem (c ∷ s) = elim (Bool-cases (is_space c)) [
  | inl e ↦ rw e (trim_left_idem s)
  | inr e ↦ rw (e, e)
]

cons_trimmed_idem :
    (c : ℕ) (r : Text) → trim_right r ≡ r → trim_right (cons_trimmed c r) ≡ cons_trimmed c r
unfolding trim_right
cons_trimmed_idem c [] h = elim (Bool-cases (is_space c)) [ inl e ↦ rw e | inr e ↦ rw (e, e) ]
cons_trimmed_idem c (d ∷ r) h = rw h

trim_right_idem : (s : Text) → trim_right (trim_right s) ≡ trim_right s
unfolding trim_right
trim_right_idem [] = refl
trim_right_idem (c ∷ s) = cons_trimmed_idem c (trim_right s) (trim_right_idem s)

-- Trimming on the right keeps a text trimmed on the left.
trim_left-cons_trimmed :
    (c : ℕ) (r : Text) → is_space c ≡ false → trim_left (cons_trimmed c r) ≡ cons_trimmed c r
unfolding trim_left
trim_left-cons_trimmed c [] h = rw (h, h)
trim_left-cons_trimmed c (d ∷ r) h = rw h

trim_left-trim_right : (s : Text) → trim_left (trim_right (trim_left s)) ≡ trim_right (trim_left s)
unfolding trim_left
trim_left-trim_right [] = unfold trim_right in refl
trim_left-trim_right (c ∷ s) = elim (Bool-cases (is_space c)) [
  | inl e ↦ rw e (trim_left-trim_right s)
  | inr e ↦ rw e (unfold trim_right in trim_left-cons_trimmed c (trim_right s) e)
]

abbrev pub IsAscii : Text → Type 0
IsAscii s = all is_ascii s ≡ true

module _ ⦃u : Unicode⦄ where
  pub trim_space_ascii : (s : Text) → IsAscii s → trim_space s ≡ trim_right (trim_left s)
  unfolding trim_space
  trim_space_ascii s h = rw h

  pub to_lower_ascii : (s : Text) → IsAscii s → to_lower s ≡ map lower_byte s
  unfolding to_lower
  to_lower_ascii s h = rw h

  pub trim_space-IsAscii : (s : Text) → IsAscii s → IsAscii (trim_space s)
  trim_space-IsAscii s h =
      rw (trim_space_ascii s h) (all-is_ascii-trim_right (trim_left s) (all-is_ascii-trim_left s h))

  pub to_lower-IsAscii : (s : Text) → IsAscii s → IsAscii (to_lower s)
  to_lower-IsAscii s h = rw (to_lower_ascii s h) (all-is_ascii-lower s h)

  pub trim_space_idem : (s : Text) → IsAscii s → trim_space (trim_space s) ≡ trim_space s
  trim_space_idem s h =
      rw (trim_space_ascii (trim_space s) (trim_space-IsAscii s h), trim_space_ascii s h)
        (rw (trim_left-trim_right s) (trim_right_idem (trim_left s)))

  pub to_lower_idem : (s : Text) → IsAscii s → to_lower (to_lower s) ≡ to_lower s
  to_lower_idem s h =
      rw (to_lower_ascii (to_lower s) (to_lower-IsAscii s h), to_lower_ascii s h)
        (map-lower_byte_idem s)

  pub trim_space-to_lower :
      (s : Text) → IsAscii s → trim_space (to_lower s) ≡ to_lower (trim_space s)
  trim_space-to_lower s h =
      rw
        (
          trim_space_ascii (to_lower s) (to_lower-IsAscii s h),
          to_lower_ascii (trim_space s) (trim_space-IsAscii s h),
          to_lower_ascii s h,
          trim_space_ascii s h,
          trim_left-lower s,
        )
        (trim_right-lower (trim_left s))

  -- Trimming and lowering a second time changes nothing.
  pub to_lower-trim_space_idem :
      (s : Text)
      → IsAscii s
      → to_lower (trim_space (to_lower (trim_space s))) ≡ to_lower (trim_space s)
  to_lower-trim_space_idem s h =
      let t = trim_space-IsAscii s h in
      rw (trim_space-to_lower (trim_space s) t, trim_space_idem s h)
        (to_lower_idem (trim_space s) t)
