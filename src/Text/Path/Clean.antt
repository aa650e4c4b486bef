-- ===== src/Text/Path/Clean.antt =====
-- What `path_clean` leaves: plain names only, unless the path climbs above its start.
use cli_control_account.Base.{
  ◌≡◌, refl, ◌∙◌, ◌⊎◌, inl, inr, List, [], ◌∷◌, ◌++◌, Bool, true, false, not, ◌&&◌, ◌||◌, arith,
  All, is_empty, Bool-cases, append-nil,
}
use cli_control_account.Text.{Text, text, eq_text, has_prefix, join}
use cli_control_account.Text.Laws.{eq_text-eq, eq_text_self}
use cli_control_account.Text.Path.{
  elements, clean_element, clean_elements, back, rev_onto, is_rooted, path_clean,
}
use cli_control_account.Text.Path.Split.{has_slash, elements_no_slash, elements-join}

-- A name: not empty, not `.`, not `..`, and without a slash.
abbrev pub is_name : Text → Bool
is_name c =
    not (is_empty c)
    && (not (eq_text c (text ".")) && (not (eq_text c (text "..")) && not (has_slash c)))

abbrev pub IsName : Text → Type 0
IsName c = is_name c ≡ true

-- The first element of the stack, at its bottom, is `..`.
abbrev climbs : List Text → Bool
climbs [] = false
climbs (d ∷ []) = eq_text d (text "..")
climbs (d ∷ e ∷ st) = climbs (e ∷ st)

abbrev IsStack : List Text → Type 0
IsStack st = All IsName st ⊎ (climbs st ≡ true)

push-IsStack : (c : Text) (st : List Text) → IsName c → IsStack st → IsStack (c ∷ st)
push-IsStack c st h (inl names) = inl (h, names)
push-IsStack c [] h (inr k) = absurd (ground arith)
push-IsStack c (d ∷ st) h (inr k) = inr k

name_not_up : (d : Text) → IsName d → eq_text d (text "..") ≡ false
name_not_up d h = ground arith

back-IsStack : (rooted : Bool) (st : List Text) → IsStack st → IsStack (back rooted st)
back-IsStack true [] h = inl tt
back-IsStack false [] h = inr (eq_text_self (text ".."))
back-IsStack rooted (d ∷ st) (inl names) = rw (name_not_up d names.0) (inl names.1)
back-IsStack rooted (d ∷ []) (inr k) = rw k (inr k)
back-IsStack rooted (d ∷ e ∷ st) (inr k) = elim (Bool-cases (eq_text d (text ".."))) [
  | inl yes' ↦ rw yes' (inr k)
  | inr no' ↦ rw no' (inr k)
]

clean_element-IsStack :
    (rooted : Bool) (st : List Text) (c : Text)
    → has_slash c ≡ false
    → IsStack st
    → IsStack (clean_element rooted st c)
clean_element-IsStack rooted st c h k = elim (Bool-cases (is_empty c || eq_text c (text "."))) [
  | inl skip' ↦ rw skip' k
  | inr keep' ↦ elim (Bool-cases (eq_text c (text ".."))) [
    | inl up' ↦ rw (keep', up') (back-IsStack rooted st k)
    | inr name' ↦ rw (keep', name') (push-IsStack c st (ground arith) k)
  ]
]

clean_elements-IsStack :
    (rooted : Bool) (st cs : List Text)
    → All (λ c. has_slash c ≡ false) cs
    → IsStack st
    → IsStack (clean_elements rooted st cs)
unfolding clean_elements
clean_elements-IsStack rooted st [] h k = k
clean_elements-IsStack rooted st (c ∷ cs) h k =
    clean_elements-IsStack rooted (clean_element rooted st c) cs h.1
      (clean_element-IsStack rooted st c h.0 k)

All-rev_onto :
    (P : Text → Type 0) (xs acc : List Text) → All P xs → All P acc → All P (rev_onto xs acc)
unfolding rev_onto
All-rev_onto P [] acc h k = k
All-rev_onto P (x ∷ xs) acc h k = All-rev_onto P xs (x ∷ acc) h.1 (h.0, k)

has_prefix_up : (s : Text) → has_prefix (text ".." ++ s) (text "..") ≡ true
unfolding has_prefix
has_prefix_up s = refl

join_up : (acc : List Text) → has_prefix (join (text "/") (text ".." ∷ acc)) (text "..") ≡ true
unfolding join
join_up [] = has_prefix_up []
join_up (g ∷ acc) = has_prefix_up (text "/" ++ join (text "/") (g ∷ acc))

climbs_prefix :
    (st acc : List Text)
    → climbs st ≡ true
    → has_prefix (join (text "/") (rev_onto st acc)) (text "..") ≡ true
unfolding rev_onto
climbs_prefix [] acc h = absurd (ground arith)
climbs_prefix (d ∷ []) acc h = rw (eq_text-eq d (text "..") h) (join_up acc)
climbs_prefix (d ∷ e ∷ st) acc h = climbs_prefix (e ∷ st) (d ∷ acc) h

-- The elements of a cleaned path, joined: either all are names, or the text starts with `..`.
pub cleaned_elements :
    (s : Text)
    → let out = rev_onto (clean_elements (is_rooted s) [] (elements s)) [] in
      All IsName out ⊎ (has_prefix (join (text "/") out) (text "..") ≡ true)
cleaned_elements s =
    elim (clean_elements-IsStack (is_rooted s) [] (elements s) (elements_no_slash s) (inl tt)) [
      | inl names ↦
          inl (All-rev_onto IsName (clean_elements (is_rooted s) [] (elements s)) [] names tt)
      | inr up ↦ inr (climbs_prefix (clean_elements (is_rooted s) [] (elements s)) [] up)
    ]

clean_element_name : (st : List Text) (c : Text) → IsName c → clean_element false st c ≡ c ∷ st
clean_element_name st c h = ground arith

clean_names : (st cs : List Text) → All IsName cs → clean_elements false st cs ≡ rev_onto cs st
unfolding clean_elements rev_onto
clean_names st [] h = refl
clean_names st (c ∷ cs) h = rw (clean_element_name st c h.0) (clean_names (c ∷ st) cs h.1)

rev_onto_twice : (xs ys zs : List Text) → rev_onto (rev_onto xs ys) zs ≡ rev_onto ys (xs ++ zs)
unfolding rev_onto
rev_onto_twice [] ys zs = refl
rev_onto_twice (x ∷ xs) ys zs = rev_onto_twice xs (x ∷ ys) zs

rev_onto_back : (xs : List Text) → rev_onto (rev_onto xs []) [] ≡ xs
unfolding rev_onto
rev_onto_back xs = rev_onto_twice xs [] [] ∙ append-nil xs

no_slashes : (cs : List Text) → All IsName cs → All (λ c. has_slash c ≡ false) cs
no_slashes [] h = tt
no_slashes (c ∷ cs) h = (ground (arith, h.0), no_slashes cs h.1)

pub join_not_empty :
    (c : Text) (cs : List Text) → IsName c → is_empty (join (text "/") (c ∷ cs)) ≡ false
unfolding join
join_not_empty [] cs h = absurd (ground arith)
join_not_empty (b ∷ c) [] h = refl
join_not_empty (b ∷ c) (d ∷ cs) h = refl

pub not_rooted :
    (c : Text) (cs : List Text) → IsName c → is_rooted (join (text "/") (c ∷ cs)) ≡ false
unfolding join
not_rooted [] cs h = absurd (ground arith)
not_rooted (b ∷ c) [] h = ground arith
not_rooted (b ∷ c) (d ∷ cs) h = ground arith

-- Cleaning a path of names changes nothing.
pub path_clean_names :
    (c : Text) (cs : List Text)
    → All IsName (c ∷ cs)
    → path_clean (join (text "/") (c ∷ cs)) ≡ join (text "/") (c ∷ cs)
unfolding path_clean
path_clean_names c cs h =
    rw
      (
        join_not_empty c cs h.0,
        not_rooted c cs h.0,
        elements-join c cs (no_slashes (c ∷ cs) h),
        clean_names [] (c ∷ cs) h,
        rev_onto_back (c ∷ cs),
        join_not_empty c cs h.0,
      )
      refl
