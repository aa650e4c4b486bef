-- ===== src/Text/Path.antt =====
-- path.Clean, path.Join of two elements and path.Ext of the standard library, and bytes.ReplaceAll.
pub mod Split
pub mod Clean
use cli_control_account.Base.{
  ℕ, zero, suc, ◌-◌, List, [], ◌∷◌, ◌++◌, Bool, true, false, not, ◌&&◌, ◌||◌, ◌==◌, if◌then◌else◌,
  is_empty, any, length,
}
use cli_control_account.Text.{Text, text, eq_text, has_prefix, join}

abbrev pub push_front : ℕ → List Text → List Text
push_front c [] = (c ∷ []) ∷ []
push_front c (f ∷ fs) = (c ∷ f) ∷ fs

-- The elements of a path, between the slashes.
unfoldable pub elements : Text → List Text
elements [] = [] ∷ []
elements (c ∷ s) = let rest = elements s in if c == b'/' then [] ∷ rest else push_front c rest

-- `..` takes the last element back, if there is one that is not itself a `..`.
abbrev pub back : Bool → List Text → List Text
back rooted [] = if rooted then [] else text ".." ∷ []
back rooted (d ∷ st) = if eq_text d (text "..") then text ".." ∷ d ∷ st else st

-- One element; the result so far is a stack, its last element first.
abbrev pub clean_element : Bool → List Text → Text → List Text
clean_element rooted st c =
    if is_empty c || eq_text c (text ".")
    then st
    else if eq_text c (text "..")
    then back rooted st
    else c ∷ st

unfoldable pub clean_elements : Bool → List Text → List Text → List Text
clean_elements rooted st [] = st
clean_elements rooted st (c ∷ cs) = clean_elements rooted (clean_element rooted st c) cs

unfoldable pub rev_onto : List Text → List Text → List Text
rev_onto [] acc = acc
rev_onto (x ∷ xs) acc = rev_onto xs (x ∷ acc)

abbrev pub is_rooted : Text → Bool
is_rooted [] = false
is_rooted (c ∷ s) = c == b'/'

unfoldable pub path_clean : Text → Text
unfolding rev_onto clean_elements elements join
path_clean s =
    let out = join (text "/") (rev_onto (clean_elements (is_rooted s) [] (elements s)) []) in
    if is_empty s
    then text "."
    else if is_rooted s
    then b'/' ∷ out
    else if is_empty out
    then text "."
    else out

-- path.Join of two elements that are not empty
unfoldable pub path_join : Text → Text → Text
unfolding path_clean
path_join a b = path_clean (a ++ b'/' ∷ b)

-- path.Ext
unfoldable pub path_ext : Text → Text
path_ext [] = []
path_ext (c ∷ s) =
    let later = path_ext s in
    if any (λ d. d == b'/') s || not (is_empty later)
    then later
    else if c == b'.'
    then c ∷ s
    else []

-- bytes.ReplaceAll for a text `old` that is not empty; `skip` bytes are already replaced.
unfoldable pub replace_from : ℕ → Text → Text → Text → Text
replace_from skip old new [] = []
replace_from zero old new (c ∷ s) = elim (has_prefix (c ∷ s) old) [
  | true ↦ new ++ replace_from (length old - 1) old new s
  | false ↦ c ∷ replace_from zero old new s
]
replace_from (suc skip) old new (c ∷ s) = replace_from skip old new s
