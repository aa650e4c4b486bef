-- ===== src/Text.antt =====
-- Texts are lists of bytes. The functions of the standard library's `strings` that the plugin
-- calls, for the arguments that it gives. On a text that is not ASCII, case and white space go by
-- the Unicode tables, which are a parameter.
pub mod Laws
pub mod Number
pub mod Fields
pub mod Path
pub mod Unescape
use Prim.Native.Char.{code}
use Prim.Native.String.{String}
use cli_control_account.Base.{
  ℕ, zero, suc, ◌+◌, ◌-◌, List, [], ◌∷◌, ◌++◌, map, Bool, true, false, not, ◌&&◌, ◌||◌, Option,
  none, some, ltb, leb, ◌==◌, if◌then◌else◌, all, length, drop,
}

abbrev pub Text : Type 0
Text = List ℕ

-- The bytes of an ASCII literal.
abbrev pub text : String → Text
text String.[] = []
text (String.◌∷◌ c s) = code c ∷ text s

unfoldable pub eq_text : Text → Text → Bool
eq_text [] [] = true
eq_text [] (_ ∷ _) = false
eq_text (_ ∷ _) [] = false
eq_text (a ∷ s) (b ∷ t) = (a == b) && eq_text s t

abbrev pub is_ascii : ℕ → Bool
is_ascii c = ltb c 128

abbrev pub is_space : ℕ → Bool
is_space c = (leb 9 c && leb c 13) || (c == 32)

abbrev pub lower_byte : ℕ → ℕ
lower_byte c = if leb b'A' c && leb c b'Z' then c + 32 else c

-- strings.HasPrefix
unfoldable pub has_prefix : Text → Text → Bool
has_prefix s [] = true
has_prefix [] (_ ∷ _) = false
has_prefix (c ∷ s) (d ∷ p) = (c == d) && has_prefix s p

-- strings.Contains
unfoldable pub contains : Text → Text → Bool
contains [] sub = has_prefix [] sub
contains (c ∷ s) sub = has_prefix (c ∷ s) sub || contains s sub

-- strings.Index; `none` is -1
unfoldable pub index : Text → Text → Option ℕ
index [] sub = if has_prefix [] sub then some 0 else none
index (c ∷ s) sub =
    let later = index s sub in
    if has_prefix (c ∷ s) sub then some 0 else elim later [ none ↦ none | some i ↦ some (suc i) ]

-- strings.TrimPrefix
unfoldable pub trim_prefix : Text → Text → Text
trim_prefix s p = if has_prefix s p then drop (length p) s else s

-- strings.ReplaceAll(s, string(b), "") for one byte b
unfoldable pub remove_byte : ℕ → Text → Text
remove_byte b [] = []
remove_byte b (c ∷ s) = let rest = remove_byte b s in if c == b then rest else c ∷ rest

unfoldable pub trim_left : Text → Text
trim_left [] = []
trim_left (c ∷ s) = let rest = trim_left s in if is_space c then rest else c ∷ s

abbrev cons_trimmed : ℕ → Text → Text
cons_trimmed c [] = if is_space c then [] else c ∷ []
cons_trimmed c (d ∷ r) = c ∷ d ∷ r

unfoldable pub trim_right : Text → Text
trim_right [] = []
trim_right (c ∷ s) = cons_trimmed c (trim_right s)

-- A character in front of the fields of the rest: it starts a field, or joins the first one.
abbrev pub attach : ℕ → Text → List Text → List Text
attach c [] fs = (c ∷ []) ∷ fs
attach c (d ∷ s) [] = (c ∷ []) ∷ []
attach c (d ∷ s) (f ∷ fs) = if is_space d then (c ∷ []) ∷ f ∷ fs else (c ∷ f) ∷ fs

-- strings.Fields of an ASCII text
unfoldable pub split_fields : Text → List Text
split_fields [] = []
split_fields (c ∷ s) = let rest = split_fields s in if is_space c then rest else attach c s rest

-- strings.Join
unfoldable pub join : Text → List Text → Text
join sep [] = []
join sep (f ∷ []) = f
join sep (f ∷ g ∷ fs) = f ++ (sep ++ join sep (g ∷ fs))

-- What the Unicode tables say of texts that are not ASCII.
pub record Unicode : Type 0 where
  pub lower : Text → Text
  pub trim : Text → Text
  pub fold_eq : Text → Text → Bool
  pub fields : Text → List Text

module _ ⦃u : Unicode⦄ where
  -- strings.ToLower
  unfoldable pub to_lower : Text → Text
  to_lower s = if all is_ascii s then map lower_byte s else u.lower s

  -- strings.TrimSpace
  unfoldable pub trim_space : Text → Text
  trim_space s = if all is_ascii s then trim_right (trim_left s) else u.trim s

  -- strings.EqualFold
  unfoldable pub equal_fold : Text → Text → Bool
  equal_fold s t =
      if all is_ascii s && all is_ascii t
      then eq_text (map lower_byte s) (map lower_byte t)
      else u.fold_eq s t

  -- strings.Fields
  unfoldable pub text_fields : Text → List Text
  unfolding split_fields
  text_fields s = if all is_ascii s then split_fields s else u.fields s
