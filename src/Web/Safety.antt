-- ===== src/Web/Safety.antt =====
-- `GetAsset` of internal/web/embed.go reads nothing outside the assets.
use cli_control_account.Base.{
  ◌≡◌, refl, sym, ap, ◌∙◌, ◌⊎◌, inl, inr, List, [], ◌∷◌, Bool, true, false, ◌||◌, Option, none,
  some, Option-cases, arith, All, if◌then◌else◌, is_empty,
}
use cli_control_account.Text.{
  Text, text, eq_text, has_prefix, contains, trim_prefix, join, Unicode, trim_space,
}
use cli_control_account.Text.Laws.{eq_text_self}
use cli_control_account.Text.Path.{
  path_clean, path_join, rev_onto, clean_elements, is_rooted, elements,
}
use cli_control_account.Text.Path.Clean.{
  IsName, not_rooted, join_not_empty, cleaned_elements, path_clean_names,
}
use cli_control_account.Web.{clean_name, full_path, get_asset}

-- The path stays below the directory of the assets: every element is a plain name.
abbrev pub IsBelowAssets : Text → Type 0
IsBelowAssets p =
    (c : Text) × (cs : List Text) × All IsName (c ∷ cs)
    × (p ≡ join (text "/") (text "assets" ∷ c ∷ cs))

trim_rooted : (t : Text) → trim_prefix (b'/' ∷ t) (text "/") ≡ t
unfolding trim_prefix has_prefix
trim_rooted t = refl

trim_unrooted : (t : Text) → is_rooted t ≡ false → trim_prefix t (text "/") ≡ t
unfolding trim_prefix has_prefix
trim_unrooted [] h = refl
trim_unrooted (c ∷ t) h = rw h refl

up_unrooted :
    (t : Text) → has_prefix t (text "..") ≡ true → (is_rooted t ≡ false) × (is_empty t ≡ false)
unfolding has_prefix
up_unrooted [] h = absurd (ground arith)
up_unrooted (c ∷ t) h = (ground arith, refl)

-- The text that `path_clean` makes of a join, without its slash in front.
unslashed :
    (rooted : Bool) (t : Text)
    → is_rooted t ≡ false
    → is_empty t ≡ false
    → trim_prefix (if rooted then b'/' ∷ t else if is_empty t then text "." else t) (text "/") ≡ t
unslashed true t h k = trim_rooted t
unslashed false t h k = rw k (trim_unrooted t h)

-- What is accepted of a cleaned path is a join of names.
abbrev IsJoin : Text → Type 0
IsJoin name =
    (c : Text) × (cs : List Text) × All IsName (c ∷ cs) × (name ≡ join (text "/") (c ∷ cs))

join-IsJoin :
    (rooted : Bool) (out : List Text) (name : Text)
    → All IsName out ⊎ (has_prefix (join (text "/") out) (text "..") ≡ true)
    → trim_prefix
        (if rooted
          then b'/' ∷ join (text "/") out
          else if is_empty (join (text "/") out)
          then text "."
          else join (text "/") out)
        (text "/")
      ≡ name
    → eq_text name (text ".") ≡ false
    → is_empty name ≡ false
    → has_prefix name (text "..") ≡ false
    → IsJoin name
unfolding join
join-IsJoin rooted (c ∷ cs) name (inl names) e h k l = (
  c,
  cs,
  names,
  sym e
      ∙ unslashed rooted (join (text "/") (c ∷ cs)) (not_rooted c cs names.0)
          (join_not_empty c cs names.0),
)
join-IsJoin true [] name (inl names) e h k l =
    let nil : [] ≡ name = sym (trim_rooted []) ∙ e in absurd (ground arith)
join-IsJoin false [] name (inl names) e h k l =
    let dot : text "." ≡ name = sym (trim_unrooted (text ".") refl) ∙ e in
    absurd (ground (arith, eq_text_self name))
join-IsJoin rooted out name (inr up) e h k l =
    let (r, n) = up_unrooted (join (text "/") out) up in
    let same : join (text "/") out ≡ name = sym (unslashed rooted (join (text "/") out) r n) ∙ e in
    absurd (ground (arith, ap (λ t. has_prefix t (text "..")) same))

accepted_names :
    (s name : Text)
    → trim_prefix (path_clean s) (text "/") ≡ name
    → eq_text name (text ".") ≡ false
    → is_empty name ≡ false
    → has_prefix name (text "..") ≡ false
    → IsJoin name
unfolding path_clean
accepted_names [] name e h k l =
    let dot : text "." ≡ name = sym (trim_unrooted (text ".") refl) ∙ e in
    absurd (ground (arith, eq_text_self name))
accepted_names (b ∷ s) name e h k l =
    join-IsJoin (is_rooted (b ∷ s))
      (rev_onto (clean_elements (is_rooted (b ∷ s)) [] (elements (b ∷ s))) []) name
      (cleaned_elements (b ∷ s)) e h k l

assets-IsName : IsName (text "assets")
unfolding eq_text
assets-IsName = refl

-- The guards of the lookup.
accepted :
    (cleaned name : Text)
    → (if eq_text cleaned (text ".")
          || (is_empty cleaned
              || (has_prefix cleaned (text "..") || contains cleaned (text "/../")))
        then none
        else some cleaned)
      ≡ some name
    → (cleaned ≡ name)
      × (eq_text name (text ".") ≡ false)
      × (is_empty name ≡ false)
      × (has_prefix name (text "..") ≡ false)
accepted cleaned name h =
    let same : cleaned ≡ name = ground arith in
    rw (← same) (refl, ground arith, ground arith, ground arith)

full_path_names :
    (c : Text) (cs : List Text)
    → All IsName (c ∷ cs)
    → full_path (join (text "/") (c ∷ cs)) ≡ join (text "/") (text "assets" ∷ c ∷ cs)
unfolding path_join join
full_path_names c cs h = path_clean_names (text "assets") (c ∷ cs) (assets-IsName, h)

-- An accepted name is looked up below the directory of the assets.
full_path-IsBelowAssets :
    ⦃u : Unicode⦄ (asset_name name : Text)
    → clean_name asset_name ≡ some name
    → IsBelowAssets (full_path name)
unfolding clean_name
full_path-IsBelowAssets asset_name name h =
    let cleaned = trim_prefix (path_clean (trim_space asset_name)) (text "/") in
    let (e, d, n, p) = accepted cleaned name h in
    let (c, cs, names, j) = accepted_names (trim_space asset_name) name e d n p in
    (c, cs, names, ap full_path j ∙ full_path_names c cs names)

-- Whatever name is requested, the lookup of an asset reads no file but those below the directory of
-- the assets, whose path is `assets` and then one or more plain names, none of them `..`: two file
-- systems that agree there give the same answer, whatever else they hold.
pub get_asset-IsBelowAssets :
    ⦃u : Unicode⦄ (read_file read_file' : Text → Option Text) (mime_by_extension : Text → Text)
    (version asset_name : Text)
    → ((p : Text) → IsBelowAssets p → read_file p ≡ read_file' p)
    → get_asset read_file mime_by_extension version asset_name
      ≡ get_asset read_file' mime_by_extension version asset_name
unfolding get_asset
get_asset-IsBelowAssets read_file read_file' mime_by_extension version asset_name agree =
    elim (Option-cases (clean_name asset_name)) [
      | inl bad ↦ rw (bad, get_asset) refl
      | inr (name, good) ↦
          rw
            (good, get_asset, agree (full_path name) (full_path-IsBelowAssets asset_name name good))
            refl
    ]
