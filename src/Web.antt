-- ===== src/Web.antt =====
-- internal/web/embed.go: the embedded assets. `read_file` is fs.ReadFile on the embedded file system,
-- and `mime_by_extension` the system's table of MIME types, empty for an unknown extension.
pub mod Safety
use cli_control_account.Base.{
  ℕ, List, [], ◌∷◌, ◌++◌, Bool, true, false, not, ◌||◌, Option, none, some, if◌then◌else◌, is_empty,
}
use cli_control_account.Text.{
  Text, text, eq_text, has_prefix, contains, trim_prefix, Unicode, to_lower, trim_space,
}
use cli_control_account.Text.Path.{path_clean, path_join, path_ext, replace_from}

pub data AssetError : Type 0 where
  asset_not_found invalid_path : AssetError

pub data Asset : Type 0 where
  found : Text → Text → Asset
  refused : AssetError → Asset

-- The path of an asset in the file system.
abbrev pub full_path : Text → Text
full_path name = path_join (text "assets") name

module _ ⦃u : Unicode⦄ where
  -- The cleaned name, unless it is refused.
  unfoldable pub clean_name : Text → Option Text
  unfolding path_clean
  clean_name asset_name =
      let name = trim_prefix (path_clean (trim_space asset_name)) (text "/") in
      if eq_text name (text ".")
        || (is_empty name || (has_prefix name (text "..") || contains name (text "/../")))
      then none
      else some name

  unfoldable pub resolve_mime_type : (Text → Text) → Text → Text
  resolve_mime_type mime_by_extension filename =
      let ext = to_lower (path_ext filename) in
      let detected = mime_by_extension ext in
      if eq_text ext (text ".html") || eq_text ext (text ".htm")
      then text "text/html; charset=utf-8"
      else if eq_text ext (text ".css")
      then text "text/css; charset=utf-8"
      else if eq_text ext (text ".js") || eq_text ext (text ".mjs")
      then text "application/javascript; charset=utf-8"
      else if eq_text ext (text ".json")
      then text "application/json; charset=utf-8"
      else if eq_text ext (text ".svg")
      then text "image/svg+xml"
      else if eq_text ext (text ".png")
      then text "image/png"
      else if eq_text ext (text ".jpg") || eq_text ext (text ".jpeg")
      then text "image/jpeg"
      else if eq_text ext (text ".ico")
      then text "image/x-icon"
      else if not (is_empty detected)
      then detected
      else text "application/octet-stream"

  -- The version number replaces its placeholder in the page.
  unfoldable pub with_version : Text → Text → Text → Text
  with_version version name data' =
      if eq_text name (text "index.html")
      then replace_from 0 (text "__PLUGIN_VERSION__") (trim_prefix version (text "v")) data'
      else data'

  unfoldable pub get_asset : (Text → Option Text) → (Text → Text) → Text → Text → Asset
  unfolding clean_name resolve_mime_type with_version
  get_asset read_file mime_by_extension version asset_name = elim (clean_name asset_name) [
    | none ↦ refused invalid_path
    | some name ↦ elim (read_file (full_path name)) [
      | none ↦ refused asset_not_found
      | some data' ↦
          found (with_version version name data') (resolve_mime_type mime_by_extension name)
    ]
  ]
