-- ===== src/Resource.antt =====
-- internal/handlers/resource.go: the handler of the embedded assets.
pub mod Guards
use cli_control_account.Base.{
  ℕ, List, [], ◌∷◌, Bool, true, false, not, ◌&&◌, ◌||◌, Option, none, some, if◌then◌else◌, is_empty,
}
use cli_control_account.Text.{Text, text, eq_text, has_prefix, contains, trim_prefix, Unicode}
use cli_control_account.Text.Path.{path_clean}
use cli_control_account.Text.Unescape.{path_unescape}
use cli_control_account.Web.{Asset, found, refused, get_asset}

abbrev pub default_quota_base_path : Text
default_quota_base_path = text "/v0/resource/plugins/control-account/quota"

-- The parts of a request that the handler reads: the method and the path as received, decoded and
-- not.
pub record ResourceRequest : Type 0 where
  pub method : Text
  pub url_path : Text
  pub raw_path : Text

-- A page with its headers and its body, or a JSON error with its message and the path.
pub data ResourceReply : Type 0 where
  page : List (Text × Text) → Text → ResourceReply
  json_error : Text → Text → ResourceReply

pub record ResourceResponse : Type 0 where
  pub status : ℕ
  pub reply : ResourceReply

abbrev pub default_security_headers : Text → List (Text × Text)
default_security_headers content_type =
    (text "Content-Type", content_type)
    ∷ (text "Cache-Control", text "no-cache, max-age=0, must-revalidate")
    ∷ (text "X-Content-Type-Options", text "nosniff")
    ∷ []

abbrev or_path : Text → Option Text → Text
or_path p none = p
or_path p (some unescaped) = unescaped

-- The path that is looked up.
unfoldable pub request_path : ResourceRequest → Text
unfolding path_unescape
request_path req =
    if is_empty req.raw_path
    then req.url_path
    else or_path req.url_path (path_unescape req.raw_path)

unfoldable pub asset_name_of : Text → Text
unfolding path_clean
asset_name_of rel_path =
    let clean = path_clean rel_path in
    if is_empty rel_path || (eq_text rel_path (text "index.html") || eq_text rel_path (text "/"))
    then text "index.html"
    else if eq_text clean (text ".") || (eq_text clean (text "/") || has_prefix clean (text ".."))
    then text "index.html"
    else clean

-- `..` in any of the three forms of the path
abbrev pub is_unsafe : ResourceRequest → Bool
is_unsafe req =
    contains req.url_path (text "..")
    || (contains req.raw_path (text "..") || contains (request_path req) (text ".."))

abbrev pub json_answer : ℕ → Text → ResourceRequest → ResourceResponse
json_answer status message req = record { status = status; reply = json_error message req.url_path }

abbrev pub asset_answer : ResourceRequest → Asset → ResourceResponse
asset_answer req (refused e) = json_answer 404 (text "resource not found") req
asset_answer req (found data' mime_type) = record {
  status = 200;
  reply =
      page (default_security_headers mime_type)
        (if eq_text req.method (text "HEAD") then [] else data');
}

module _ ⦃u : Unicode⦄ where
  unfoldable pub serve_resource :
      (Text → Option Text) → (Text → Text) → Text → Text → ResourceRequest → ResourceResponse
  unfolding request_path asset_name_of get_asset
  serve_resource read_file mime_by_extension version base_path req =
      let rel_path = trim_prefix (trim_prefix (request_path req) base_path) (text "/") in
      if not (eq_text req.method (text "GET")) && not (eq_text req.method (text "HEAD"))
      then json_answer 405 (text "method not allowed") req
      else if is_unsafe req
      then json_answer 404 (text "invalid or unsafe path") req
      else if not (has_prefix (request_path req) base_path)
      then json_answer 404 (text "resource not found") req
      else asset_answer req (get_asset read_file mime_by_extension version (asset_name_of rel_path))
