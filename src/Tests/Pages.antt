-- ===== src/Tests/Pages.antt =====
-- internal/web, internal/handlers and main.go at work.
use cli_control_account.Base.{
  ◌≡◌, ◌≢◌, refl, ◌⊎◌, [], Bool, true, false, Option, none, some, ◌∷◌, if◌then◌else◌,
}
use cli_control_account.Text.{
  Text, text, eq_text, has_prefix, contains, trim_prefix, trim_space, trim_left, trim_right, join,
}
use cli_control_account.Text.Path.{
  path_clean, path_join, path_ext, elements, clean_elements, rev_onto,
}
use cli_control_account.Text.Unescape.{path_unescape, unescape_from, unhex}
use cli_control_account.Web.{clean_name, get_asset}
use cli_control_account.Web.Safety.{IsBelowAssets, get_asset-IsBelowAssets}
use cli_control_account.Resource.{
  ResourceRequest, default_quota_base_path, request_path, asset_name_of, serve_resource,
}
use cli_control_account.Resource.Guards.{serve_resource_ok}
use cli_control_account.Plugin.{
  ManagementRequest, PluginEnv, panicked, is_endpoint, is_plain_target, new_request,
  handle_management_request,
}
use cli_control_account.Plugin.Safety.{handle_management_request_returns}
use cli_control_account.Tests.Fixtures.{plain_unicode, whole_float, idle, plain_env}

paths_test :
    (path_clean (text "a//b/./../c") ≡ text "a/c")
    × (path_clean (text "/../x") ≡ text "/x")
    × (path_clean (text "a/../..") ≡ text "..")
    × (path_ext (text "v1.2/app.min.js") ≡ text ".js")
    × (path_unescape (text "%2e%2E/x") ≡ some (text "../x"))
    × (path_unescape (text "100%") ≡ none)
unfolding path_clean elements clean_elements rev_onto join path_ext path_unescape unescape_from
    unhex eq_text
paths_test = (refl, refl, refl, refl, refl, refl)

cleaned : clean_name (text "/css//site.css") ≡ some (text "css/site.css")
unfolding clean_name path_clean elements clean_elements rev_onto join eq_text has_prefix contains
    trim_prefix trim_space trim_left trim_right
cleaned = refl

abbrev if_found : Bool → Option Text
if_found true = some (text "v__PLUGIN_VERSION__")
if_found false = none

abbrev files : Text → Option Text
files p = if_found (eq_text p (text "assets/index.html"))

-- The same files and one outside the assets.
abbrev more_files : Text → Option Text
more_files p = if eq_text p (text "secrets.txt") then some (text "hidden") else files p

outside : (p : Text) → IsBelowAssets p → eq_text p (text "secrets.txt") ≡ false
unfolding join eq_text
outside p (c, [], names, e) = rw e refl
outside p (c, d ∷ cs, names, e) = rw e refl

agree : (p : Text) → IsBelowAssets p → files p ≡ more_files p
agree p below = rw (outside p below) refl

get_asset-IsBelowAssets_example :
    get_asset files (λ e. []) (text "v0.7.0") (text "../secrets.txt")
    ≡ get_asset more_files (λ e. []) (text "v0.7.0") (text "../secrets.txt")
get_asset-IsBelowAssets_example =
    get_asset-IsBelowAssets files more_files (λ e. []) (text "v0.7.0") (text "../secrets.txt") agree

abbrev dashboard : ResourceRequest
dashboard = record {
  method = text "GET";
  url_path = text "/v0/resource/plugins/control-account/quota/";
  raw_path = [];
}

served :
    (serve_resource files (λ e. []) (text "v0.7.0") default_quota_base_path dashboard).status ≡ 200
unfolding serve_resource request_path asset_name_of get_asset clean_name path_join path_clean
    elements clean_elements rev_onto join eq_text has_prefix contains trim_prefix trim_space
    trim_left trim_right
served = refl

serve_resource_ok_example :
    ((dashboard.method ≡ text "GET") ⊎ (dashboard.method ≡ text "HEAD"))
    × (contains (request_path dashboard) (text "..") ≡ false)
    × (contains dashboard.url_path (text "..") ≡ false)
    × (contains dashboard.raw_path (text "..") ≡ false)
    × (has_prefix (request_path dashboard) default_quota_base_path ≡ true)
serve_resource_ok_example =
    serve_resource_ok files (λ e. []) (text "v0.7.0") default_quota_base_path dashboard served

abbrev host : PluginEnv
host = record {
  env = plain_env;
  unmarshal_usage = λ s. none;
  unmarshal_request = λ s. none;
  parse_odd = λ m t. none;
  read_file = files;
  mime_by_extension = λ e. [];
  version = text "v0.7.0";
}

abbrev stats_request : ManagementRequest
stats_request = record {
  method = text "GET";
  path = text "/v0/management/ego/stats?range=7d";
  query = λ k. [];
  body = [];
}

handle_management_request_returns_example :
    ((handle_management_request host idle stats_request).0 ≢ panicked)
    × (eq_text stats_request.method (text "POST") ≡ false
        → (handle_management_request host idle stats_request).1 ≡ idle)
handle_management_request_returns_example =
    handle_management_request_returns host idle stats_request refl

-- The parser of the request may panic on a path that the allowlist refuses.
blank_panics : new_request host.parse_odd (text "GET") (text "/ego/api/a b") ≡ none
unfolding new_request is_plain_target has_prefix
blank_panics = refl

blank_is_refused : is_endpoint (text "a b") ≡ false
unfolding is_endpoint
blank_is_refused = refl

stats_is_endpoint : is_endpoint (text "stats") ≡ true
unfolding is_endpoint
stats_is_endpoint = refl
