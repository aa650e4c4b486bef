-- ===== src/Plugin.antt =====
-- main.go: the methods that the host calls, and the management requests. A call takes the bytes of
-- the request, and `panicked` stands for a panic.
pub mod Safety
pub mod Reachable
use cli_control_account.Base.{
  ℕ, ◌+◌, List, [], ◌∷◌, ◌++◌, Bool, true, false, not, ◌&&◌, ◌||◌, ◌==◌, leb, Option, none, some,
  if◌then◌else◌, is_empty, any, all, length, drop, take,
}
use cli_control_account.Base.Int.{ℤ, pos}
use cli_control_account.Text.{Text, text, eq_text, has_prefix, index, trim_prefix, Unicode}
use cli_control_account.Float.{Float}
use cli_control_account.Advertised.{
  Registration, plugin_registration, MenuEntry, menu_entries, api_routes,
}
use cli_control_account.Ego.Events.{RawUsageRecord}
use cli_control_account.Ego.Worker.{Worker, record_usage}
use cli_control_account.Ego.Handler.{Request, Response, Env, serve_http}
use cli_control_account.Web.{Asset, found, refused, get_asset}
use cli_control_account.Resource.{default_security_headers}

-- `query` lists the values of a key.
pub record ManagementRequest : Type 0 where
  pub method : Text
  pub path : Text
  pub query : Text → List Text
  pub body : Text

abbrev pub empty_request : ManagementRequest
empty_request = record { method = []; path = []; query = λ k. []; body = [] }

-- What a call answers.
pub data Envelope (F : Type 0) : Type 0 where
  registration : Registration → Envelope F
  resources : List MenuEntry → List (Text × Text) → Envelope F
  recorded_ok : Envelope F
  api : Response F → Envelope F
  asset : List (Text × Text) → Text → Envelope F
  not_found : Text → Envelope F
  error_envelope : Text → Envelope F
  panicked : Envelope F

-- The host's JSON decoders, and what httptest.NewRequest makes of a method that is no token or of a
-- target that is not plain: the method and the path that it parses, `none` where it panics.
pub record PluginEnv : Type 0 where
  pub env : Env
  pub unmarshal_usage : Text → Option RawUsageRecord
  pub unmarshal_request : Text → Option ManagementRequest
  pub parse_odd : Text → Text → Option (Text × Text)
  pub read_file : Text → Option Text
  pub mime_by_extension : Text → Text
  pub version : Text

abbrev pub is_lower_letter : ℕ → Bool
is_lower_letter c = leb b'a' c && leb c b'z'

-- [a-z0-9_-]
abbrev pub is_endpoint_byte : ℕ → Bool
is_endpoint_byte c =
    is_lower_letter c || ((leb b'0' c && leb c b'9') || ((c == b'_') || (c == b'-')))

-- ^[a-z][a-z0-9_-]{0,63}$
unfoldable pub is_endpoint : Text → Bool
is_endpoint [] = false
is_endpoint (c ∷ s) = is_lower_letter c && (all is_endpoint_byte s && leb (length s) 63)

-- The characters of an HTTP token.
abbrev pub is_token_byte : ℕ → Bool
is_token_byte c =
    (is_lower_letter c || ((leb b'A' c && leb c b'Z') || (leb b'0' c && leb c b'9')))
    || any (λ d. c == d) (text "!#$%&'*+-.^_`|~")

abbrev pub is_token : Text → Bool
is_token s = not (is_empty s) && all is_token_byte s

-- A request target that net/http reads as the path that it is: one slash in front, and then only
-- slashes and bytes of an endpoint.
unfoldable pub is_plain_target : Text → Bool
unfolding has_prefix
is_plain_target [] = false
is_plain_target (c ∷ s) =
    (c == b'/') && (not (has_prefix s (text "/")) && all (λ d. (d == b'/') || is_endpoint_byte d) s)

-- httptest.NewRequest: the method, GET if it is empty, and the path of the request that the handler
-- gets.
unfoldable pub new_request :
    (Text → Text → Option (Text × Text)) → Text → Text → Option (Text × Text)
unfolding is_plain_target
new_request parse_odd method target =
    let m : Text = if is_empty method then text "GET" else method in
    if is_token m && is_plain_target target then some (m, target) else parse_odd m target

abbrev first_value : List Text → Text
first_value [] = []
first_value (v ∷ vs) = v

-- The path after `/v0/management/ego`, without a slash in front and without a query.
unfoldable pub clean_path : Text → Text
clean_path path =
    let rest = trim_prefix (trim_prefix path (text "/v0/management/ego")) (text "/") in
    elim (index rest (text "?")) [ none ↦ rest | some i ↦ take i rest ]

abbrev pub api_request : ManagementRequest → Text × Text → Request
api_request req (method, target) = record {
  method = method;
  url_path = target;
  query = λ k. first_value (req.query k);
  body = some req.body;
  content_length = pos (length req.body);
}

-- The name of the asset that a path of the dashboard asks for.
unfoldable pub asset_subpath : Text → Text
asset_subpath path =
    let after : Text = elim (index path (text "/quota")) [
      | some i ↦ drop (i + 6) path
      | none ↦ elim (index path (text "/ego")) [ some i ↦ drop (i + 4) path | none ↦ path ]
    ] in
    let subpath = trim_prefix after (text "/") in
    if is_empty subpath then text "index.html" else subpath

-- An empty request is the payload without fields.
abbrev pub decoded : (Text → Option ManagementRequest) → Text → Option ManagementRequest
decoded unmarshal [] = some empty_request
decoded unmarshal (c ∷ s) = unmarshal (c ∷ s)

module _ {F : Type 0} where
  abbrev pub asset_envelope : Asset → Envelope F
  asset_envelope (refused e) = not_found (text "resource not found")
  asset_envelope (found data' content_type) = asset (default_security_headers content_type) data'

module _ {F : Type 0} ⦃fl : Float F⦄ ⦃u : Unicode⦄ where
  abbrev pub serve_api :
      Env → Worker F → ManagementRequest → Option (Text × Text) → Envelope F × Worker F
  serve_api env w req none = (panicked, w)
  serve_api env w req (some line) =
      let (response, w') = serve_http env w (api_request req line) in (api response, w')

  unfoldable pub handle_management_request :
      PluginEnv → Worker F → ManagementRequest → Envelope F × Worker F
  unfolding clean_path asset_subpath is_endpoint new_request
  handle_management_request p w req =
      if has_prefix req.path (text "/v0/management/ego")
      then if not (is_endpoint (clean_path req.path))
        then (not_found (text "endpoint not found"), w)
        else serve_api p.env w req
            (new_request p.parse_odd req.method (text "/ego/api/" ++ clean_path req.path))
      else (
        asset_envelope
            (get_asset p.read_file p.mime_by_extension p.version (asset_subpath req.path)),
        w,
      )

  unfoldable pub handle_management_http : PluginEnv → Worker F → Text → Envelope F × Worker F
  unfolding handle_management_request
  handle_management_http p w request = elim (decoded p.unmarshal_request request) [
    | none ↦ (error_envelope (text "invalid_request"), w)
    | some req ↦ handle_management_request p w req
  ]

  unfoldable pub handle_plugin_method : PluginEnv → Worker F → Text → Text → Envelope F × Worker F
  unfolding handle_management_http plugin_registration
  handle_plugin_method p w method request =
      if eq_text method (text "plugin.register") || eq_text method (text "plugin.reconfigure")
      then (registration (plugin_registration p.version), w)
      else if eq_text method (text "management.register")
      then (resources menu_entries api_routes, w)
      else if eq_text method (text "usage.handle")
      then (recorded_ok, record_usage p.unmarshal_usage p.env.now request w)
      else if eq_text method (text "management.handle")
      then handle_management_http p w request
      else (error_envelope (text "unknown_method"), w)
