-- ===== src/Plugin/Safety.antt =====
-- What the host's calls of main.go may change, and that they return.
use cli_control_account.Base.{
  ◌≤◌, ◌≡◌, ◌≢◌, refl, ◌⊎◌, inl, inr, [], ◌∷◌, ◌++◌, Bool, true, false, ◌||◌, ◌==◌, some, arith,
  all, length, is_empty, Bool-cases,
}
use cli_control_account.Text.{Text, text, eq_text, has_prefix, Unicode}
use cli_control_account.Float.{Float}
use cli_control_account.Ego.Worker.{Worker}
use cli_control_account.Ego.Handler.Methods.{serve_http_keeps}
use cli_control_account.Web.{Asset, found, refused}
use cli_control_account.Plugin.{
  ManagementRequest, panicked, asset_envelope, PluginEnv, is_token, is_endpoint, is_endpoint_byte,
  is_plain_target, new_request, clean_path, api_request, handle_management_request,
  handle_plugin_method,
}

-- The method is missing, or a token of HTTP.
abbrev pub is_plain_method : Text → Bool
is_plain_method m = is_empty m || is_token m

get_no_post : eq_text (text "GET") (text "POST") ≡ false
unfolding eq_text
get_no_post = refl

slash_or_endpoint :
    (s : Text)
    → all is_endpoint_byte s ≡ true
    → all (λ d. (d == b'/') || is_endpoint_byte d) s ≡ true
slash_or_endpoint [] h = refl
slash_or_endpoint (c ∷ s) h = ground (arith, slash_or_endpoint s)

-- The target of an endpoint of the allowlist is one that the request parser takes as it is.
is_endpoint-is_plain_target :
    (s : Text) → is_endpoint s ≡ true → is_plain_target (text "/ego/api/" ++ s) ≡ true
unfolding is_plain_target is_endpoint has_prefix
is_endpoint-is_plain_target [] h = absurd (ground arith)
is_endpoint-is_plain_target (c ∷ s) h = ground (arith, slash_or_endpoint s)

plain_line :
    (p : PluginEnv) (m target : Text)
    → is_plain_target target ≡ true
    → is_plain_method m ≡ true
    → (n : Text) × (new_request p.parse_odd m target ≡ some (n, target))
      × ((n ≡ text "GET") ⊎ (n ≡ m))
unfolding new_request
plain_line p [] target t h = (text "GET", rw (t, new_request) refl, inl refl)
plain_line p (c ∷ m) target t h = (c ∷ m, rw (h, t, new_request) refl, inr refl)

no_post :
    {n m : Text}
    → (n ≡ text "GET") ⊎ (n ≡ m)
    → eq_text m (text "POST") ≡ false
    → eq_text n (text "POST") ≡ false
no_post (inl e) k = rw e get_no_post
no_post (inr e) k = rw e k

module _ {F : Type 0} ⦃fl : Float F⦄ ⦃u : Unicode⦄ where
  asset_envelope_returns : (a : Asset) → asset_envelope {F = F} a ≢ panicked
  asset_envelope_returns (refused e) = ground arith
  asset_envelope_returns (found d m) = ground arith

  -- A management request with no method or one that is an HTTP token never makes the plugin panic,
  -- whatever its path, its query and its body, although the parser of the request that the plugin
  -- builds may panic on any target that is not plain; and if the method is not POST, the worker and its
  -- storage are as they were.
  pub handle_management_request_returns :
      (p : PluginEnv) (w : Worker F) (req : ManagementRequest)
      → is_plain_method req.method ≡ true
      → ((handle_management_request p w req).0 ≢ panicked)
        × (eq_text req.method (text "POST") ≡ false → (handle_management_request p w req).1 ≡ w)
  unfolding handle_management_request
  handle_management_request_returns p w req h =
      elim (Bool-cases (has_prefix req.path (text "/v0/management/ego"))) [
        | inr page' ↦ rw page' (asset_envelope_returns _, λ k. refl)
        | inl api' ↦ elim (Bool-cases (is_endpoint (clean_path req.path))) [
          | inr unknown' ↦ rw (api', unknown') ((λ e. absurd (ground arith)), λ k. refl)
          | inl known' ↦
              let (n, line, from) =
                plain_line p req.method (text "/ego/api/" ++ clean_path req.path)
                  (is_endpoint-is_plain_target (clean_path req.path) known') h in
              rw (api', known', line)
                (
                  (λ e. absurd (ground arith)),
                  λ k.
                      serve_http_keeps p.env w
                        (api_request req (n, text "/ego/api/" ++ clean_path req.path))
                        (no_post from k),
                )
        ]
      ]

  -- Only `usage.handle` and `management.handle` can change the worker, and every other call
  -- returns without a panic.
  pub handle_plugin_method_keeps :
      (p : PluginEnv) (w : Worker F) (method request : Text)
      → eq_text method (text "usage.handle") ≡ false
      → eq_text method (text "management.handle") ≡ false
      → ((handle_plugin_method p w method request).0 ≢ panicked)
        × ((handle_plugin_method p w method request).1 ≡ w)
  unfolding handle_plugin_method
  handle_plugin_method_keeps p w method request h k = (ground arith, ground arith)

-- The target that is built from an endpoint of the allowlist has at most 64 bytes after
-- `/ego/api/`, all of them lower-case letters, digits, `_` or `-`: no slash, blank, `?`, `%` or
-- control character of the client reaches the request parser.
pub is_endpoint_lem :
    (s : Text)
    → is_endpoint s ≡ true
    → (1 ≤ length s) × (length s ≤ 64) × (all is_endpoint_byte s ≡ true)
unfolding is_endpoint
is_endpoint_lem [] h = absurd (ground arith)
is_endpoint_lem (c ∷ s) h = (ground arith, ground arith, ground arith)
