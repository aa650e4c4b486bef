-- ===== src/Plugin/Reachable.antt =====
-- The routes that main.go advertises are served.
use cli_control_account.Base.{◌≡◌, refl, ◌⊎◌, inl, inr, List, ◌++◌, some, none, Option, arith, All}
use cli_control_account.Text.{Text, text, eq_text, has_prefix, trim_prefix, index, Unicode}
use cli_control_account.Float.{Float}
use cli_control_account.Advertised.{api_routes}
use cli_control_account.Ego.Storage.Engine.{Result, ok, err}
use cli_control_account.Ego.Queries.Window.{QueryWindow}
use cli_control_account.Ego.Worker.{Worker}
use cli_control_account.Ego.Handler.{
  Env, Request, Response, Reply, serve_http, ends_with, or_error, within, handle_stats,
  handle_timeline, handle_providers, handle_models, handle_accounts, handle_prune, handle_reset,
  handle_post_settings, handle_get_settings, handle_get_pricing,
}
use cli_control_account.Plugin.{
  ManagementRequest, PluginEnv, Envelope, api, is_endpoint, new_request, clean_path,
  handle_management_request, api_request,
}

-- The answer of an endpoint that ran: it succeeded, or refused the parameters, or failed.
abbrev IsDone : {F : Type 0} → Response F → Type 0
IsDone r = (r.status ≡ 200) ⊎ ((r.status ≡ 400) ⊎ (r.status ≡ 500))

abbrev pub IsServed : {F : Type 0} → Envelope F → Type 0
IsServed {F} e = (r : Response F) × (e ≡ api r) × IsDone r

-- A request of the host for a route of the management API.
abbrev pub route_request : (Text → List Text) → Text → Text × Text → ManagementRequest
route_request query body (method, path) = record {
  method = method;
  path = text "/v0/management" ++ path;
  query = query;
  body = body;
}

infixr 4 ◌&◌
abbrev ◌&◌ : {A B : Type 0} → A → B → A × B
a & b = (a, b)

module _ {F : Type 0} where
  or_error-IsDone : (R : Type 0) (reply : R → Reply F) (r : Result R) → IsDone (or_error R reply r)
  or_error-IsDone R reply (ok a) = inl refl
  or_error-IsDone R reply (err e) = inr (inr refl)

  handle_get_settings-IsDone : (env : Env) (w : Worker F) → IsDone (handle_get_settings env w)
  unfolding handle_get_settings
  handle_get_settings-IsDone env w = inl refl

  handle_prune-IsDone :
      (env : Env) (w : Worker F) (req : Request) → IsDone (handle_prune env w req).0
  unfolding handle_prune
  handle_prune-IsDone env w req = ground arith

  handle_reset-IsDone : (env : Env) (w : Worker F) → IsDone (handle_reset env w).0
  unfolding handle_reset
  handle_reset-IsDone env w = ground arith

  handle_post_settings-IsDone :
      (env : Env) (w : Worker F) (req : Request) → IsDone (handle_post_settings env w req).0
  unfolding handle_post_settings handle_get_settings
  handle_post_settings-IsDone env w req = ground arith

module _ {F : Type 0} ⦃fl : Float F⦄ ⦃u : Unicode⦄ where
  within-IsDone :
      (window : Option QueryWindow) (reply : QueryWindow → Response F)
      → ((win : QueryWindow) → IsDone (reply win))
      → IsDone (within window reply)
  within-IsDone none reply h = inr (inl refl)
  within-IsDone (some win) reply h = h win

  handle_stats-IsDone : (env : Env) (w : Worker F) (req : Request) → IsDone (handle_stats env w req)
  unfolding handle_stats
  handle_stats-IsDone env w req = ground arith

  handle_timeline-IsDone :
      (env : Env) (w : Worker F) (req : Request) → IsDone (handle_timeline env w req)
  unfolding handle_timeline
  handle_timeline-IsDone env w req = ground arith

  handle_providers-IsDone :
      (env : Env) (w : Worker F) (req : Request) → IsDone (handle_providers env w req)
  unfolding handle_providers
  handle_providers-IsDone env w req = ground arith

  handle_models-IsDone :
      (env : Env) (w : Worker F) (req : Request) → IsDone (handle_models env w req)
  unfolding handle_models
  handle_models-IsDone env w req = ground arith

  handle_accounts-IsDone :
      (env : Env) (w : Worker F) (req : Request) → IsDone (handle_accounts env w req)
  unfolding handle_accounts
  handle_accounts-IsDone env w req = ground arith

  handle_get_pricing-IsDone : (w : Worker F) → IsDone (handle_get_pricing w)
  unfolding handle_get_pricing
  handle_get_pricing-IsDone w = inl refl

  abbrev pub IsRouteServed : PluginEnv → Worker F → (Text → List Text) → Text → Text × Text → Type 0
  IsRouteServed p w query body route =
      IsServed (handle_management_request p w (route_request query body route)).0

  -- A request of the host with the method and, under `/v0/management`, the path of an advertised
  -- route, whatever its query and its body, reaches an endpoint, whose answer has the status 200,
  -- 400 or 500: it is never the answer for an unknown path or a wrong method.
  pub api_routes_served :
      (p : PluginEnv) (w : Worker F) (query : Text → List Text) (body : Text)
      → All (IsRouteServed p w query body) api_routes
  unfolding handle_management_request serve_http ends_with is_endpoint new_request clean_path
      eq_text has_prefix trim_prefix index
  api_routes_served p w query body =
      let request : Text → Text → Request = λ method name.
        api_request (route_request query body (method, text "/ego/" ++ name))
          (method, text "/ego/api/" ++ name) in
      let get = request (text "GET") in
      let post = request (text "POST") in
      (_, refl, handle_stats-IsDone p.env w (get (text "stats")))
      & (_, refl, handle_timeline-IsDone p.env w (get (text "timeline")))
      & (_, refl, handle_providers-IsDone p.env w (get (text "providers")))
      & (_, refl, handle_models-IsDone p.env w (get (text "models")))
      & (_, refl, handle_accounts-IsDone p.env w (get (text "accounts")))
      & (_, refl, handle_get_settings-IsDone p.env w)
      & (_, refl, handle_post_settings-IsDone p.env w (post (text "settings")))
      & (_, refl, handle_prune-IsDone p.env w (post (text "prune")))
      & (_, refl, handle_reset-IsDone p.env w)
      & (_, refl, handle_get_pricing-IsDone w)
      & tt
