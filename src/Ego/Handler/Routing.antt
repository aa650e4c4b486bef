-- ===== src/Ego/Handler/Routing.antt =====
-- What an answer of internal/ego/handler.go can be: the answer of one of its endpoints, or a refusal
-- of the path or the method.
use cli_control_account.Base.{ℕ, ◌≡◌, ◌⊎◌, ◌++◌, refl, inl, inr, Bool, true, false, if◌then◌else◌}
use cli_control_account.Text.{Text, text, eq_text, Unicode}
use cli_control_account.Float.{Float}
use cli_control_account.Ego.Worker.{Worker}
use cli_control_account.Ego.Handler.{
  Request, Response, Env, message, answer, only, ends_with, serve_http, handle_stats,
  handle_timeline, handle_providers, handle_models, handle_accounts, handle_prune, handle_reset,
  handle_post_settings, handle_get_settings, handle_get_pricing,
}

-- A property of both branches of a test.
pub either {ℓ κ} :
    {A : Type ℓ} (P : A → Type κ) (b : Bool) (x y : A) → P x → P y → P (if b then x else y)
either P true x y h k = h
either P false x y h k = k

module _ {F : Type 0} ⦃fl : Float F⦄ ⦃u : Unicode⦄ (P : Response F × Worker F → Type 0) (env : Env)
    (w : Worker F) (req : Request) where
  -- The property holds of a request that is refused.
  abbrev pub HoldsRefused : Type 0
  HoldsRefused =
      (status : ℕ) (t : Text) → (status ≡ 404) ⊎ (status ≡ 405) → P (answer status (message t), w)

  -- The property holds of each endpoint.
  pub record HoldsOfEndpoints : Type 0 where
    pub stats : P (handle_stats env w req, w)
    pub timeline : P (handle_timeline env w req, w)
    pub providers : P (handle_providers env w req, w)
    pub models : P (handle_models env w req, w)
    pub accounts : P (handle_accounts env w req, w)
    pub settings : P (handle_get_settings env w, w)
    pub new_settings : P (handle_post_settings env w req)
    pub prune : P (handle_prune env w req)
    pub reset : P (handle_reset env w)
    pub pricing : P (handle_get_pricing w, w)

  only_cases :
      HoldsRefused → (method : Text) (r : Response F × Worker F) → P r → P (only method w req r)
  only_cases refused method r h =
      either P (eq_text req.method method) r _ h
        (refused 405 (text "method not allowed, use " ++ method) (inr refl))

  pub serve_http_cases : HoldsRefused → HoldsOfEndpoints → P (serve_http env w req)
  unfolding serve_http
  serve_http_cases refused h =
      let path = req.url_path in
      let get = only_cases refused (text "GET") in
      let post = only_cases refused (text "POST") in
      either P (ends_with path (text "/stats")) _ _ (get _ h.stats) (
        either P (ends_with path (text "/timeline")) _ _ (get _ h.timeline) (
          either P (ends_with path (text "/providers")) _ _ (get _ h.providers) (
            either P (ends_with path (text "/models")) _ _ (get _ h.models) (
              either P (ends_with path (text "/accounts")) _ _ (get _ h.accounts) (
                either P (ends_with path (text "/settings")) _ _
                  (either P (eq_text req.method (text "GET")) _ _ h.settings (
                    either P (eq_text req.method (text "POST")) _ _ h.new_settings
                      (refused 405 (text "method not allowed") (inr refl))))
                  (either P (ends_with path (text "/prune")) _ _ (post _ h.prune) (
                    either P (ends_with path (text "/reset")) _ _ (post _ h.reset) (
                      either P (ends_with path (text "/pricing")) _ _ (get _ h.pricing)
                        (refused 404 (text "endpoint not found") (inl refl))))))))))
