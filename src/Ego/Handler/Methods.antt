-- ===== src/Ego/Handler/Methods.antt =====
-- Which requests internal/ego/handler.go lets change the worker.
use cli_control_account.Base.{◌≡◌, ◌⊎◌, false, arith}
use cli_control_account.Text.{text, eq_text, Unicode}
use cli_control_account.Float.{Float}
use cli_control_account.Ego.Worker.{Worker}
use cli_control_account.Ego.Handler.{Request, Env, serve_http}

module _ {F : Type 0} ⦃fl : Float F⦄ ⦃u : Unicode⦄ where
  -- A request that is not a POST, whatever its path and its parameters, leaves the worker and its
  -- storage as they were.
  pub serve_http_keeps :
      (env : Env) (w : Worker F) (req : Request)
      → eq_text req.method (text "POST") ≡ false
      → (serve_http env w req).1 ≡ w
  unfolding serve_http
  serve_http_keeps env w req h = ground arith

  -- A request that is neither a GET nor a POST is answered 405, or 404 if its path is no endpoint.
  pub serve_http_other_method :
      (env : Env) (w : Worker F) (req : Request)
      → eq_text req.method (text "GET") ≡ false
      → eq_text req.method (text "POST") ≡ false
      → ((serve_http env w req).0.status ≡ 405) ⊎ ((serve_http env w req).0.status ≡ 404)
  unfolding serve_http
  serve_http_other_method env w req h k = ground arith
