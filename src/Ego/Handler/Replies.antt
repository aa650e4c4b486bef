-- ===== src/Ego/Handler/Replies.antt =====
-- The status of an answer of internal/ego/handler.go goes with what the answer holds.
use cli_control_account.Base.{◌⊎◌, inl, inr, ℕ, ◌≡◌, refl, Bool, true, ◌||◌, ◌==◌, arith}
use cli_control_account.Text.{Text, Unicode}
use cli_control_account.Float.{Float}
use cli_control_account.Ego.Worker.{Worker}
use cli_control_account.Ego.Handler.Routing.{serve_http_cases}
use cli_control_account.Ego.Handler.{
  answer, Request, Response, Reply, Env, message, failure, serve_http, handle_stats,
  handle_timeline, handle_providers, handle_models, handle_accounts, handle_prune, handle_reset,
  handle_post_settings, handle_get_settings, handle_get_pricing,
}

-- The status that goes with what the answer holds: a message is a refusal of the request, a failure
-- is one of the storage, and everything else is the value of an endpoint.
abbrev pub is_coherent : {F : Type 0} → ℕ → Reply F → Bool
is_coherent status (message t) = (status == 400) || ((status == 404) || (status == 405))
is_coherent status (failure e) = status == 500
is_coherent status _ = status == 200

abbrev pub IsCoherent : {F : Type 0} → Response F → Type 0
IsCoherent r = is_coherent r.status r.reply ≡ true

refusal-IsCoherent :
    (F : Type 0) (status : ℕ) (t : Text)
    → (status ≡ 404) ⊎ (status ≡ 405)
    → IsCoherent {F = F} (answer status (message t))
refusal-IsCoherent F status t (inl e) = ground arith
refusal-IsCoherent F status t (inr e) = ground arith

module _ {F : Type 0} where
  handle_post_settings-IsCoherent :
      (env : Env) (w : Worker F) (req : Request) → IsCoherent (handle_post_settings env w req).0
  unfolding handle_post_settings handle_get_settings
  handle_post_settings-IsCoherent env w req = ground arith

  handle_prune-IsCoherent :
      (env : Env) (w : Worker F) (req : Request) → IsCoherent (handle_prune env w req).0
  unfolding handle_prune
  handle_prune-IsCoherent env w req = ground arith

  handle_reset-IsCoherent : (env : Env) (w : Worker F) → IsCoherent (handle_reset env w).0
  unfolding handle_reset
  handle_reset-IsCoherent env w = ground arith

module _ {F : Type 0} ⦃fl : Float F⦄ ⦃u : Unicode⦄ where
  handle_stats-IsCoherent :
      (env : Env) (w : Worker F) (req : Request) → IsCoherent (handle_stats env w req)
  unfolding handle_stats
  handle_stats-IsCoherent env w req = ground arith

  handle_timeline-IsCoherent :
      (env : Env) (w : Worker F) (req : Request) → IsCoherent (handle_timeline env w req)
  unfolding handle_timeline
  handle_timeline-IsCoherent env w req = ground arith

  handle_providers-IsCoherent :
      (env : Env) (w : Worker F) (req : Request) → IsCoherent (handle_providers env w req)
  unfolding handle_providers
  handle_providers-IsCoherent env w req = ground arith

  handle_models-IsCoherent :
      (env : Env) (w : Worker F) (req : Request) → IsCoherent (handle_models env w req)
  unfolding handle_models
  handle_models-IsCoherent env w req = ground arith

  handle_accounts-IsCoherent :
      (env : Env) (w : Worker F) (req : Request) → IsCoherent (handle_accounts env w req)
  unfolding handle_accounts
  handle_accounts-IsCoherent env w req = ground arith

  -- Whatever the request, the status of the answer goes with what it holds: 200 with the value of
  -- an endpoint, 400, 404 or 405 with a message, and 500 with the failure of the storage.
  pub serve_http-IsCoherent :
      (env : Env) (w : Worker F) (req : Request) → IsCoherent (serve_http env w req).0
  unfolding handle_get_settings handle_get_pricing
  serve_http-IsCoherent env w req =
      serve_http_cases (λ r. IsCoherent r.0) env w req
        (λ status t e. refusal-IsCoherent F status t e)
        (record {
          stats = handle_stats-IsCoherent env w req;
          timeline = handle_timeline-IsCoherent env w req;
          providers = handle_providers-IsCoherent env w req;
          models = handle_models-IsCoherent env w req;
          accounts = handle_accounts-IsCoherent env w req;
          settings = refl;
          new_settings = handle_post_settings-IsCoherent env w req;
          prune = handle_prune-IsCoherent env w req;
          reset = handle_reset-IsCoherent env w;
          pricing = refl;
        })
