-- ===== src/Process/Handled.antt =====
-- Every call of the host keeps the worker's bounds and its prices: main.go and
-- internal/ego/handler.go.
use cli_control_account.Base.{
  ◌≡◌, Bool, false, not, ◌||◌, Option, none, some, Bool-cases, inl, inr, Option-cases, is_empty,
  List, ◌++◌,
}
use cli_control_account.Base.Int.{ℤ}
use cli_control_account.Text.{Text, text, eq_text, has_prefix, Unicode}
use cli_control_account.Float.{Float}
use cli_control_account.Ego.Events.{RawUsageRecord, transform_to_ego_event}
use cli_control_account.Ego.Pricing.{ModelPricing}
use cli_control_account.Ego.Storage.Engine.{Storage}
use cli_control_account.Ego.Worker.{Worker, record_usage}
use cli_control_account.Ego.Handler.{
  Request, Response, Env, posted, with_payload, prune_days, serve_http, handle_post_settings,
  handle_prune, handle_reset,
}
use cli_control_account.Ego.Handler.Routing.{either, serve_http_cases}
use cli_control_account.Plugin.{
  PluginEnv, ManagementRequest, Envelope, decoded, clean_path, is_endpoint, new_request, serve_api,
  api_request, handle_management_request, handle_management_http, handle_plugin_method,
}
use cli_control_account.Process.Sound.{
  cache_of, cache_of-prune, cache_of-reset, IsSound, IsSound-cache, enqueue-IsSound,
  set_enabled-IsSound,
}

module _ {F : Type 0} (models : List (ModelPricing F)) where
  with_storage-IsSound :
      (w : Worker F) (p : Option (Storage F))
      → cache_of p ≡ cache_of w.storage
      → IsSound models w
      → IsSound models (record w { storage = p })
  with_storage-IsSound w p e v =
      IsSound-cache models w _
        (record {
          queue_fits = v.bounded.queue_fits;
          batch_open = v.bounded.batch_open;
          emptied = v.bounded.emptied;
        })
        e v

  with_payload-IsSound :
      (env : Env) (w : Worker F) (payload : Option (Option Bool))
      → IsSound models w
      → IsSound models (with_payload env w payload).1
  with_payload-IsSound env w none v = v
  with_payload-IsSound env w (some none) v = v
  with_payload-IsSound env w (some (some b)) v = set_enabled-IsSound models env.faults b w v

  -- The worker after a call is sound.
  abbrev pub IsKept : (R : Type 0) → R × Worker F → Type 0
  IsKept R r = IsSound models r.1

  handle_post_settings-IsKept :
      (env : Env) (w : Worker F) (req : Request)
      → IsSound models w
      → IsKept (Response F) (handle_post_settings env w req)
  unfolding handle_post_settings
  handle_post_settings-IsKept env w req v =
      either (IsKept (Response F)) (not (is_empty (req.query (text "enabled")))) _ _
        (set_enabled-IsSound models env.faults _ w v)
        (with_payload-IsSound env w (posted env req.content_length req.body) v)

  handle_prune-IsKept :
      (env : Env) (w : Worker F) (req : Request)
      → IsSound models w
      → IsKept (Response F) (handle_prune env w req)
  unfolding handle_prune
  handle_prune-IsKept env w req v =
      with_storage-IsSound w _
        (cache_of-prune env.faults env.days_ago (prune_days env req) w.storage) v

  handle_reset-IsKept :
      (env : Env) (w : Worker F) → IsSound models w → IsKept (Response F) (handle_reset env w)
  unfolding handle_reset
  handle_reset-IsKept env w v = with_storage-IsSound w _ (cache_of-reset env.faults w.storage) v

module _ {F : Type 0} ⦃fl : Float F⦄ ⦃u : Unicode⦄ (models : List (ModelPricing F)) where
  serve_http-IsKept :
      (env : Env) (w : Worker F) (req : Request)
      → IsSound models w
      → IsKept models (Response F) (serve_http env w req)
  serve_http-IsKept env w req v =
      serve_http_cases (IsKept models (Response F)) env w req (λ status t e. v)
        (record {
          stats = v;
          timeline = v;
          providers = v;
          models = v;
          accounts = v;
          settings = v;
          new_settings = handle_post_settings-IsKept models env w req v;
          prune = handle_prune-IsKept models env w req v;
          reset = handle_reset-IsKept models env w v;
          pricing = v;
        })

  serve_api-IsKept :
      (env : Env) (w : Worker F) (req : ManagementRequest) (line : Option (Text × Text))
      → IsSound models w
      → IsKept models (Envelope F) (serve_api env w req line)
  serve_api-IsKept env w req none v = v
  serve_api-IsKept env w req (some line) v = ((serve_http-IsKept env w (api_request req line) v))

  handle_management_request-IsKept :
      (p : PluginEnv) (w : Worker F) (req : ManagementRequest)
      → IsSound models w
      → IsKept models (Envelope F) (handle_management_request p w req)
  unfolding handle_management_request
  handle_management_request-IsKept p w req v =
      either (IsKept models (Envelope F)) (has_prefix req.path (text "/v0/management/ego")) _ _
        (either (IsKept models (Envelope F)) (not (is_endpoint (clean_path req.path))) _ _ (v) (
          serve_api-IsKept p.env w req
            (new_request p.parse_odd req.method (text "/ego/api/" ++ clean_path req.path)) v))
        (v)

  handle_management_http-IsKept :
      (p : PluginEnv) (w : Worker F) (request : Text)
      → IsSound models w
      → IsKept models (Envelope F) (handle_management_http p w request)
  unfolding handle_management_http
  handle_management_http-IsKept p w request v =
      elim (Option-cases (decoded p.unmarshal_request request)) [
        | inl bad ↦ rw (bad, handle_management_http) (v)
        | inr (req, good) ↦
            rw (good, handle_management_http) (handle_management_request-IsKept p w req v)
      ]

  record_usage-IsSound :
      (unmarshal : Text → Option RawUsageRecord) (now : ℤ) (raw : Text) (w : Worker F)
      → IsSound models w
      → IsSound models (record_usage unmarshal now raw w)
  unfolding record_usage
  record_usage-IsSound unmarshal now raw w v = elim (Bool-cases (not w.enabled || is_empty raw)) [
    | inl ignored ↦ simp ignored v
    | inr taken ↦ elim (Option-cases (unmarshal raw)) [
      | inl bad ↦ simp (taken, bad) v
      | inr (rec, good) ↦
          simp (taken, good)
            (enqueue-IsSound models (λ c. false) (transform_to_ego_event now rec) w v)
    ]
  ]

  pub handle_plugin_method-IsKept :
      (p : PluginEnv) (w : Worker F) (method request : Text)
      → IsSound models w
      → IsKept models (Envelope F) (handle_plugin_method p w method request)
  unfolding handle_plugin_method
  handle_plugin_method-IsKept p w method request v =
      either (IsKept models (Envelope F))
        (eq_text method (text "plugin.register") || eq_text method (text "plugin.reconfigure")) _ _
        (v)
        (either (IsKept models (Envelope F)) (eq_text method (text "management.register")) _ _ (v) (
          either (IsKept models (Envelope F)) (eq_text method (text "usage.handle")) _ _
            (record_usage-IsSound p.unmarshal_usage p.env.now request w v)
            (either (IsKept models (Envelope F)) (eq_text method (text "management.handle")) _ _
              (handle_management_http-IsKept p w request v) (v))))
