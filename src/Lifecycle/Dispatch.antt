-- ===== src/Lifecycle/Dispatch.antt =====
-- `DispatchEvent` of internal/lifecycle/events.go.
use cli_control_account.Base.{
  ◌≡◌, arith, List, [], Bool, true, false, Option, none, some, if◌then◌else◌, is_empty,
}
use cli_control_account.Text.{Text, text, eq_text}
use cli_control_account.TextMap.{TextMap, lookup}
use cli_control_account.Lifecycle.{
  PluginRegistration, LifecycleError, bad_register_payload, bad_reconfigure_payload, not_a_router,
  unhandled_event, hook_failed, Handler, Router, Hook, Dispatcher, on_plugin_register,
  on_plugin_reconfigure, on_management_register, run_hooks,
}

-- The dynamic types of a payload that the dispatcher tells apart.
pub data Payload (V : Type 0) (H : Type 0) : Type 0 where
  registration : Option (PluginRegistration V) → Payload V H
  bytes : Text → Payload V H
  config_map : Option (TextMap V) → Payload V H
  router : Option (Router H) → Payload V H
  other : V → Payload V H

pub data DispatchResult (V : Type 0) : Type 0 where
  metadata_of : PluginRegistration V → DispatchResult V
  flag : Bool → DispatchResult V
  hook_result : V → DispatchResult V
  nothing : DispatchResult V

-- The JSON decoders, `none` being an error, and what a hook sees of a payload.
pub record Decoders (V : Type 0) (H : Type 0) : Type 0 where
  pub decode_registration : Text → Option (PluginRegistration V)
  pub decode_config : Text → Option (Option (TextMap V))
  pub as_value : Payload V H → V

-- What DispatchEvent returns: the value, the error, and the dispatcher and the router after it.
abbrev pub Outcome : Type 0 → Type 0 → Type 0
Outcome V H = DispatchResult V × Option LifecycleError × Dispatcher V H × Option (Router H)

abbrev no_error : Option LifecycleError → Bool
no_error none = true
no_error (some e) = false

abbrev pub hooks_of : {V : Type 0} → Option (List (Hook V)) → List (Hook V)
hooks_of none = []
hooks_of (some hooks) = hooks

module _ {V : Type 0} {H : Type 0} where
  -- The registration in a payload; a payload of another type counts as none.
  abbrev pub registration_in : Decoders V H → Payload V H → Option (Option (PluginRegistration V))
  registration_in dec (registration reg) = some reg
  registration_in dec (bytes s) = elim (dec.decode_registration s) [
    | none ↦ none
    | some reg ↦ some (some reg)
  ]
  registration_in dec (config_map m) = some none
  registration_in dec (router r) = some none
  registration_in dec (other v) = some none

  abbrev pub config_in : Decoders V H → Payload V H → Option (Option (TextMap V))
  config_in dec (registration reg) = some none
  config_in dec (bytes s) = dec.decode_config s
  config_in dec (config_map m) = some m
  config_in dec (router r) = some none
  config_in dec (other v) = some none

  abbrev pub router_in : Payload V H → Option (Router H)
  router_in (router r) = r
  router_in (registration reg) = none
  router_in (bytes s) = none
  router_in (config_map m) = none
  router_in (other v) = none

  abbrev pub after_register : Option (Option (PluginRegistration V)) → Dispatcher V H → Outcome V H
  after_register none d = (nothing, some bad_register_payload, d, none)
  after_register (some reg) d =
      let d' = on_plugin_register reg d in (metadata_of d'.metadata, none, d', none)

  abbrev pub after_reconfigure : Option (Option (TextMap V)) → Dispatcher V H → Outcome V H
  after_reconfigure none d = (nothing, some bad_reconfigure_payload, d, none)
  after_reconfigure (some config) d = (flag true, none, on_plugin_reconfigure config d, none)

  abbrev pub after_management :
      (TextMap (Handler H) → TextMap (Handler H)) → Option (Router H) → Dispatcher V H → Outcome V H
  after_management order none d = (flag false, some not_a_router, d, none)
  after_management order (some r) d =
      let (e, r') = on_management_register order (some r) d in (flag (no_error e), e, d, r')

  abbrev pub after_hooks : Option V → Dispatcher V H → Outcome V H
  after_hooks none d = (nothing, some hook_failed, d, none)
  after_hooks (some v) d = (hook_result v, none, d, none)

  unfoldable pub dispatch_event :
      (TextMap (Handler H) → TextMap (Handler H))
      → Decoders V H
      → Text
      → Payload V H
      → Dispatcher V H
      → Outcome V H
  unfolding on_plugin_register on_plugin_reconfigure on_management_register run_hooks
  dispatch_event order dec event payload d =
      let hooks = hooks_of (lookup event d.event_hooks) in
      let v = dec.as_value payload in
      if eq_text event (text "plugin.register")
      then after_register (registration_in dec payload) d
      else if eq_text event (text "plugin.reconfigure")
      then after_reconfigure (config_in dec payload) d
      else if eq_text event (text "management.register")
      then after_management order (router_in payload) d
      else if is_empty hooks
      then (nothing, some unhandled_event, d, none)
      else after_hooks (run_hooks hooks v v) d

  -- An event that fails leaves the dispatcher as it was, and so does every event, failed or not,
  -- other than the registration and the reconfiguration of the plugin.
  pub dispatch_event_keeps :
      (order : TextMap (Handler H) → TextMap (Handler H)) (dec : Decoders V H) (event : Text)
      (payload : Payload V H) (d : Dispatcher V H) (e : LifecycleError)
      → let (result, error, d', r') = dispatch_event order dec event payload d in
        (error ≡ some e → d' ≡ d)
        × (eq_text event (text "plugin.register") ≡ false
            → eq_text event (text "plugin.reconfigure") ≡ false
            → d' ≡ d)
  unfolding dispatch_event
  dispatch_event_keeps order dec event payload d e = (λ h. ground arith, λ h k. ground arith)
