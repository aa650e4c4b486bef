-- ===== src/Lifecycle.antt =====
-- internal/lifecycle/events.go: the dispatcher of the host's events. A value of Go's `any` and an
-- HTTP handler are parameters, and a map is an association list, each of its keys once; the order
-- in which a loop over a map takes the entries is a parameter too. The field customRouter, which is
-- written and never read, has no place in the state.
pub mod Dispatch
pub mod Registration
pub mod Routes
use cli_control_account.Base.{
  ℕ, List, [], ◌∷◌, Bool, true, false, Option, none, some, if◌then◌else◌, is_empty,
}
use cli_control_account.Text.{Text, text, eq_text}
use cli_control_account.TextMap.{TextMap, lookup, insert}

pub record PluginConfigField (V : Type 0) : Type 0 where
  pub name : Text
  pub field_type : Text
  pub description : Text
  pub enum_values : List Text
  pub required : Bool
  pub default_value : V

pub record PluginMenu : Type 0 where
  pub path : Text
  pub menu : Text
  pub description : Text

pub record PluginRegistration (V : Type 0) : Type 0 where
  pub id : Text
  pub name : Text
  pub version : Text
  pub author : Text
  pub description : Text
  pub logo : Text
  pub config_fields : List (PluginConfigField V)
  pub menus : List PluginMenu
  pub supports_oauth : Bool
  pub oauth_provider : Text

-- Text messages of the errors are kept as their kinds.
pub data LifecycleError : Type 0 where
  empty_path nil_router not_a_router unhandled_event bad_register_payload bad_reconfigure_payload :
      LifecycleError
  register_failed : Text → LifecycleError
  hook_failed : LifecycleError

-- A handler that may be nil.
abbrev pub Handler : Type 0 → Type 0
Handler H = Option H

-- MapManagementRouter
abbrev pub Router : Type 0 → Type 0
Router H = TextMap (Handler H)

abbrev pub Hook : Type 0 → Type 0
Hook V = V → Option V

pub record Dispatcher (V : Type 0) (H : Type 0) : Type 0 where
  pub metadata : PluginRegistration V
  pub config : TextMap V
  pub routes : TextMap (Handler H)
  pub event_hooks : TextMap (List (Hook V))

abbrev pub management_resource_path : Text
management_resource_path = text "/v0/resource/plugins/control-account/quota"

-- What is not empty replaces the old.
abbrev pub override {ℓ} : {A : Type ℓ} → List A → List A → List A
override [] old = old
override (x ∷ xs) old = x ∷ xs

-- newConfig[k] = v for the entries of the given map, in the order of the loop
unfoldable pub copy_config {ℓ} : {V : Type ℓ} → TextMap V → TextMap V → TextMap V
copy_config copied [] = copied
copy_config copied ((k, v) ∷ entries) = copy_config (insert k v copied) entries

-- RegisterResource of the in-memory router.
unfoldable pub register_resource : {H : Type 0} → Text → Handler H → Router H → Option (Router H)
register_resource path none r = none
register_resource path (some h) r = if is_empty path then none else some (insert path (some h) r)

-- The loop over the routes; the first that the router refuses ends it.
unfoldable pub register_routes :
    {H : Type 0} → TextMap (Handler H) → Router H → Option LifecycleError × Router H
unfolding register_resource
register_routes [] r = (none, r)
register_routes ((p, h) ∷ routes) r = elim (register_resource p h r) [
  | none ↦ (some (register_failed p), r)
  | some r' ↦ register_routes routes r'
]

-- The hooks run in turn, until one fails; the last result is returned.
unfoldable pub run_hooks : {V : Type 0} → List (Hook V) → V → V → Option V
run_hooks [] payload last = some last
run_hooks (hook ∷ hooks) payload last = elim (hook payload) [
  | none ↦ none
  | some res ↦ run_hooks hooks payload res
]

module _ {V : Type 0} {H : Type 0} where
  unfoldable pub register_route : Text → Handler H → Dispatcher V H → Dispatcher V H
  register_route path handler d = record d { routes = insert path handler d.routes }

  unfoldable pub get_route : Text → Dispatcher V H → Option (Handler H)
  get_route path d = lookup path d.routes

  unfoldable pub new_dispatcher : Text → H → Dispatcher V H
  unfolding register_route
  new_dispatcher version resource_handler =
      register_route management_resource_path (some resource_handler) (record {
        metadata = record {
          id = text "control-account";
          name = text "Control Account Quota Plugin";
          version = version;
          author = text "CLIProxyAPI Team";
          description = text "Account quota monitoring and management center dashboard plugin";
          logo = [];
          config_fields = [];
          menus =
              record {
                path = management_resource_path;
                menu = text "Quota Management";
                description =
                    text "View and filter real-time account quota windows and token metrics";
              }
              ∷ [];
          supports_oauth = false;
          oauth_provider = [];
        };
        config = [];
        routes = [];
        event_hooks = [];
      })

  unfoldable pub on_plugin_register :
      Option (PluginRegistration V) → Dispatcher V H → Dispatcher V H
  on_plugin_register none d = d
  on_plugin_register (some reg) d =
      let m = d.metadata in
      record d {
        metadata = record {
          id = override reg.id m.id;
          name = override reg.name m.name;
          version = override reg.version m.version;
          author = override reg.author m.author;
          description = override reg.description m.description;
          logo = m.logo;
          config_fields = override reg.config_fields m.config_fields;
          menus = override reg.menus m.menus;
          supports_oauth = reg.supports_oauth;
          oauth_provider = reg.oauth_provider;
        };
      }

  unfoldable pub on_plugin_reconfigure : Option (TextMap V) → Dispatcher V H → Dispatcher V H
  unfolding copy_config
  on_plugin_reconfigure none d = record d { config = [] }
  on_plugin_reconfigure (some config) d = record d { config = copy_config [] config }

  unfoldable pub get_config_value : Text → Dispatcher V H → Option V
  get_config_value key d = lookup key d.config

  -- `order` is the copy of the routes as the loop takes it.
  unfoldable pub on_management_register :
      (TextMap (Handler H) → TextMap (Handler H))
      → Option (Router H)
      → Dispatcher V H
      → Option LifecycleError × Option (Router H)
  unfolding register_routes
  on_management_register order none d = (some nil_router, none)
  on_management_register order (some r) d =
      let (e, r') = register_routes (order d.routes) r in (e, some r')

  -- The handler that the request is given to; `none` is the answer false.
  unfoldable pub on_management_handle : Option Text → Dispatcher V H → Option (Handler H)
  unfolding get_route
  on_management_handle none d = none
  on_management_handle (some path) d = get_route path d
