-- ===== src/Tests/Lifecycle.antt =====
-- internal/lifecycle at work.
use cli_control_account.Base.{Option, ℕ, ◌≡◌, refl, [], ◌∷◌, true, none, some}
use cli_control_account.Text.{Text, text, eq_text}
use cli_control_account.TextMap.{TextMap, lookup}
use cli_control_account.Lifecycle.{
  PluginRegistration, Dispatcher, new_dispatcher, on_plugin_register, Router,
  on_management_register, get_route, register_route,
}
use cli_control_account.Lifecycle.Dispatch.{Decoders}
use cli_control_account.Lifecycle.Registration.{IsNamed, or_else, on_plugin_register_lem}
use cli_control_account.Lifecycle.Routes.{on_management_register_lem}

abbrev fresh_plugin : Dispatcher ℕ ℕ
fresh_plugin = new_dispatcher (text "0.7.0") 1

fresh_plugin-IsNamed : IsNamed fresh_plugin.metadata
unfolding new_dispatcher register_route
fresh_plugin-IsNamed = ((λ e. cc), (λ e. cc), (λ e. cc), (λ e. cc))

-- A registration with a new name and nothing else.
abbrev renamed : PluginRegistration ℕ
renamed = record {
  id = [];
  name = text "Quota";
  version = [];
  author = [];
  description = [];
  logo = [];
  config_fields = [];
  menus = [];
  supports_oauth = true;
  oauth_provider = [];
}

on_plugin_register_lem_example :
    let d' = on_plugin_register (some renamed) fresh_plugin in
    IsNamed d'.metadata × (on_plugin_register (some renamed) d' ≡ d')
on_plugin_register_lem_example =
    on_plugin_register_lem (some renamed) fresh_plugin fresh_plugin-IsNamed

abbrev config : TextMap ℕ
config = (text "limit", 3) ∷ (text "depth", 4) ∷ []

absent : lookup {V = ℕ} (text "limit") ((text "depth", 4) ∷ []) ≡ none
unfolding lookup eq_text
absent = refl

absent_last : lookup {V = ℕ} (text "depth") [] ≡ none
unfolding lookup
absent_last = refl

abbrev decoders : Decoders ℕ ℕ
decoders = record { decode_registration = λ s. none; decode_config = λ s. none; as_value = λ p. 0 }

abbrev two_routes : Dispatcher ℕ ℕ
two_routes = record fresh_plugin { routes = (text "/quota", some 1) ∷ (text "/ego", some 2) ∷ [] }

no_ego : lookup {V = Option ℕ} (text "/quota") ((text "/ego", some 2) ∷ []) ≡ none
unfolding lookup eq_text
no_ego = refl

nothing_left : lookup {V = Option ℕ} (text "/ego") [] ≡ none
unfolding lookup
nothing_left = refl

on_management_register_lem_example :
    (r' : Router ℕ) × (on_management_register (λ m. m) (some []) two_routes ≡ (none, some r'))
    × ((k : Text) → lookup k r' ≡ or_else (get_route k two_routes) (lookup k []))
on_management_register_lem_example =
    on_management_register_lem (λ m. m) [] two_routes (λ k. refl) (no_ego, (nothing_left, tt))
      ((refl, λ e. cc), ((refl, λ e. cc), tt))
