-- ===== src/Advertised.antt =====
-- What main.go tells the host about the plugin: the answers of plugin.register and
-- management.register.
use cli_control_account.Base.{ℕ, List, [], ◌∷◌, Bool, true}
use cli_control_account.Text.{Text, text}

pub record Registration : Type 0 where
  pub schema_version : ℕ
  pub name : Text
  pub version : Text
  pub author : Text
  pub description : Text
  pub repository : Text
  pub logo : Text
  pub config_fields : List Text
  pub management_api : Bool
  pub usage_plugin : Bool

unfoldable pub plugin_registration : Text → Registration
plugin_registration version = record {
  schema_version = 6;
  name = text "control-account";
  version = version;
  author = text "Clowraider";
  description = text "Quota management dashboard and developer Ego analytics";
  repository = text "https://github.com/Clowraider/cli-control-account";
  logo = [];
  config_fields = [];
  management_api = true;
  usage_plugin = true;
}

pub record MenuEntry : Type 0 where
  pub path : Text
  pub menu : Text
  pub description : Text

abbrev pub menu_entries : List MenuEntry
menu_entries =
    record {
      path = text "/quota";
      menu = text "Control Account";
      description = text "Quota management dashboard with account prefix display";
    }
    ∷ record {
      path = text "/ego";
      menu = text "Ego";
      description = text "Developer Ego analytics: token burn & latency metrics";
    }
    ∷ []

-- The methods and the paths of the management API.
abbrev pub api_routes : List (Text × Text)
api_routes =
    (text "GET", text "/ego/stats")
    ∷ (text "GET", text "/ego/timeline")
    ∷ (text "GET", text "/ego/providers")
    ∷ (text "GET", text "/ego/models")
    ∷ (text "GET", text "/ego/accounts")
    ∷ (text "GET", text "/ego/settings")
    ∷ (text "POST", text "/ego/settings")
    ∷ (text "POST", text "/ego/prune")
    ∷ (text "POST", text "/ego/reset")
    ∷ (text "GET", text "/ego/pricing")
    ∷ []
