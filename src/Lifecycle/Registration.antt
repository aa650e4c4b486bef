-- ===== src/Lifecycle/Registration.antt =====
-- What a registration and a reconfiguration leave in internal/lifecycle/events.go.
use cli_control_account.Base.{
  ◌≡◌, ◌≢◌, refl, ◌∙◌, subst, List, [], ◌∷◌, true, Option, none, some, arith,
}
use cli_control_account.Text.{Text, eq_text}
use cli_control_account.Text.Laws.{eq_text-eq}
use cli_control_account.TextMap.{TextMap, lookup, insert, lookup-insert}
use cli_control_account.Lifecycle.{
  PluginRegistration, Dispatcher, override, on_plugin_register, copy_config, on_plugin_reconfigure,
  get_config_value,
}

-- The identity of a plugin: no part of it is empty.
abbrev pub IsNamed : {V : Type 0} → PluginRegistration V → Type 0
IsNamed m = (m.id ≢ []) × (m.name ≢ []) × (m.version ≢ []) × (m.author ≢ [])

override-ne-nil {ℓ} : {A : Type ℓ} (new old : List A) → old ≢ [] → override new old ≢ []
override-ne-nil [] old h = h
override-ne-nil (x ∷ xs) old h = ground arith

override_twice {ℓ} :
    {A : Type ℓ} (new old : List A) → override new (override new old) ≡ override new old
override_twice [] old = refl
override_twice (x ∷ xs) old = refl

-- No registration, whatever it leaves out, takes the identity of the plugin away, and registering
-- the same a second time changes nothing.
pub on_plugin_register_lem :
    {V H : Type 0} (reg : Option (PluginRegistration V)) (d : Dispatcher V H)
    → IsNamed d.metadata
    → let d' = on_plugin_register reg d in IsNamed d'.metadata × (on_plugin_register reg d' ≡ d')
unfolding on_plugin_register
on_plugin_register_lem none d h = (h, refl)
on_plugin_register_lem (some reg) d h = (
  (
    override-ne-nil reg.id d.metadata.id h.0,
    override-ne-nil reg.name d.metadata.name h.1,
    override-ne-nil reg.version d.metadata.version h.2,
    override-ne-nil reg.author d.metadata.author h.3,
  ),
  rw
      (
        override_twice reg.id d.metadata.id,
        override_twice reg.name d.metadata.name,
        override_twice reg.version d.metadata.version,
        override_twice reg.author d.metadata.author,
        override_twice reg.description d.metadata.description,
        override_twice reg.config_fields d.metadata.config_fields,
        override_twice reg.menus d.metadata.menus,
      )
      refl,
)

-- Each key stands once.
abbrev pub IsMap : {V : Type 0} → TextMap V → Type 0
IsMap [] = Unit
IsMap ((k, v) ∷ m) = (lookup k m ≡ none) × IsMap m

abbrev pub or_else : {V : Type 0} → Option V → Option V → Option V
or_else none w = w
or_else (some v) w = some v

lookup-copy :
    {V : Type 0} (copied entries : TextMap V) (k : Text)
    → IsMap entries
    → lookup k (copy_config copied entries) ≡ or_else (lookup k entries) (lookup k copied)
unfolding copy_config lookup
lookup-copy copied [] k h = refl
lookup-copy copied ((j, v) ∷ entries) k h =
    let once : eq_text j k ≡ true → lookup k entries ≡ none =
      λ e. subst (λ x. lookup x entries ≡ none) (eq_text-eq j k e) h.0 in
    ground (arith, lookup-copy (insert j v copied) entries k h.1, lookup-insert j k v copied, once)

or_else-none : {V : Type 0} (o : Option V) → or_else o none ≡ o
or_else-none none = refl
or_else-none (some v) = refl

-- After a reconfiguration, a key has the value of the new configuration, and nothing of the old one
-- is left; without a configuration, no key has a value.
pub get_config_value-reconfigure :
    {V H : Type 0} (config : TextMap V) (key : Text) (d : Dispatcher V H)
    → IsMap config
    → (get_config_value key (on_plugin_reconfigure (some config) d) ≡ lookup key config)
      × (get_config_value key (on_plugin_reconfigure none d) ≡ none)
unfolding get_config_value on_plugin_reconfigure lookup
get_config_value-reconfigure config key d h =
    (lookup-copy [] config key h ∙ or_else-none (lookup key config), refl)
