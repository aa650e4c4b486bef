-- ===== src/Version.antt =====
-- internal/version/version.go: the version, which a release build may set.
use cli_control_account.Base.{◌≡◌, refl, ◌++◌, false}
use cli_control_account.Text.{Text, text, has_prefix, trim_prefix}

abbrev pub default_version : Text
default_version = text "0.7.0"

-- init, on what the build has set
unfoldable pub version_after_init : Text → Text
version_after_init version = trim_prefix version (text "v")

-- A tag with and without its `v` gives the same version.
version_after_init_lem :
    (tag : Text)
    → has_prefix tag (text "v") ≡ false
    → (version_after_init tag ≡ tag) × (version_after_init (text "v" ++ tag) ≡ tag)
unfolding version_after_init trim_prefix has_prefix
version_after_init_lem tag h = (rw h refl, refl)
