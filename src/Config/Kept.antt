-- ===== src/Config/Kept.antt =====
-- Save and then Load of internal/config/preferences.go.
use virtual_private_node.Base.{String, ◌≡◌, List, [], ◌∷◌, ◌++◌, some, ok}
use virtual_private_node.Base.Text.{Text}
use virtual_private_node.Config.{decode_object}
use virtual_private_node.Config.Preferences.{Preferences, PreferencesJson, preference_fields}

-- The JSON library writes the preferences so that their fields are found, and read back.
pub record WritesPreferences (json : PreferencesJson) (prefs : Preferences) : Type 0 where
  pub bytes : Text
  pub names : List String
  pub marshals : json.marshal prefs ≡ some bytes
  pub fields : decode_object json.scanner preference_fields (bytes ++ (b'\n' ∷ [])) ≡ ok names
  pub unmarshals : json.unmarshal (bytes ++ (b'\n' ∷ [])) ≡ some prefs

module _ (json : PreferencesJson) (prefs : Preferences) (w : WritesPreferences json prefs) where
  abbrev bytes : Text
  bytes = w.bytes ++ (b'\n' ∷ [])
