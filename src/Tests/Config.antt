-- ===== src/Tests/Config.antt =====
-- Saving and loading the configuration (internal/config/config.go) at concrete files.
use virtual_private_node.Base.Int.{pos}
use virtual_private_node.Config.Preferences.{Preferences, PreferencesJson}
use virtual_private_node.Base.{true, false, some, [], ◌∷◌}
use virtual_private_node.Base.Text.{Text, codes}
use virtual_private_node.Lifecycle.Objects.{absent}
use virtual_private_node.Config.{ConfigJson, Store, Files, default_config, named, at_eof}
use virtual_private_node.Config.Save.{Faults, Process}

-- A JSON library for the default configuration.
abbrev default_json : ConfigJson
default_json = record {
  opens = λ t. some true;
  fields = λ t.
      named "schema" true
      ∷ named "network" true
      ∷ named "prune_size_gb" true
      ∷ named "db_cache_mb" true
      ∷ named "p2p_mode" true
      ∷ named "auto_unlock_enabled" true
      ∷ named "syncthing_enabled" true
      ∷ [];
  closes = λ t. true;
  trailer = λ t. at_eof;
  unmarshal = λ t. some default_config;
  marshal = λ c. some (codes "{}");
}

abbrev production : Store
production = record { owner_uid = 0; group_gid = 0; named_group = true; require_root_write = true }

abbrev root : Process
root = record { euid = 0; egid = 0; made_mode = 488 }

abbrev no_faults : Faults
no_faults = record {
  mkdir = false;
  chown_dir = false;
  chmod_dir = false;
  create = false;
  write = false;
  chmod = false;
  chown = false;
  sync = false;
  close = false;
  rename = false;
  remove = false;
  open_dir = false;
  sync_dir = false;
}

abbrev no_files : Files
no_files = record { dir = absent; file = absent; temp_left = false }

-- The rename fails.
abbrev rename_fails : Faults
rename_fails = record no_faults { rename = true }

-- The light theme, which is saved where nothing was.
abbrev light : Preferences
light = record { schema = pos 1; theme = "light" }

abbrev light_json : PreferencesJson
light_json = record {
  scanner = record default_json { fields = λ t. named "schema" true ∷ named "theme" true ∷ [] };
  unmarshal = λ t. some light;
  marshal = λ p. some (codes "{}");
}
