-- ===== src/Config/Preferences.antt =====
-- The preferences file of a user (internal/config/preferences.go). The directory and the file are those
-- of a store of Config.antt; `Faults.sync_dir` is a failure other than ErrInvalid, which is passed over.
use virtual_private_node.Base.{
  ℕ, String, Bool, true, false, not, ◌||◌, Option, none, some, List, [], ◌∷◌, Result, ok, err,
  ◌>>=◌, ◌>>◌, guard, ◌==◌, str_eq,
}
use virtual_private_node.Base.Int.{ℤ, pos, eqb_ℤ}
use virtual_private_node.Base.Text.{Text}
use virtual_private_node.Lifecycle.Objects.{
  Object, Node, absent, blocked, present, Kind, regular, directory, symlink, is_regular,
}
use virtual_private_node.Config.{
  ConfigJson, StoreError, Files, decode_object, validate_object, owned_by, wrong_kind, wrong_mode,
  wrong_owner, not_inspected, not_read, not_unmarshalled, not_made, not_created, not_written,
  not_chmodded, not_synced, not_closed_file, not_renamed, invalid, bad_schema, bad_theme,
}
use virtual_private_node.Config.Save.{
  Faults, Process, Saved, made_dir, check_dir, sync_calls, encoded,
}

pub record Preferences : Type 0 where
  pub schema : ℤ
  pub theme : String

abbrev pub default_preferences : Preferences
default_preferences = record { schema = pos 1; theme = "dark" }

unfoldable pub validate_preferences : Preferences → Result StoreError (Unit {0})
validate_preferences p = do
  guard (eqb_ℤ p.schema (pos 1)) (invalid bad_schema)
  guard (str_eq p.theme "dark" || str_eq p.theme "light") (invalid bad_theme)

abbrev pub preference_fields : List String
preference_fields = "schema" ∷ "theme" ∷ []

-- The decoder of the store, with Unmarshal and MarshalIndent for preferences.
pub record PreferencesJson : Type 0 where
  pub scanner : ConfigJson
  pub unmarshal : Text → Option Preferences
  pub marshal : Preferences → Option Text

-- 0o700 and 0o600.
abbrev pub own_dir_mode : ℕ
own_dir_mode = 448

abbrev pub own_file_mode : ℕ
own_file_mode = 384

abbrev pub read_preferences : Option Preferences → Result StoreError Preferences
read_preferences none = err not_unmarshalled
read_preferences (some p) = ok p

unfoldable pub check_own_file : Process → Node → Result StoreError (Unit {0})
check_own_file p n = do
  guard (is_regular n.kind) wrong_kind
  guard (n.mode == own_file_mode) wrong_mode
  guard (owned_by p.euid p.egid n) wrong_owner

-- The file that Lstat found.
unfoldable pub load_found :
    PreferencesJson → Process → Bool → Object → Node → Result StoreError Preferences
load_found json p readable dir n = do
  validate_object dir true own_dir_mode p.euid p.egid
  check_own_file p n
  guard readable not_read
  names ← decode_object json.scanner preference_fields n.content
  prefs ← read_preferences (json.unmarshal n.content)
  validate_preferences prefs
  ok prefs

unfoldable pub load_object :
    PreferencesJson → Process → Bool → Object → Object → Result StoreError Preferences
load_object json p readable dir absent = ok default_preferences
load_object json p readable dir blocked = err not_inspected
load_object json p readable dir (present n) = load_found json p readable dir n

abbrev pub load_preferences :
    PreferencesJson → Process → Bool → Files → Result StoreError Preferences
load_preferences json p readable d = load_object json p readable d.dir d.file

-- What MkdirAll accepts follows a symbolic link, which the check after it refuses.
abbrev pub made_all : Kind → Result StoreError (Unit {0})
made_all directory = ok tt
made_all symlink = ok tt
made_all _ = err not_made

unfoldable pub make_all : Faults → Process → Object → Result StoreError (Unit {0}) × Object
make_all f p (present n) = (made_all n.kind, present n)
make_all f p blocked = (err not_made, blocked)
make_all f p absent = elim f.mkdir [
  | true ↦ (err not_made, absent)
  | false ↦ (ok tt, present (made_dir p))
]

unfoldable pub check_replaced : Process → Object → Result StoreError (Unit {0})
check_replaced p absent = ok tt
check_replaced p blocked = err not_inspected
check_replaced p (present n) = check_own_file p n

unfoldable pub stage_preferences : Faults → Result StoreError (Unit {0})
stage_preferences f = do
  guard (not f.write) not_written
  guard (not f.chmod) not_chmodded
  guard (not f.sync) not_synced
  guard (not f.close) not_closed_file
  guard (not f.rename) not_renamed

abbrev pub own_file : Process → Text → Node
own_file p content = record {
  kind = regular;
  mode = own_file_mode;
  uid = p.euid;
  gid = p.egid;
  nlink = 1;
  content = content;
}

unfoldable pub publish_preferences : Faults → Process → Text → Files → Saved
publish_preferences f p content d = elim f.create [
  | true ↦ (err not_created, d)
  | false ↦ elim (stage_preferences f) [
    | err e ↦ (err e, record d { temp_left = d.temp_left || f.remove })
    | ok u ↦ (sync_calls f, record d { file = present (own_file p content) })
  ]
]

-- From the checks of the directory on.
unfoldable pub replace_preferences :
    PreferencesJson → Faults → Process → Preferences → Files → Saved
replace_preferences json f p prefs d = elim (check_dir f p.euid p.egid d.dir) [
  | err e ↦ (err e, d)
  | ok n ↦
      let secured : Files = record d { dir = present (record n { mode = own_dir_mode }) } in
      elim (check_replaced p d.file) [
        | err e ↦ (err e, secured)
        | ok u ↦ elim (encoded (json.marshal prefs)) [
          | err e ↦ (err e, secured)
          | ok content ↦ publish_preferences f p content secured
        ]
      ]
]

unfoldable pub save_preferences : PreferencesJson → Faults → Process → Preferences → Files → Saved
save_preferences json f p prefs d = elim (validate_preferences prefs) [
  | err e ↦ (err e, d)
  | ok v ↦
      let (outcome, made) = make_all f p d.dir in
      elim outcome [
        | err e ↦ (err e, record d { dir = made })
        | ok u ↦ replace_preferences json f p prefs (record d { dir = made })
      ]
]
