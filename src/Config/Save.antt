-- ===== src/Config/Save.antt =====
-- Saving the system configuration (Save of internal/config/config.go) where every call may fail.
use virtual_private_node.Base.{
  ℕ, Bool, true, false, not, Option, none, some, [], ◌∷◌, ◌++◌, Result, ok, err, ◌>>=◌, ◌>>◌, guard,
  ◌==◌, ◌||◌,
}
use virtual_private_node.Base.Text.{Text}
use virtual_private_node.Lifecycle.Objects.{
  Object, Node, absent, blocked, present, regular, directory, is_regular, is_directory,
}
use virtual_private_node.Config.{
  AppConfig, ConfigJson, Store, StoreError, Files, validate, validated, ownership, inspected,
  owned_by, dir_mode, file_mode, wrong_kind, wrong_mode, wrong_owner, not_inspected, not_root,
  not_made, not_chowned, not_chmodded, not_encoded, not_created, not_written, not_synced,
  not_closed_file, not_renamed, not_opened_dir, not_synced_dir,
}

-- Which calls of one save fail.
pub record Faults : Type 0 where
  pub mkdir : Bool
  pub chown_dir : Bool
  pub chmod_dir : Bool
  pub create : Bool
  pub write : Bool
  pub chmod : Bool
  pub chown : Bool
  pub sync : Bool
  pub close : Bool
  pub rename : Bool
  pub remove : Bool
  pub open_dir : Bool
  pub sync_dir : Bool

-- The process: its user and group, and what its umask leaves of the directory's mode.
pub record Process : Type 0 where
  pub euid : ℕ
  pub egid : ℕ
  pub made_mode : ℕ

abbrev pub Saved : Type 0
Saved = Result StoreError (Unit {0}) × Files

abbrev pub made_dir : Process → Node
made_dir p = record {
  kind = directory;
  mode = p.made_mode;
  uid = p.euid;
  gid = p.egid;
  nlink = 1;
  content = [];
}

-- Mkdir and, if it made the directory, Chown.
unfoldable pub make_dir : Faults → Process → ℕ → ℕ → Object → Result StoreError (Unit {0}) × Object
make_dir f p uid gid (present n) = (ok tt, present n)
make_dir f p uid gid blocked = (err not_made, blocked)
make_dir f p uid gid absent = elim f.mkdir [
  | true ↦ (err not_made, absent)
  | false ↦ elim f.chown_dir [
    | true ↦ (err not_chowned, present (made_dir p))
    | false ↦ (ok tt, present (record (made_dir p) { uid = uid; gid = gid }))
  ]
]

-- The checks of the directory.
unfoldable pub check_dir : Faults → ℕ → ℕ → Object → Result StoreError Node
check_dir f uid gid o = do
  n ← inspected o
  guard (is_directory n.kind) wrong_kind
  guard (owned_by uid gid n) wrong_owner
  guard (not f.chmod_dir) not_chmodded
  ok n

-- The checks of the file that is replaced, if there is one.
unfoldable pub check_destination : ℕ → ℕ → Object → Result StoreError (Unit {0})
check_destination uid gid absent = ok tt
check_destination uid gid blocked = err not_inspected
check_destination uid gid (present n) = do
  guard (is_regular n.kind) wrong_kind
  guard (n.mode == file_mode) wrong_mode
  guard (owned_by uid gid n) wrong_owner

-- The calls on the temporary file, up to the rename.
unfoldable pub stage_calls : Faults → Result StoreError (Unit {0})
stage_calls f = do
  guard (not f.write) not_written
  guard (not f.chmod) not_chmodded
  guard (not f.chown) not_chowned
  guard (not f.sync) not_synced
  guard (not f.close) not_closed_file
  guard (not f.rename) not_renamed

-- The calls after it.
unfoldable pub sync_calls : Faults → Result StoreError (Unit {0})
sync_calls f = do guard (not f.open_dir) not_opened_dir; guard (not f.sync_dir) not_synced_dir

abbrev pub published : ℕ → ℕ → Text → Node
published uid gid content = record {
  kind = regular;
  mode = file_mode;
  uid = uid;
  gid = gid;
  nlink = 1;
  content = content;
}

-- The deferred removal of a temporary file that was not renamed may fail.
unfoldable pub publish : Faults → ℕ → ℕ → Text → Files → Saved
publish f uid gid content d = elim f.create [
  | true ↦ (err not_created, d)
  | false ↦ elim (stage_calls f) [
    | err e ↦ (err e, record d { temp_left = d.temp_left || f.remove })
    | ok u ↦ (sync_calls f, record d { file = present (published uid gid content) })
  ]
]

abbrev pub encoded : Option Text → Result StoreError Text
encoded none = err not_encoded
encoded (some bytes) = ok (bytes ++ (b'\n' ∷ []))

-- From the checks of the directory on.
unfoldable pub replace : ConfigJson → Faults → AppConfig → ℕ → ℕ → Files → Saved
replace json f c uid gid d = elim (check_dir f uid gid d.dir) [
  | err e ↦ (err e, d)
  | ok n ↦
      let secured : Files = record d { dir = present (record n { mode = dir_mode }) } in
      elim (check_destination uid gid d.file) [
        | err e ↦ (err e, secured)
        | ok u ↦ elim (encoded (json.marshal c)) [
          | err e ↦ (err e, secured)
          | ok content ↦ publish f uid gid content secured
        ]
      ]
]

-- What is checked before anything is changed.
unfoldable pub permitted : Store → Option ℕ → Process → AppConfig → Result StoreError (ℕ × ℕ)
permitted s group p c = do
  guard (not s.require_root_write || (p.euid == 0)) not_root
  validated (validate c)
  ownership s group

unfoldable pub save : ConfigJson → Store → Option ℕ → Faults → Process → AppConfig → Files → Saved
save json s group f p c d = elim (permitted s group p c) [
  | err e ↦ (err e, d)
  | ok owner ↦
      let (outcome, made) = make_dir f p owner.0 owner.1 d.dir in
      elim outcome [
        | err e ↦ (err e, record d { dir = made })
        | ok u ↦ replace json f c owner.0 owner.1 (record d { dir = made })
      ]
]
