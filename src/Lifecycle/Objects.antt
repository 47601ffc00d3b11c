-- ===== src/Lifecycle/Objects.antt =====
-- File objects and their checks: validateRootDir and validateOpenRootFile of
-- internal/installer/runlock.go, and readValidatedRootFile, validateBootstrapFile and
-- validateBootstrapDir of internal/installer/lifecycle.go. Modes are permission bits in decimal.
use Prim.Native.Nat.{bit_and}
use virtual_private_node.Base.{
  ℕ, Bool, true, false, ◌&&◌, ◌||◌, Result, ok, err, ◌>>=◌, ◌>>◌, guard, ◌==◌, leb, length,
}
use virtual_private_node.Base.Text.{Text}

pub data Kind : Type 0 where
  regular directory symlink special : Kind

-- A directory has no content of its own here.
pub record Node : Type 0 where
  pub kind : Kind
  pub mode : ℕ
  pub uid : ℕ
  pub gid : ℕ
  pub nlink : ℕ
  pub content : Text

-- What Lstat says of a path: that it does not exist, another error, or what is there.
pub data Object : Type 0 where
  absent blocked : Object
  present : Node → Object

pub data ObjectError : Type 0 where
  not_there inspection not_regular not_directory bad_mode bad_owner linked too_large : ObjectError

-- 0o755, 0o700 and 0o600.
abbrev pub mode_755 : ℕ
mode_755 = 493

abbrev pub mode_700 : ℕ
mode_700 = 448

abbrev pub mode_600 : ℕ
mode_600 = 384

abbrev pub max_state_file_bytes : ℕ
max_state_file_bytes = 65536

-- `mode&^mask == 0`
unfoldable pub within : ℕ → ℕ → Bool
within mask mode = bit_and mode mask == mode

abbrev pub is_regular : Kind → Bool
is_regular regular = true
is_regular _ = false

abbrev pub is_directory : Kind → Bool
is_directory directory = true
is_directory _ = false

abbrev pub of_root : Node → Bool
of_root n = (n.uid == 0) && (n.gid == 0)

abbrev pub node_at : Object → Result ObjectError Node
node_at absent = err not_there
node_at blocked = err inspection
node_at (present n) = ok n

abbrev pub path_exists : Object → Result ObjectError Bool
path_exists absent = ok false
path_exists blocked = err inspection
path_exists (present n) = ok true

unfoldable pub validate_root_dir : ℕ → Object → Result ObjectError (Unit {0})
validate_root_dir mode o = do
  n ← node_at o
  guard (is_directory n.kind) not_directory
  guard (n.mode == mode) bad_mode
  guard (of_root n) bad_owner

abbrev pub validate_open_root_file : ℕ → Node → Result ObjectError (Unit {0})
validate_open_root_file mode n = do
  guard (is_regular n.kind) not_regular
  guard (n.mode == mode) bad_mode
  guard (of_root n) bad_owner
  guard (n.nlink == 1) linked

-- The file is opened without following a symbolic link.
unfoldable pub read_validated_root_file : ℕ → Object → Result ObjectError Text
read_validated_root_file mode o = do
  n ← node_at o
  validate_open_root_file mode n
  guard (leb (length n.content) max_state_file_bytes) too_large
  ok n.content

unfoldable pub validate_bootstrap_file : ℕ → Object → Result ObjectError (Unit {0})
validate_bootstrap_file max_bytes o = do
  n ← node_at o
  guard (is_regular n.kind) not_regular
  guard (within mode_600 n.mode) bad_mode
  guard (of_root n) bad_owner
  guard (n.nlink == 1) linked
  guard (leb (length n.content) max_bytes) too_large

unfoldable pub validate_bootstrap_dir : ℕ → Object → Result ObjectError (Unit {0})
validate_bootstrap_dir final_mode o = do
  n ← node_at o
  guard (is_directory n.kind) not_directory
  guard ((n.mode == final_mode) || within mode_700 n.mode) bad_mode
  guard (of_root n) bad_owner
