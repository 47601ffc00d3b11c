-- ===== src/Lifecycle/Shape.antt =====
-- The trees that an interrupted beginning leaves, and how they are classified
-- (internal/installer/lifecycle.go).
use virtual_private_node.Base.{
  ℕ, String, ◌≤◌, ◌≡◌, Bool, true, false, ◌||◌, List, [], ◌++◌, ok, length, All, ◌==◌,
}
use virtual_private_node.Base.Text.{Text}
use virtual_private_node.Lifecycle.{
  Host, Bootstrap, boot_mainnet, boot_testnet4, boot_public_signet, Lookup, unknown, project_paths,
  conflict_paths, user_names, group_names, layout_version_content,
}
use virtual_private_node.Lifecycle.Objects.{
  Object, absent, present, within, validate_root_dir, mode_755, mode_700, mode_600,
  max_state_file_bytes,
}
use virtual_private_node.Lifecycle.Init.{owned, owned_dir}

-- The host with nothing of the project below /var/lib.
abbrev pub empty_tree : Host → Host
empty_tree h = record h {
  mainnet = absent;
  testnet4 = absent;
  public_signet = absent;
  vpn = absent;
  vpn_names = [];
  private_dir = absent;
  private_names = [];
  ledger = absent;
  ledger_stage = absent;
  layout = absent;
  layout_stage = absent;
  password_marker = absent;
}

-- The part of the host that is not the project's tree.
pub record Around : Type 0 where
  pub var : Object
  pub var_lib : Object
  pub strange_bootstraps : List String
  pub other : String → Object
  pub user : String → Lookup
  pub group : String → Lookup

abbrev pub around : Host → Around
around h = record {
  var = h.var;
  var_lib = h.var_lib;
  strange_bootstraps = h.strange_bootstraps;
  other = h.other;
  user = h.user;
  group = h.group;
}

-- What the classification asks of it.
pub record CleanAround (a : Around) : Type 0 where
  pub above : validate_root_dir mode_755 a.var ≡ ok tt
  pub parent : validate_root_dir mode_755 a.var_lib ≡ ok tt
  pub no_strange : a.strange_bootstraps ≡ []
  pub paths : All (λ p. a.other p ≡ absent) (project_paths ++ conflict_paths)
  pub users : All (λ n. a.user n ≡ unknown) user_names
  pub groups : All (λ n. a.group n ≡ unknown) group_names

abbrev pub IsClean : Host → Type 0
IsClean h = CleanAround (around h)

-- How far the tree has come: the modes of the two directories, and of a staging file its mode and
-- content.
pub data Tree : Type 0 where
  nothing_yet : Tree
  with_vpn : ℕ → Tree
  with_private : ℕ → ℕ → Tree
  ledger_staged : ℕ → ℕ → ℕ → Text → Tree
  ledger_there : ℕ → ℕ → Tree
  layout_staged : ℕ → ℕ → ℕ → Text → Tree
  layout_there : ℕ → ℕ → Tree

abbrev pub file_with : ℕ → Text → Object
file_with mode content = present (record (owned mode) { content = content })

abbrev pub dir_with : ℕ → Object
dir_with mode = present (owned_dir mode)

-- The tree on a host; `bytes` is the published ledger.
abbrev pub plant : Text → Tree → Host → Host
plant bytes nothing_yet h = h
plant bytes (with_vpn m) h = record h { vpn = dir_with m }
plant bytes (with_private m n) h = record h { vpn = dir_with m; private_dir = dir_with n }
plant bytes (ledger_staged m n k content) h = record h {
  vpn = dir_with m;
  private_dir = dir_with n;
  ledger_stage = file_with k content;
}
plant bytes (ledger_there m n) h = record h {
  vpn = dir_with m;
  private_dir = dir_with n;
  ledger = file_with mode_600 bytes;
}
plant bytes (layout_staged m n k content) h = record h {
  vpn = dir_with m;
  private_dir = dir_with n;
  ledger = file_with mode_600 bytes;
  layout_stage = file_with k content;
}
plant bytes (layout_there m n) h = record h {
  vpn = dir_with m;
  private_dir = dir_with n;
  ledger = file_with mode_600 bytes;
  layout = file_with mode_600 layout_version_content;
}

abbrev pub DirMode : ℕ → ℕ → Type 0
DirMode final m = ((m == final) || within mode_700 m) ≡ true

abbrev pub StageFile : ℕ → ℕ → Text → Type 0
StageFile limit k content = (within mode_600 k ≡ true) × (length content ≤ limit)

abbrev pub Good : Tree → Type 0
Good nothing_yet = Unit
Good (with_vpn m) = DirMode mode_755 m
Good (with_private m n) = DirMode mode_755 m × DirMode mode_700 n
Good (ledger_staged m n k content) =
    DirMode mode_755 m × DirMode mode_700 n × StageFile max_state_file_bytes k content
Good (ledger_there m n) = DirMode mode_755 m × DirMode mode_700 n
Good (layout_staged m n k content) =
    DirMode mode_755 m × DirMode mode_700 n × StageFile (length layout_version_content) k content
Good (layout_there m n) = DirMode mode_755 m × DirMode mode_700 n

abbrev pub boot_mark : ℕ → Bool → Object
boot_mark k true = present (owned k)
boot_mark k false = absent

abbrev pub is_mainnet : Bootstrap → Bool
is_mainnet boot_mainnet = true
is_mainnet _ = false

abbrev pub is_testnet4 : Bootstrap → Bool
is_testnet4 boot_testnet4 = true
is_testnet4 _ = false

abbrev pub is_public_signet : Bootstrap → Bool
is_public_signet boot_public_signet = true
is_public_signet _ = false

-- The bootstrap file with its mode, and no other.
abbrev pub booted : Bootstrap → ℕ → Host → Host
booted b k h = record h {
  mainnet = boot_mark k (is_mainnet b);
  testnet4 = boot_mark k (is_testnet4 b);
  public_signet = boot_mark k (is_public_signet b);
}
