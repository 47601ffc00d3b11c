-- ===== src/Tests/Lifecycle.antt =====
-- The start of an install (internal/installer/lifecycle.go and setup.go) on a concrete host.
use virtual_private_node.Base.{All}
use virtual_private_node.Lifecycle.{
  object_at, unmarked_paths, bootstrap_at, bootstraps, user_names, group_names,
}
use virtual_private_node.Lifecycle.Untouched.{classify_lifecycle_state-pristine}
use virtual_private_node.Ledger.Keys.{reject_duplicate_json_keys}
use virtual_private_node.Lifecycle.{
  inspect_bootstrap, find_bootstrap, classify_unmarked, existing_paths,
  existing_lifecycle_identities, identities,
}
use virtual_private_node.Lifecycle.Objects.{within, validate_root_dir}
use Prim.Native.Nat.{bit_and}
use virtual_private_node.Base.{
  ℕ, Bool, ◌≡◌, refl, true, false, Option, none, some, [], ◌∷◌, ◌++◌, ok, ◌⊎◌, if◌then◌else◌, arith,
}
use virtual_private_node.Base.Text.{Text, codes, same}
use virtual_private_node.Ledger.{InstallLedger, fresh_ledger}
use virtual_private_node.Ledger.Parse.{Json, WritesFresh}
use virtual_private_node.Lifecycle.{
  Host, Bootstrap, boot_mainnet, boot_testnet4, boot_public_signet, unknown, pristine, bootstrap,
  resumable, context_of, network_of, classify_lifecycle_state, layout_version_content,
}
use virtual_private_node.Lifecycle.Objects.{absent, mode_755, mode_700, mode_600}
use virtual_private_node.Lifecycle.Init.{initialize_lifecycle}
use virtual_private_node.Lifecycle.Shape.{empty_tree, dir_with, file_with}
use virtual_private_node.Lifecycle.Startup.{InstallOptions, with_ledger, start_install}
use virtual_private_node.Lifecycle.Dirs.{Masks}
use virtual_private_node.Lifecycle.Again.{
  Starts, no_start, one_more, Starts-found, start_install-recovers, initialize_lifecycle-host,
}

abbrev first_host : Host
first_host = record {
  var = dir_with mode_755;
  var_lib = dir_with mode_755;
  strange_bootstraps = [];
  mainnet = absent;
  testnet4 = absent;
  public_signet = absent;
  vpn = absent;
  vpn_names = [];
  private_dir = absent;
  private_names = [];
  ledger = absent;
  ledger_stage = absent;
  layout = absent;
  layout_stage = absent;
  password_marker = absent;
  other = λ path. absent;
  user = λ name. unknown;
  group = λ name. unknown;
}

-- The umask 077.
abbrev private_umask : ℕ → ℕ
private_umask mode = bit_and mode mode_700

private_umask-Masks : Masks private_umask
unfolding within
private_umask-Masks = (refl, refl)

-- A JSON library that writes a ledger as the name of its network.
abbrev line_of : Bootstrap → Text
line_of b = codes (network_of b) ++ (b'\n' ∷ [])

abbrev read_line : Text → Option InstallLedger
read_line text =
    if same text (line_of boot_mainnet)
    then some (fresh_ledger (context_of boot_mainnet))
    else if same text (line_of boot_testnet4)
    then some (fresh_ledger (context_of boot_testnet4))
    else if same text (line_of boot_public_signet)
    then some (fresh_ledger (context_of boot_public_signet))
    else none

abbrev short_json : Json
short_json = record {
  tokens = λ text. ([], none);
  decode = read_line;
  at_eof = λ text. true;
  encode = λ l. some (codes l.context.network);
}

short_writes : (b : Bootstrap) → WritesFresh short_json (context_of b)
unfolding reject_duplicate_json_keys
short_writes boot_mainnet = record {
  bytes = codes (network_of boot_mainnet);
  encodes = refl;
  names = refl;
  decodes = refl;
  ends = refl;
  short = omega arith;
}
short_writes boot_testnet4 = record {
  bytes = codes (network_of boot_testnet4);
  encodes = refl;
  names = refl;
  decodes = refl;
  ends = refl;
  short = omega arith;
}
short_writes boot_public_signet = record {
  bytes = codes (network_of boot_public_signet);
  encodes = refl;
  names = refl;
  decodes = refl;
  ends = refl;
  short = omega arith;
}

-- The first host is pristine.
first_pristine : classify_lifecycle_state short_json (empty_tree first_host) ≡ ok pristine
unfolding classify_lifecycle_state validate_root_dir inspect_bootstrap find_bootstrap
    classify_unmarked existing_paths existing_lifecycle_identities identities
first_pristine = refl

-- A start for testnet4 that is interrupted at its fifteenth operation, after seven characters.
abbrev testnet : InstallOptions
testnet = record {
  network = "testnet4";
  unattended = false;
  until_bake = false;
  allow_console_only = false;
}

abbrev no_flag : InstallOptions
no_flag = record {
  network = "";
  unattended = false;
  until_bake = false;
  allow_console_only = false;
}

abbrev passes : Host → Bool
passes h = true

abbrev interrupted_host : Host
interrupted_host =
    (start_install short_json private_umask passes testnet 7
      (record { host = empty_tree first_host; left = some 15 })).1.host

interrupted_once : Starts short_json private_umask (empty_tree first_host) interrupted_host
interrupted_once = one_more (empty_tree first_host) passes testnet 7 (some 15) no_start

Starts-found_example :
    (classify_lifecycle_state short_json interrupted_host ≡ ok pristine)
    ⊎ ((b : Bootstrap) × ((classify_lifecycle_state short_json interrupted_host
            ≡ ok (bootstrap (context_of b)))
          ⊎ (classify_lifecycle_state short_json interrupted_host
              ≡ ok (resumable (fresh_ledger (context_of b))))))
Starts-found_example =
    Starts-found short_json private_umask private_umask-Masks short_writes first_host first_pristine
      interrupted_host interrupted_once

start_install-recovers_example :
    (b : Bootstrap) × ((start_install short_json private_umask passes no_flag 0
        (record { host = interrupted_host; left = none })).0
      ≡ ok (with_ledger (fresh_ledger (context_of b))))
    × (classify_lifecycle_state short_json
          (start_install short_json private_umask passes no_flag 0
            (record { host = interrupted_host; left = none })).1.host
        ≡ ok (resumable (fresh_ledger (context_of b))))
start_install-recovers_example =
    start_install-recovers short_json private_umask private_umask-Masks short_writes first_host
      first_pristine interrupted_host passes no_flag 0 interrupted_once refl refl

initialize_lifecycle-host_example :
    ((initialize_lifecycle short_json private_umask
        (context_of boot_testnet4)
        0
        (record { host = empty_tree first_host; left = none })).0
      ≡ ok (fresh_ledger (context_of boot_testnet4)))
    × ((initialize_lifecycle short_json private_umask
          (context_of boot_testnet4)
          0
          (record { host = empty_tree first_host; left = none })).1.host
        ≡ record (empty_tree first_host) {
          vpn = dir_with mode_755;
          private_dir = dir_with mode_700;
          ledger = file_with mode_600 (line_of boot_testnet4);
          layout = file_with mode_600 layout_version_content;
        })
unfolding short_writes
initialize_lifecycle-host_example =
    initialize_lifecycle-host short_json private_umask private_umask-Masks short_writes first_host
      first_pristine boot_testnet4 0

classify_lifecycle_state-pristine_example :
    All (λ p. object_at (empty_tree first_host) p ≡ absent) unmarked_paths
    × ((empty_tree first_host).layout ≡ absent)
    × ((empty_tree first_host).strange_bootstraps ≡ [])
    × All (λ b. bootstrap_at b (empty_tree first_host) ≡ absent) bootstraps
    × All (λ n. (empty_tree first_host).user n ≡ unknown) user_names
    × All (λ n. (empty_tree first_host).group n ≡ unknown) group_names
classify_lifecycle_state-pristine_example =
    classify_lifecycle_state-pristine short_json (empty_tree first_host) first_pristine
