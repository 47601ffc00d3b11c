-- ===== src/Lifecycle.antt =====
-- The lifecycle of an installation on a host: which state is found, and whether it may be used
-- (internal/installer/lifecycle.go). The host is given by the objects that the code inspects.
pub mod Objects
pub mod Interrupt
pub mod Leaves
pub mod Init
pub mod Shape
pub mod Valid
pub mod Classes
pub mod Pristine
pub mod Untouched
pub mod Stages
pub mod Rules
pub mod Dirs
pub mod Publish
pub mod Clear
pub mod Fill
pub mod Finish
pub mod Begin
pub mod Startup
pub mod Attempts
pub mod Recovery
pub mod Again
use virtual_private_node.Base.{
  ℕ, String, Bool, true, false, not, ◌&&◌, ◌||◌, Option, none, some, List, [], ◌∷◌, ◌++◌, map,
  Result, ok, err, ◌>>=◌, ◌>>◌, guard, if◌then◌else◌, str_eq, length, ◌==◌,
}
use virtual_private_node.Base.Int.{ℤ, pos, eqb_ℤ}
use virtual_private_node.Base.Text.{Text, codes, same}
use virtual_private_node.Ledger.{
  InstallContext, InstallLedger, LedgerError, Steps, has_key, all_base_steps_done, entries,
}
use virtual_private_node.Ledger.Parse.{Json, ParseError, parse_ledger}
use Objects.{
  Object, Node, ObjectError, absent, blocked, present, path_exists, validate_root_dir,
  read_validated_root_file, validate_bootstrap_file, validate_bootstrap_dir, mode_755, mode_700,
  mode_600, max_state_file_bytes,
}

-- `service-layout=1` and a line end.
abbrev pub layout_version_content : Text
layout_version_content = codes "service-layout=1\n"

abbrev pub password_pending_note : Text
password_pending_note =
    codes
      "An unattended install applied a generated admin login password\nthat has not been displayed yet. A completed unattended run\nresolves this automatically; setting a new password from the\nnode TUI also clears it.\n"

-- The three bootstrap files of productionLifecycleFS, one for each initial context.
pub data Bootstrap : Type 0 where
  boot_mainnet boot_testnet4 boot_public_signet : Bootstrap

abbrev pub network_of : Bootstrap → String
network_of boot_mainnet = "mainnet"
network_of boot_testnet4 = "testnet4"
network_of boot_public_signet = "public-signet"

abbrev pub context_of : Bootstrap → InstallContext
context_of b = record { network = network_of b; initial_p2p_mode = "tor"; db_cache_mb = none }

abbrev pub bootstraps : List Bootstrap
bootstraps = boot_mainnet ∷ boot_testnet4 ∷ boot_public_signet ∷ []

abbrev pub conflict_paths : List String
conflict_paths =
    "/etc/ssh/sshd_config.d/00-rlvpn-hardening.conf" ∷ "/etc/vpn/install-state.json"
    ∷ "/etc/vpn/password-pending" ∷ "/var/lib/vpn/service-layout-v1" ∷ "/etc/rlvpn"
    ∷ "/usr/local/bin/rlvpn" ∷ "/var/log/rlvpn.log" ∷ []

-- The last of the unmarked paths are the conflict paths, in this order.
abbrev pub project_paths : List String
project_paths =
    "/etc/vpn" ∷ "/etc/ssh/sshd_config.d/00-vpn-hardening.conf" ∷ "/etc/sudoers.d/vpn"
    ∷ "/etc/apt/apt.conf.d/99-tor-proxy" ∷ "/etc/sysctl.d/99-disable-ipv6.conf"
    ∷ "/etc/fail2ban/jail.local" ∷ "/etc/bitcoin" ∷ "/var/lib/bitcoin"
    ∷ "/etc/systemd/system/bitcoind.service" ∷ "/etc/lnd" ∷ "/var/lib/lnd"
    ∷ "/etc/systemd/system/lnd.service" ∷ "/var/lib/tor/bitcoin-p2p" ∷ "/var/lib/tor/lnd-grpc"
    ∷ "/var/lib/tor/lnd-rest" ∷ "/etc/syncthing" ∷ "/var/lib/syncthing"
    ∷ "/etc/systemd/system/syncthing.service" ∷ "/var/lib/tor/syncthing"
    ∷ "/var/lib/tor/syncthing-sync" ∷ "/var/lib/vpn/state" ∷ "/var/lib/vpn/exports"
    ∷ "/etc/systemd/system/lnd-backup-watch.path" ∷ "/etc/systemd/system/lnd-backup-export.service"
    ∷ "/etc/systemd/system/vpn-lnd-cert-watch.path"
    ∷ "/etc/systemd/system/vpn-lnd-cert-stage.service" ∷ "/etc/systemd/system/vpn-helperd.socket"
    ∷ "/etc/systemd/system/vpn-helperd.service" ∷ []

abbrev pub var_lib_vpn : String
var_lib_vpn = "/var/lib/vpn"

abbrev pub unmarked_paths : List String
unmarked_paths = var_lib_vpn ∷ (project_paths ++ conflict_paths)

-- A lookup of a user or group: known, unknown, or an error.
pub data Lookup : Type 0 where
  known unknown failed : Lookup

-- The host: the directories above the tree, the names in /var/lib that begin as a bootstrap and are
-- none of the three, the bootstrap files, the tree itself with the names of its two directories that
-- are not listed here, every other path, and the identities.
pub record Host : Type 0 where
  pub var : Object
  pub var_lib : Object
  pub strange_bootstraps : List String
  pub mainnet : Object
  pub testnet4 : Object
  pub public_signet : Object
  pub vpn : Object
  pub vpn_names : List String
  pub private_dir : Object
  pub private_names : List String
  pub ledger : Object
  pub ledger_stage : Object
  pub layout : Object
  pub layout_stage : Object
  pub password_marker : Object
  pub other : String → Object
  pub user : String → Lookup
  pub group : String → Lookup

pub data LifecycleError : Type 0 where
  object : ObjectError → LifecycleError
  strange_bootstrap : String → LifecycleError
  two_bootstraps bad_layout stage_residue identity_error prior_generation : LifecycleError
  unmarked_state bootstrap_conflict unexpected_name stage_conflict not_initial no_boundary
        no_ledger :
      LifecycleError
  parse : ParseError → LifecycleError
  bad_note delivery_conflict : LifecycleError
  already_there not_encoded no_bootstrap_path bootstrap_changed : LifecycleError
  bad_context : LedgerError → LifecycleError
  owes_delivery preflight_failed network_conflict awaiting_finalization : LifecycleError

pub data Lifecycle : Type 0 where
  pristine : Lifecycle
  bootstrap : InstallContext → Lifecycle
  resumable completion_pending completed : InstallLedger → Lifecycle

abbrev pub checked {ℓ} : {A : Type ℓ} → Result ObjectError A → Result LifecycleError A
checked (ok a) = ok a
checked (err e) = err (object e)

abbrev pub parsed : Result ParseError InstallLedger → Result LifecycleError InstallLedger
parsed (ok l) = ok l
parsed (err e) = err (parse e)

abbrev pub bootstrap_at : Bootstrap → Host → Object
bootstrap_at boot_mainnet h = h.mainnet
bootstrap_at boot_testnet4 h = h.testnet4
bootstrap_at boot_public_signet h = h.public_signet

-- The object at a path of the lists above.
abbrev pub object_at : Host → String → Object
object_at h path = if str_eq path var_lib_vpn then h.vpn else h.other path

-- The loop of existingPathsExcept: the paths in `seen` are skipped, those excluded among them.
unfoldable pub existing_paths :
    (String → Object) → List String → List String → Result ObjectError (List String)
existing_paths at seen [] = ok []
existing_paths at seen (path ∷ paths) = elim (has_key seen path) [
  | true ↦ existing_paths at seen paths
  | false ↦ elim (path_exists (at path)) [
    | err e ↦ err e
    | ok here ↦
        existing_paths at (path ∷ seen) paths >>= λ found. ok (if here then path ∷ found else found)
  ]
]

abbrev pub identity_present : Lookup → Result LifecycleError Bool
identity_present known = ok true
identity_present unknown = ok false
identity_present failed = err identity_error

unfoldable pub identities : (String → Lookup) → List String → Result LifecycleError (List String)
identities find [] = ok []
identities find (name ∷ names) = do
  here ← identity_present (find name)
  found ← identities find names
  ok (if here then name ∷ found else found)

abbrev pub user_names : List String
user_names = "vpn" ∷ "bitcoin" ∷ "lnd" ∷ "syncthing" ∷ "ripsline" ∷ []

abbrev pub group_names : List String
group_names = "vpn" ∷ "bitcoin" ∷ "lnd" ∷ "syncthing" ∷ "ripsline" ∷ "vpn-lnd-backup" ∷ []

unfoldable pub existing_lifecycle_identities : Host → Result LifecycleError (List String)
existing_lifecycle_identities h = do
  users ← identities h.user user_names
  groups ← identities h.group group_names
  ok (users ++ groups)

abbrev pub nothing : List String → Bool
nothing [] = true
nothing (x ∷ xs) = false

abbrev pub no_strange : List String → Result LifecycleError (Unit {0})
no_strange [] = ok tt
no_strange (name ∷ names) = err (strange_bootstrap name)

-- The loop over the candidates, with the one found before.
unfoldable pub find_bootstrap :
    Host → Option Bootstrap → List Bootstrap → Result LifecycleError (Option Bootstrap)
find_bootstrap h found [] = ok found
find_bootstrap h found (b ∷ rest) = elim (path_exists (bootstrap_at b h)) [
  | err e ↦ err (object e)
  | ok false ↦ find_bootstrap h found rest
  | ok true ↦ elim found [
    | some c ↦ err two_bootstraps
    | none ↦ checked (validate_bootstrap_file 0 (bootstrap_at b h)) >>= λ u.
        find_bootstrap h (some b) rest
  ]
]

unfoldable pub inspect_bootstrap : Host → Result LifecycleError (Option Bootstrap)
inspect_bootstrap h = do no_strange h.strange_bootstraps; find_bootstrap h none bootstraps

unfoldable pub initial_ledger_matches_context : InstallLedger → InstallContext → Bool
initial_ledger_matches_context l ctx =
    eqb_ℤ l.schema (pos 1)
    && str_eq l.status "in_progress"
    && str_eq l.context.network ctx.network
    && str_eq l.context.initial_p2p_mode ctx.initial_p2p_mode
    && (elim l.context.db_cache_mb [ none ↦ true | some v ↦ false ])
    && (length (entries l.steps) == 0)

module _ (json : Json) where
  -- The file of the ledger, if it is there, is the initial one of the context.
  unfoldable pub validate_bootstrap_ledger :
      Host → InstallContext → Bool → Result LifecycleError (Unit {0})
  validate_bootstrap_ledger h ctx false = ok tt
  validate_bootstrap_ledger h ctx true = do
    data_read ← checked (read_validated_root_file mode_600 h.ledger)
    l ← parsed (parse_ledger json data_read)
    guard (initial_ledger_matches_context l ctx) not_initial

  abbrev pub validate_ledger_stage : Host → Bool → Bool → Result LifecycleError (Unit {0})
  validate_ledger_stage h false later = ok tt
  validate_ledger_stage h true later = do
    checked (validate_bootstrap_file max_state_file_bytes h.ledger_stage)
    guard (not later) stage_conflict

  abbrev pub validate_layout_stage : Host → Bool → Bool → Result LifecycleError (Unit {0})
  validate_layout_stage h false bounded = ok tt
  validate_layout_stage h true bounded = do
    checked (validate_bootstrap_file (length layout_version_content) h.layout_stage)
    guard bounded no_boundary

  abbrev pub validate_layout : Host → Bool → Bool → Result LifecycleError (Unit {0})
  validate_layout h false ledger_present = ok tt
  validate_layout h true ledger_present = do
    guard ledger_present no_ledger
    content ← checked (read_validated_root_file mode_600 h.layout)
    guard (same content layout_version_content) bad_layout

  -- The part below the private directory.
  unfoldable pub validate_private : Host → InstallContext → Result LifecycleError (Unit {0})
  validate_private h ctx = do
    checked (validate_bootstrap_dir mode_700 h.private_dir)
    guard (nothing h.private_names) unexpected_name
    marker ← checked (path_exists h.password_marker)
    guard (not marker) unexpected_name
    ledger_present ← checked (path_exists h.ledger)
    ledger_stage_present ← checked (path_exists h.ledger_stage)
    layout_present ← checked (path_exists h.layout)
    layout_stage_present ← checked (path_exists h.layout_stage)
    validate_ledger_stage h ledger_stage_present
        (ledger_present || layout_stage_present || layout_present)
    validate_bootstrap_ledger h ctx ledger_present
    validate_layout_stage h layout_stage_present (ledger_present && not layout_present)
    validate_layout h layout_present ledger_present

  abbrev pub when_present :
      Bool → Result LifecycleError (Unit {0}) → Result LifecycleError (Unit {0})
  when_present false rest = ok tt
  when_present true rest = rest

  unfoldable pub validate_bootstrap_tree : Host → InstallContext → Result LifecycleError (Unit {0})
  validate_bootstrap_tree h ctx = do
    vpn_present ← checked (path_exists h.vpn)
    when_present vpn_present (do
      checked (validate_bootstrap_dir mode_755 h.vpn)
      guard (nothing h.vpn_names) unexpected_name
      private_present ← checked (path_exists h.private_dir)
      when_present private_present (validate_private h ctx))

  unfoldable pub classify_bootstrap : Host → Bootstrap → Result LifecycleError Lifecycle
  classify_bootstrap h b = do
    found ← checked (existing_paths (object_at h) (var_lib_vpn ∷ []) unmarked_paths)
    names ← existing_lifecycle_identities h
    guard (nothing (found ++ names)) bootstrap_conflict
    validate_bootstrap_tree h (context_of b)
    ok (bootstrap (context_of b))

  unfoldable pub classify_unmarked : Host → Result LifecycleError Lifecycle
  classify_unmarked h = do
    found ← checked (existing_paths (object_at h) [] unmarked_paths)
    names ← existing_lifecycle_identities h
    guard (nothing (found ++ names)) unmarked_state
    ok pristine

  -- Whether a password is still to be delivered.
  abbrev pub delivery_pending : Bool → Host → Result LifecycleError Bool
  delivery_pending false h = ok false
  delivery_pending true h = do
    note ← checked (read_validated_root_file mode_600 h.password_marker)
    guard (same note password_pending_note) bad_note
    ok true

  -- The switch on the status, which is one of the two in a valid ledger.
  unfoldable pub dispose : InstallLedger → Bool → Result LifecycleError Lifecycle
  dispose l pending =
      if str_eq l.status "complete"
      then if pending then err delivery_conflict else ok (completed l)
      else ok (if all_base_steps_done l then completion_pending l else resumable l)

  unfoldable pub classify_marked : Host → Result LifecycleError Lifecycle
  classify_marked h = do
    checked (validate_root_dir mode_755 h.vpn)
    checked (validate_root_dir mode_700 h.private_dir)
    marker ← checked (read_validated_root_file mode_600 h.layout)
    guard (same marker layout_version_content) bad_layout
    ledger_stage_present ← checked (path_exists h.ledger_stage)
    guard (not ledger_stage_present) stage_residue
    layout_stage_present ← checked (path_exists h.layout_stage)
    guard (not layout_stage_present) stage_residue
    conflicts ← checked (existing_paths (object_at h) [] conflict_paths)
    users ← identities h.user ("ripsline" ∷ [])
    groups ← identities h.group ("ripsline" ∷ [])
    guard (nothing (conflicts ++ (users ++ groups))) prior_generation
    content ← checked (read_validated_root_file mode_600 h.ledger)
    l ← parsed (parse_ledger json content)
    note ← checked (path_exists h.password_marker)
    pending ← delivery_pending note h
    dispose l pending

  abbrev pub classify_by_layout : Host → Object → Result LifecycleError Lifecycle
  classify_by_layout h absent = classify_unmarked h
  classify_by_layout h blocked = err (object ObjectError.inspection)
  classify_by_layout h (present n) = classify_marked h

  abbrev pub classify_found : Host → Option Bootstrap → Result LifecycleError Lifecycle
  classify_found h (some b) = classify_bootstrap h b
  classify_found h none = classify_by_layout h h.layout

  unfoldable pub classify_lifecycle_state : Host → Result LifecycleError Lifecycle
  classify_lifecycle_state h = do
    checked (validate_root_dir mode_755 h.var)
    checked (validate_root_dir mode_755 h.var_lib)
    b ← inspect_bootstrap h
    classify_found h b
