-- ===== src/Lifecycle/Init.antt =====
-- Beginning a lifecycle, and resuming an interrupted beginning (internal/installer/lifecycle.go). The
-- hook is nil in production and left out. `umask` is what the process's umask leaves of a mode.
use virtual_private_node.Base.{
  ℕ, Bool, true, false, ◌&&◌, Option, none, some, List, [], ◌∷◌, ◌++◌, Result, ok, err, take,
  if◌then◌else◌, str_eq,
}
use virtual_private_node.Base.Text.{Text}
use virtual_private_node.Ledger.{InstallContext, InstallLedger, LedgerError, new_ledger}
use virtual_private_node.Ledger.Parse.{Json, parse_ledger}
use virtual_private_node.Lifecycle.{
  Host, Bootstrap, Lifecycle, LifecycleError, bootstrap, classify_lifecycle_state, checked, parsed,
  context_of, bootstraps, boot_mainnet, boot_testnet4, boot_public_signet,
  initial_ledger_matches_context, layout_version_content, not_initial, already_there, not_encoded,
  no_bootstrap_path, bootstrap_changed, bad_context,
}
use virtual_private_node.Lifecycle.Objects.{
  Object, Node, absent, present, regular, directory, path_exists, node_at, validate_root_dir,
  read_validated_root_file, mode_755, mode_700, mode_600,
}
use virtual_private_node.Lifecycle.Interrupt.{Run, ◌>>=◌, ◌>>◌, pure, act, atomically, touch, ask}

-- The objects that the initialization creates.
pub data Place : Type 0 where
  vpn_dir private_place ledger_file ledger_staging layout_file layout_staging : Place
  boot_file : Bootstrap → Place

abbrev pub look : Place → Host → Object
look vpn_dir h = h.vpn
look private_place h = h.private_dir
look ledger_file h = h.ledger
look ledger_staging h = h.ledger_stage
look layout_file h = h.layout
look layout_staging h = h.layout_stage
look (boot_file boot_mainnet) h = h.mainnet
look (boot_file boot_testnet4) h = h.testnet4
look (boot_file boot_public_signet) h = h.public_signet

abbrev pub set : Place → Object → Host → Host
set vpn_dir o h = record h { vpn = o }
set private_place o h = record h { private_dir = o }
set ledger_file o h = record h { ledger = o }
set ledger_staging o h = record h { ledger_stage = o }
set layout_file o h = record h { layout = o }
set layout_staging o h = record h { layout_stage = o }
set (boot_file boot_mainnet) o h = record h { mainnet = o }
set (boot_file boot_testnet4) o h = record h { testnet4 = o }
set (boot_file boot_public_signet) o h = record h { public_signet = o }

-- What the code refuses beside the errors of the classification.
abbrev pub exists_at : Place → Host → Result LifecycleError Bool
exists_at p h = checked (path_exists (look p h))

abbrev pub must_be_absent : Object → Result LifecycleError (Unit {0})
must_be_absent absent = ok tt
must_be_absent _ = err already_there

-- Mkdir, and OpenFile with O_EXCL, fail where something is.
abbrev pub create : Place → Node → Run (Unit {0})
create p n = do ask (λ h. must_be_absent (look p h)); atomically (set p (present n))

abbrev pub chmod : Place → ℕ → Run (Unit {0})
chmod p mode = do
  n ← ask (λ h. checked (node_at (look p h)))
  atomically (set p (present (record n { mode = mode })))

-- A write that is interrupted leaves the first `part` characters.
abbrev pub write : Place → Text → ℕ → Run (Unit {0})
write p content part = do
  n ← ask (λ h. checked (node_at (look p h)))
  act (set p (present (record n { content = take part content })))
      (set p (present (record n { content = content })))

abbrev pub remove : Place → Run (Unit {0})
remove p = do n ← ask (λ h. checked (node_at (look p h))); atomically (set p absent)

abbrev pub rename : Place → Place → Run (Unit {0})
rename from to = do
  n ← ask (λ h. checked (node_at (look from h)))
  atomically (λ h. set to (present n) (set from absent h))

abbrev pub owned : ℕ → Node
owned mode = record { kind = regular; mode = mode; uid = 0; gid = 0; nlink = 1; content = [] }

abbrev pub owned_dir : ℕ → Node
owned_dir mode = record { kind = directory; mode = mode; uid = 0; gid = 0; nlink = 1; content = [] }

unfoldable pub secure_bootstrap_dir : Place → Run (Unit {0})
secure_bootstrap_dir p = do
  chmod p mode_700
  ask (λ h. checked (validate_root_dir mode_700 (look p h)))
  touch

abbrev pub same_initial_context : InstallContext → InstallContext → Bool
same_initial_context a b =
    str_eq a.network b.network
    && str_eq a.initial_p2p_mode b.initial_p2p_mode
    && (elim a.db_cache_mb [ none ↦ true | some v ↦ false ])
    && (elim b.db_cache_mb [ none ↦ true | some v ↦ false ])

unfoldable pub bootstrap_for_context :
    InstallContext → List Bootstrap → Result LifecycleError Bootstrap
bootstrap_for_context ctx [] = err no_bootstrap_path
bootstrap_for_context ctx (b ∷ rest) = elim (same_initial_context (context_of b) ctx) [
  | true ↦ ok b
  | false ↦ bootstrap_for_context ctx rest
]

abbrev pub is_bootstrap_of : InstallContext → Lifecycle → Result LifecycleError (Unit {0})
is_bootstrap_of ctx (bootstrap c) =
    if same_initial_context c ctx then ok tt else err bootstrap_changed
is_bootstrap_of ctx _ = err bootstrap_changed

abbrev pub fresh_or_error : Result LedgerError InstallLedger → Result LifecycleError InstallLedger
fresh_or_error (ok l) = ok l
fresh_or_error (err e) = err (bad_context e)

abbrev pub is_initial : InstallContext → InstallLedger → Result LifecycleError InstallLedger
is_initial ctx l = if initial_ledger_matches_context l ctx then ok l else err not_initial

module _ (json : Json) (umask : ℕ → ℕ) where
  unfoldable pub create_bootstrap_dir : Place → Run (Unit {0})
  create_bootstrap_dir p = do create p (owned_dir (umask mode_700)); secure_bootstrap_dir p; touch

  unfoldable pub publish_bootstrap_payload : Place → Place → Text → ℕ → Run (Unit {0})
  publish_bootstrap_payload stage destination content part = do
    create stage (owned (umask mode_600))
    chmod stage mode_600
    write stage content part
    touch
    touch
    rename stage destination
    touch

  unfoldable pub ensure_dir : Place → Bool → Run (Unit {0})
  ensure_dir p false = create_bootstrap_dir p
  ensure_dir p true = secure_bootstrap_dir p

  -- A staging file that an interruption left is removed.
  unfoldable pub clear_stage : Place → Bool → Run (Unit {0})
  clear_stage p false = pure tt
  clear_stage p true = do remove p; touch

  abbrev pub encoded : Option Text → Result LifecycleError Text
  encoded none = err not_encoded
  encoded (some bytes) = ok (bytes ++ (b'\n' ∷ []))

  abbrev pub published_ledger : InstallContext → Host → Result LifecycleError InstallLedger
  published_ledger ctx h = elim (checked (read_validated_root_file mode_600 h.ledger)) [
    | err e ↦ err e
    | ok content ↦ elim (parsed (parse_ledger json content)) [
      | err e ↦ err e
      | ok l ↦ is_initial ctx l
    ]
  ]

  unfoldable pub ensure_ledger : InstallContext → InstallLedger → ℕ → Bool → Run InstallLedger
  ensure_ledger ctx l part true = ask (published_ledger ctx)
  ensure_ledger ctx l part false = do
    content ← ask (λ h. encoded (json.encode l))
    publish_bootstrap_payload ledger_staging ledger_file content part
    pure l

  unfoldable pub ensure_layout : ℕ → Bool → Run (Unit {0})
  ensure_layout part true = pure tt
  ensure_layout part false =
      publish_bootstrap_payload layout_staging layout_file layout_version_content part

  unfoldable pub complete_lifecycle_bootstrap :
      InstallContext → InstallLedger → ℕ → Run InstallLedger
  complete_lifecycle_bootstrap ctx l part = do
    state ← ask (classify_lifecycle_state json)
    ask (λ h. is_bootstrap_of ctx state)
    vpn_present ← ask (exists_at vpn_dir)
    ensure_dir vpn_dir vpn_present
    private_present ← ask (exists_at private_place)
    ensure_dir private_place private_present
    ledger_stage_present ← ask (exists_at ledger_staging)
    clear_stage ledger_staging ledger_stage_present
    ledger_present ← ask (exists_at ledger_file)
    ledger ← ensure_ledger ctx l part ledger_present
    layout_stage_present ← ask (exists_at layout_staging)
    clear_stage layout_staging layout_stage_present
    layout_present ← ask (exists_at layout_file)
    ensure_layout part layout_present
    chmod vpn_dir mode_755
    touch
    b ← ask (λ h. bootstrap_for_context ctx bootstraps)
    remove (boot_file b)
    touch
    pure ledger

  -- `part` is how much an interrupted write leaves.
  unfoldable pub initialize_lifecycle : InstallContext → ℕ → Run InstallLedger
  initialize_lifecycle ctx part = do
    l ← ask (λ h. fresh_or_error (new_ledger ctx))
    b ← ask (λ h. bootstrap_for_context ctx bootstraps)
    create (boot_file b) (owned (umask mode_600))
    chmod (boot_file b) mode_600
    touch
    touch
    touch
    complete_lifecycle_bootstrap (context_of b) l part

  unfoldable pub resume_lifecycle_bootstrap : InstallContext → ℕ → Run InstallLedger
  resume_lifecycle_bootstrap ctx part = do
    l ← ask (λ h. fresh_or_error (new_ledger ctx))
    complete_lifecycle_bootstrap ctx l part
