-- ===== src/Lifecycle/Startup.antt =====
-- The start of an install run (RunInstall of internal/installer/setup.go): the classification, and what
-- is done for each state until the ledger is in hand. The preflight, which reads the host, is a parameter.
use virtual_private_node.Base.{
  ℕ, String, Bool, true, false, not, ◌&&◌, ◌||◌, none, Result, guard, if◌then◌else◌, str_eq,
}
use virtual_private_node.Ledger.{InstallContext, InstallLedger}
use virtual_private_node.Ledger.Parse.{Json}
use virtual_private_node.Lifecycle.{
  Host, Lifecycle, LifecycleError, pristine, bootstrap, resumable, completion_pending, completed,
  owes_delivery, preflight_failed, network_conflict, awaiting_finalization,
  classify_lifecycle_state,
}
use virtual_private_node.Lifecycle.Objects.{Object, present}
use virtual_private_node.Lifecycle.Interrupt.{Run, ◌>>=◌, ◌>>◌, pure, ask}
use virtual_private_node.Lifecycle.Init.{initialize_lifecycle, resume_lifecycle_bootstrap}

-- InstallOptions; no network is the empty string.
pub record InstallOptions : Type 0 where
  pub network : String
  pub unattended : Bool
  pub until_bake : Bool
  pub allow_console_only : Bool

-- The ledger to install by, or nothing to do.
pub data Started : Type 0 where
  already_installed : Started
  with_ledger : InstallLedger → Started

abbrev pub is_there : Object → Bool
is_there (present n) = true
is_there _ = false

abbrev pub password_pending : Host → Bool
password_pending h = is_there h.password_marker

abbrev pub is_pristine : Lifecycle → Bool
is_pristine pristine = true
is_pristine _ = false

abbrev pub delivery_check : InstallOptions → Lifecycle → Host → Result LifecycleError (Unit {0})
delivery_check o s h =
    guard (not (not (is_pristine s) && not o.unattended && password_pending h)) owes_delivery

abbrev pub network_check : InstallOptions → String → Result LifecycleError (Unit {0})
network_check o recorded = guard (str_eq o.network "" || str_eq o.network recorded) network_conflict

abbrev pub chosen_network : String → String
chosen_network name = if str_eq name "" then "mainnet" else name

abbrev pub initial_context : InstallOptions → InstallContext
initial_context o = record {
  network = chosen_network o.network;
  initial_p2p_mode = "tor";
  db_cache_mb = none;
}

module _ (json : Json) (umask : ℕ → ℕ) (preflight : Host → Bool) where
  unfoldable pub proceed : InstallOptions → ℕ → Lifecycle → Run Started
  proceed o part pristine = do
    l ← initialize_lifecycle json umask (initial_context o) part
    pure (with_ledger l)
  proceed o part (bootstrap ctx) = do
    ask (λ h. network_check o ctx.network)
    l ← resume_lifecycle_bootstrap json umask ctx part
    pure (with_ledger l)
  proceed o part (resumable l) = do
    ask (λ h. network_check o l.context.network)
    pure (with_ledger l)
  proceed o part (completion_pending l) = do
    ask (λ h. network_check o l.context.network)
    ask (λ h. guard (not o.until_bake) awaiting_finalization)
    pure (with_ledger l)
  proceed o part (completed l) = pure already_installed

  abbrev pub check_and_proceed : InstallOptions → ℕ → Lifecycle → Run Started
  check_and_proceed o part s = do
    ask (delivery_check o s)
    ask (λ h. guard (preflight h) preflight_failed)
    proceed o part s

  unfoldable pub dispatch : InstallOptions → ℕ → Lifecycle → Run Started
  dispatch o part (completed l) = pure already_installed
  dispatch o part s = check_and_proceed o part s

  unfoldable pub start_install : InstallOptions → ℕ → Run Started
  start_install o part = do s ← ask (classify_lifecycle_state json); dispatch o part s
