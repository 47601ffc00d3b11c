-- ===== src/Tests/Engine.antt =====
-- A run of the install engine of internal/installer/engine.go on one step, which counts up on a machine
-- that is a number.
use virtual_private_node.Base.{
  ℕ, suc, ◌≡◌, ◌⊎◌, refl, true, false, none, some, List, [], ◌∷◌, ok, inl,
}
use virtual_private_node.Base.Int.{pos}
use virtual_private_node.Base.Text.{Text, codes, trim_space}
use virtual_private_node.Ledger.{done, fresh_ledger, mark_done, validate_ledger}
use virtual_private_node.Ledger.Publish.{Disk, save, publish}
use virtual_private_node.Engine.{
  InstallStep, step_mutation, phase_bake, step_pending, step_done, step_skipped, plan_step,
  plan_run, validate_from,
}
use virtual_private_node.Engine.Run.{
  Outside, RunState, RunResult, run_complete, run_install_unattended,
}
use virtual_private_node.Engine.Trace.{Durable}
use virtual_private_node.Engine.Plan.{AllDecided, plan_run-AllDecided, terminal_of}
use virtual_private_node.Engine.Resume.{
  Finished, run_install_unattended-Finished, run_install_unattended-keeps_done,
}
use virtual_private_node.Engine.Rerun.{run_install_unattended-Durable}
use virtual_private_node.Engine.Skips.{rerun-skips_mutations}
use virtual_private_node.Tests.Ledger.{now, version, context, first_step, no_faults}

abbrev outside : Outside
outside = record {
  encode = λ l. some (codes "{}");
  version = version;
  clock = λ i. now;
  faults = λ i. no_faults;
}

abbrev install : InstallStep ℕ Text
install = record {
  key = "binary.install";
  name = codes "Install";
  fn = λ w. (ok tt, suc w);
  kind = step_mutation;
  group = "";
  phase = phase_bake;
  status = step_pending;
  error = none;
}

abbrev steps : List (InstallStep ℕ Text)
steps = install ∷ []

abbrev start_disk : Disk
start_disk = record { file = none; temps = [] }

abbrev result : RunResult Text × List (InstallStep ℕ Text) × RunState ℕ
result = (
  record { outcome = run_complete; step_name = []; step_num = pos 0; total = 1; error = none },
  record install { status = step_done } ∷ [],
  record { app = 1; ledger = first_step; disk = record { file = some (codes "{}\n"); temps = [] } },
)

recorded : done first_step "binary.install" ≡ true
unfolding done
recorded = refl

runs : run_install_unattended outside steps (some (fresh_ledger context)) 0 start_disk ≡ ok result
unfolding run_install_unattended validate_from plan_run done mark_done trim_space save
    validate_ledger publish
runs = refl

plan_run-AllDecided_example :
    AllDecided steps (fresh_ledger context) steps (plan_run steps (fresh_ledger context))
plan_run-AllDecided_example = plan_run-AllDecided steps (fresh_ledger context)

run_install_unattended-Finished_example :
    Finished outside steps (fresh_ledger context) 0 start_disk result
run_install_unattended-Finished_example =
    run_install_unattended-Finished outside steps (fresh_ledger context) 0 start_disk result runs

run_install_unattended-Durable_example :
    (result.2 ≡ record { app = 0; ledger = fresh_ledger context; disk = start_disk })
    ⊎ Durable outside result.2.ledger result.2.disk
run_install_unattended-Durable_example =
    run_install_unattended-Durable outside steps (fresh_ledger context) 0 start_disk result runs
      refl

rerun-skips_mutations_example : (plan_step (terminal_of steps) result.2.ledger install).run ≡ false
rerun-skips_mutations_example =
    rerun-skips_mutations outside steps (fresh_ledger context) 0 start_disk result install runs refl
      (inl refl) refl

-- A second pass over the same step.
abbrev again : RunResult Text × List (InstallStep ℕ Text) × RunState ℕ
again = (
  record { outcome = run_complete; step_name = []; step_num = pos 0; total = 1; error = none },
  record install { status = step_skipped } ∷ [],
  record { app = 1; ledger = first_step; disk = start_disk },
)

runs_again : run_install_unattended outside steps (some first_step) 1 start_disk ≡ ok again
unfolding run_install_unattended validate_from plan_run done
runs_again = refl

run_install_unattended-keeps_done_example : done again.2.ledger "binary.install" ≡ true
run_install_unattended-keeps_done_example =
    run_install_unattended-keeps_done outside steps first_step 1 start_disk again "binary.install"
      runs_again recorded
