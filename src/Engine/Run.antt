-- ===== src/Engine/Run.antt =====
-- The runner of the install engine and its unattended front-end (internal/installer/engine.go).
use virtual_private_node.Base.{
  ℕ, ◌+◌, Bool, true, false, Option, none, some, List, [], ◌∷◌, ◌++◌, Result, ok, err, ◌>>=◌, ◌>>◌,
  if◌then◌else◌, length, get_elem?,
}
use virtual_private_node.Base.Int.{ℤ, pos, negsuc, ◌+ℤ◌}
use virtual_private_node.Base.Text.{Text}
use virtual_private_node.Ledger.{InstallLedger, mark_done}
use virtual_private_node.Ledger.Publish.{Disk, Faults, Saved, save}
use virtual_private_node.Engine.{
  InstallStep, StepPlan, EngineError, RunError, step_error, not_recorded, not_published,
  step_unknown, no_ledger, step_done, step_failed, step_skipped, is_failed, validate_steps,
  plan_run,
}

pub data RunOutcome : Type 0 where
  run_complete run_failed run_interrupted : RunOutcome

pub record RunResult (E : Type 0) : Type 0 where
  pub outcome : RunOutcome
  pub step_name : Text
  pub step_num : ℤ
  pub total : ℕ
  pub error : Option (RunError E)

-- The machine, the ledger in memory and the directory of the published ledger.
pub record RunState (W : Type 0) : Type 0 where
  pub app : W
  pub ledger : InstallLedger
  pub disk : Disk

-- What a run takes from outside: the JSON encoder, the binary's version, and for the step at an index
-- the time and the failing calls of its publication.
pub record Outside : Type 0 where
  pub encode : InstallLedger → Option Text
  pub version : Text
  pub clock : ℕ → Text
  pub faults : ℕ → Faults

abbrev pub Planned : Type 0 → Type 0 → Type 0
Planned W E = List (InstallStep W E × StepPlan)

module _ {W E : Type 0} where
  -- Steps and plan have one length.
  abbrev pub pair_up : List (InstallStep W E) → List StepPlan → Planned W E
  pair_up (s ∷ steps) (p ∷ plan) = (s, p) ∷ pair_up steps plan
  pair_up _ _ = []

  abbrev pub name_at : List (InstallStep W E) → ℤ → Text
  name_at steps (negsuc n) = []
  name_at steps (pos n) = elim (get_elem? steps n) [ none ↦ [] | some s ↦ s.name ]

  -- The first failed step; `i` steps stand before.
  unfoldable pub first_failed : ℕ → ℕ → List (InstallStep W E) → RunResult E
  first_failed total i [] = record {
    outcome = run_failed;
    step_name = [];
    step_num = pos 0;
    total = total;
    error = some step_unknown;
  }
  first_failed total i (s ∷ steps) =
      let rest = first_failed total (i + 1) steps in
      if is_failed s.status
      then record {
        outcome = run_failed;
        step_name = s.name;
        step_num = pos (i + 1);
        total = total;
        error = s.error;
      }
      else rest

  unfoldable pub classify_run : List (InstallStep W E) → Bool → Bool → ℤ → RunResult E
  classify_run steps finished failed current =
      if failed
      then first_failed (length steps) 0 steps
      else if finished
      then record {
        outcome = run_complete;
        step_name = [];
        step_num = pos 0;
        total = length steps;
        error = none;
      }
      else record {
        outcome = run_interrupted;
        step_name = name_at steps current;
        step_num = current +ℤ pos 1;
        total = length steps;
        error = none;
      }

module _ {W E : Type 0} (o : Outside) where
  -- The answer of a publication, in the state it leaves.
  abbrev pub published : W → InstallLedger → Saved → Result (RunError E) Bool × RunState W
  published w l (err e, d) = (err (not_published e), record { app = w; ledger = l; disk = d })
  published w l (ok u, d) = (ok false, record { app = w; ledger = l; disk = d })

  -- After the step's function: the completion is recorded and the ledger published.
  unfoldable pub record_step :
      ℕ
      → InstallStep W E
      → RunState W
      → Result E (Unit {0}) × W
      → Result (RunError E) Bool × RunState W
  record_step i s st (err e, w) = (err (step_error e), record st { app = w })
  record_step i s st (ok u, w) = elim (mark_done s.key o.version (o.clock i) st.ledger) [
    | err e ↦ (err (not_recorded e), record st { app = w })
    | ok l ↦ published w l (save o.encode (o.faults i) l st.disk)
  ]

  -- Whether the step at `i` was skipped, or its error.
  unfoldable pub run_index :
      ℕ → InstallStep W E → StepPlan → RunState W → Result (RunError E) Bool × RunState W
  unfolding record_step
  run_index i s p st = if p.run then record_step i s st (s.fn st.app) else (ok true, st)

  abbrev pub steps_of : Planned W E → List (InstallStep W E)
  steps_of [] = []
  steps_of ((s, p) ∷ rest) = s ∷ steps_of rest

  -- The step after it was skipped or done.
  abbrev pub settled : Bool → InstallStep W E → InstallStep W E
  settled skipped s = record s { status = if skipped then step_skipped else step_done }

  -- All steps, when `s` failed with the steps `ran` behind it.
  abbrev pub stopped :
      List (InstallStep W E) → InstallStep W E → RunError E → Planned W E → List (InstallStep W E)
  stopped ran s e rest = ran ++ (record s { status = step_failed; error = some e } ∷ steps_of rest)

  -- The loop over the steps: the steps in `ran` are behind, with their statuses.
  unfoldable pub run_steps :
      List (InstallStep W E)
      → Planned W E
      → RunState W
      → RunResult E × List (InstallStep W E) × RunState W
  unfolding run_index classify_run
  run_steps ran [] st = (classify_run ran true false (pos (length ran)), ran, st)
  run_steps ran ((s, p) ∷ rest) st =
      let r = run_index (length ran) s p st in
      elim r.0 [
        | err e ↦ (
          classify_run (stopped ran s e rest) false true (pos (length ran)),
          stopped ran s e rest,
          r.1,
        )
        | ok skipped ↦ run_steps (ran ++ (settled skipped s ∷ [])) rest r.1
      ]

  -- newStepRunner: `none` is a nil ledger.
  unfoldable pub new_step_runner :
      List (InstallStep W E)
      → Option InstallLedger
      → Result EngineError (Planned W E × InstallLedger)
  new_step_runner steps none = do validate_steps steps; err no_ledger
  new_step_runner steps (some led) = do
    validate_steps steps
    ok (pair_up steps (plan_run steps led), led)

  unfoldable pub run_install_unattended :
      List (InstallStep W E)
      → Option InstallLedger
      → W
      → Disk
      → Result EngineError (RunResult E × List (InstallStep W E) × RunState W)
  unfolding new_step_runner run_steps
  run_install_unattended steps ledger w d = do
    (planned, led) ← new_step_runner steps ledger
    ok (run_steps [] planned (record { app = w; ledger = led; disk = d }))
