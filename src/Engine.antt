-- ===== src/Engine.antt =====
-- The install engine: the step model, the resume planner and the unattended runner
-- (internal/installer/engine.go). A step's function works on the machine, a state `W` of which
-- nothing is assumed, and fails with an error; log lines are left out.
pub mod Run
pub mod Trace
pub mod Plan
pub mod Resume
pub mod Rerun
pub mod Skips
use virtual_private_node.Base.{
  ℕ, zero, suc, ◌+◌, String, Bool, true, false, not, ◌&&◌, ◌||◌, Option, none, some, List, [], ◌∷◌,
  ◌++◌, map, Result, ok, err, ◌>>=◌, ◌>>◌, guard, if◌then◌else◌, str_eq, length, ltb, leb,
  get_elem?,
}
use virtual_private_node.Base.Text.{Text}
use virtual_private_node.Ledger.Publish.{SaveError}
use virtual_private_node.Ledger.{
  InstallLedger, LedgerError, done, entries, Steps, LedgerEntry, has_key,
}

pub data StepKind : Type 0 where
  step_mutation step_gate : StepKind

pub data StepPhase : Type 0 where
  phase_bake phase_first_boot : StepPhase

pub data StepStatus : Type 0 where
  step_pending step_running step_done step_failed step_skipped : StepStatus

abbrev pub is_gate : StepKind → Bool
is_gate step_gate = true
is_gate step_mutation = false

abbrev pub is_failed : StepStatus → Bool
is_failed step_failed = true
is_failed _ = false

-- `iota` numbers the phases in order.
abbrev pub phase_number : StepPhase → ℕ
phase_number phase_bake = 0
phase_number phase_first_boot = 1

pub data EngineError : Type 0 where
  no_key : ℕ → Text → EngineError
  duplicated : String → EngineError
  no_ledger : EngineError

-- Why a run failed: the step's own error, or the ledger was not updated or not published.
pub data RunError (E : Type 0) : Type 0 where
  step_error : E → RunError E
  not_recorded : LedgerError → RunError E
  not_published : SaveError → RunError E
  step_unknown : RunError E

-- `W` is the machine and `E` the errors of the steps' functions.
pub record InstallStep (W E : Type 0) : Type 0 where
  pub key : String
  pub name : Text
  pub fn : W → Result E (Unit {0}) × W
  pub kind : StepKind
  pub group : String
  pub phase : StepPhase
  pub status : StepStatus
  pub error : Option (RunError E)

-- Why a step runs or not; the log prints it.
pub data Reason : Type 0 where
  gate_reverified not_yet_completed : Reason
  group_complete : String → String → Option LedgerEntry → Reason
  group_incomplete : String → Reason
  completed : Option LedgerEntry → Reason

pub record StepPlan : Type 0 where
  pub run : Bool
  pub reason : Reason

-- Reading an entry of the ledger's map.
abbrev pub entry_of : Steps → String → Option LedgerEntry
entry_of [] key = none
entry_of ((k, e) ∷ steps) key = if str_eq k key then some e else entry_of steps key

module _ {W E : Type 0} where
  -- The loop of validateSteps: `i` steps are seen, with the keys `seen`.
  unfoldable pub validate_from :
      ℕ → List String → List (InstallStep W E) → Result EngineError (Unit {0})
  validate_from i seen [] = ok tt
  validate_from i seen (s ∷ steps) = do
    guard (not (str_eq s.key "")) (no_key (i + 1) s.name)
    guard (not (has_key seen s.key)) (duplicated s.key)
    validate_from (i + 1) (s.key ∷ seen) steps

  abbrev pub validate_steps : List (InstallStep W E) → Result EngineError (Unit {0})
  validate_steps steps = validate_from 0 [] steps

  -- `terminal[s.Group] = s.Key`, for a step in a group.
  unfoldable pub remember : InstallStep W E → (String → String) → String → String
  remember s terminal group =
      if str_eq s.group ""
      then terminal group
      else if str_eq s.group group
      then s.key
      else terminal group

  -- The map from a group to the key of its last member; a missing key reads as "".
  abbrev pub terminal_from : (String → String) → List (InstallStep W E) → String → String
  terminal_from terminal [] = terminal
  terminal_from terminal (s ∷ steps) = terminal_from (remember s terminal) steps

  -- The plan of one step.
  unfoldable pub plan_step : (String → String) → InstallLedger → InstallStep W E → StepPlan
  plan_step terminal led s =
      if is_gate s.kind
      then record { run = true; reason = gate_reverified }
      else if not (str_eq s.group "")
      then if done led (terminal s.group)
        then record {
          run = false;
          reason =
              group_complete s.group (terminal s.group)
                (entry_of (entries led.steps) (terminal s.group));
        }
        else record { run = true; reason = group_incomplete s.group }
      else if done led s.key
      then record { run = false; reason = completed (entry_of (entries led.steps) s.key) }
      else record { run = true; reason = not_yet_completed }

  unfoldable pub plan_run : List (InstallStep W E) → InstallLedger → List StepPlan
  unfolding plan_step remember
  plan_run steps led = map (plan_step (terminal_from (λ group. "") steps) led) steps

  unfoldable pub filter_phase : List (InstallStep W E) → StepPhase → List (InstallStep W E)
  filter_phase [] until = []
  filter_phase (s ∷ steps) until =
      let out = filter_phase steps until in
      if leb (phase_number s.phase) (phase_number until) then s ∷ out else out
