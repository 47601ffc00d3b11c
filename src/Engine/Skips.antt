-- ===== src/Engine/Skips.antt =====
-- The pass after a complete one (internal/installer/engine.go).
use virtual_private_node.Base.{
  String, ◌≡◌, ◌≢◌, sym, ◌∙◌, true, false, List, map, ok, inl, inr, some, Member,
}
use virtual_private_node.Ledger.{InstallLedger, done}
use virtual_private_node.Ledger.Publish.{Disk}
use virtual_private_node.Engine.{
  InstallStep, StepPlan, step_gate, step_mutation, plan_step, plan_run,
}
use virtual_private_node.Engine.Run.{
  Outside, RunState, RunResult, pair_up, run_complete, run_failed, run_install_unattended,
}
use virtual_private_node.Engine.Trace.{Ran}
use virtual_private_node.Engine.Plan.{IsTerminal, terminal_of, plan_step-Decides}
use virtual_private_node.Engine.Resume.{run_install_unattended-Finished, Ran-keeps}
use virtual_private_node.Engine.Rerun.{IsTerminal-Member, IsTerminal-unique, Ran-marks}

module _ {W E : Type 0} (o : Outside) where
  -- Every step of the list was skipped or executed as planned with the ledger of `st`.
  abbrev pub Pass : List (InstallStep W E) → RunState W → RunState W → Type 0
  Pass steps st st' =
      Ran o 0 (pair_up steps (map (plan_step (terminal_of steps) st.ledger) steps)) st st'

  plan_of : List (InstallStep W E) → InstallLedger → InstallStep W E → StepPlan
  plan_of steps led = plan_step (terminal_of steps) led

  terminal_done :
      (steps : List (InstallStep W E)) (st st' : RunState W) (g key : String)
      → g ≢ ""
      → Pass steps st st'
      → IsTerminal g key steps
      → done st'.ledger key ≡ true
  terminal_done steps st st' g key named pass t =
      let (z, m, a, b) = IsTerminal-Member g key steps t in
      elim (plan_step-Decides steps st.ledger z m) [
        | inl run ↦
            rw b at
              (Ran-marks o 0 (plan_step (terminal_of steps) st.ledger) steps st st' z pass m run.0)
        | inr (skip, (k, inr single)) ↦ absurd (named (sym a ∙ single.0))
        | inr (skip, (k, inl (n, (key', u, d)))) ↦
            let same : key' ≡ key = IsTerminal-unique g key' key steps (rw a at u) t in
            rw (← same) (
              Ran-keeps o 0 (pair_up steps (map (plan_step (terminal_of steps) st.ledger) steps)) st
                st' key' pass d)
      ]

  single_done :
      (steps : List (InstallStep W E)) (st st' : RunState W) (s : InstallStep W E)
      → Member s steps
      → s.group ≡ ""
      → Pass steps st st'
      → done st'.ledger s.key ≡ true
  single_done steps st st' s m alone pass = elim (plan_step-Decides steps st.ledger s m) [
    | inl run ↦ Ran-marks o 0 (plan_step (terminal_of steps) st.ledger) steps st st' s pass m run.0
    | inr (skip, (k, inl (named, x))) ↦ absurd (named alone)
    | inr (skip, (k, inr (n, d))) ↦
        Ran-keeps o 0 (pair_up steps (map (plan_step (terminal_of steps) st.ledger) steps)) st st'
          s.key pass d
  ]

  Pass-skips :
      (steps : List (InstallStep W E)) (st st' : RunState W) (s : InstallStep W E)
      → Member s steps
      → s.kind ≡ step_mutation
      → Pass steps st st'
      → (plan_step (terminal_of steps) st'.ledger s).run ≡ false
  Pass-skips steps st st' s m k pass = elim (plan_step-Decides steps st'.ledger s m) [
    | inr skip ↦ skip.0
    | inl (run, inl gate) ↦ let clash : step_gate ≡ step_mutation = sym gate ∙ k in cc
    | inl (run, inr (inl (named, (key, t, d)))) ↦
        let clash : true ≡ false = sym (terminal_done steps st st' s.group key named pass t) ∙ d in
        cc
    | inl (run, inr (inr (alone, d))) ↦
        let clash : true ≡ false = sym (single_done steps st st' s m alone pass) ∙ d in cc
  ]

  -- After a complete run, the next pass over the same steps with the ledger it left plans to run no
  -- mutation step: neither a self-contained one nor a member of a group.
  pub rerun-skips_mutations :
      (steps : List (InstallStep W E)) (led : InstallLedger) (w : W) (d : Disk)
      (r : RunResult E × List (InstallStep W E) × RunState W) (s : InstallStep W E)
      → run_install_unattended o steps (some led) w d ≡ ok r
      → r.0.outcome ≡ run_complete
      → Member s steps
      → s.kind ≡ step_mutation
      → (plan_step (terminal_of steps) r.2.ledger s).run ≡ false
  unfolding plan_run
  rerun-skips_mutations steps led w d r s h c m k =
      elim (run_install_unattended-Finished o steps led w d r h).1 [
        | inl a ↦ Pass-skips steps (record { app = w; ledger = led; disk = d }) r.2 s m k a.1
        | inr f ↦ let clash : run_complete ≡ run_failed = sym c ∙ f.0 in cc
      ]
