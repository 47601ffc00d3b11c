-- ===== src/Engine/Resume.antt =====
-- Resuming an install: what the recorded steps mean over whole runs (internal/installer/engine.go).
use virtual_private_node.Base.{
  ℕ, ◌+◌, String, ◌≡◌, refl, true, List, [], ◌∷◌, ok, inl, inr, some, Bool-cases, str_eq, eq_iff,
  >>=-eq-ok, ok-injective,
}
use virtual_private_node.Ledger.{InstallLedger, done, mark_done}
use virtual_private_node.Ledger.Marks.{done-mark_done}
use virtual_private_node.Ledger.Publish.{Disk}
use virtual_private_node.Engine.{InstallStep, plan_run, validate_steps}
use virtual_private_node.Engine.Run.{
  Outside, RunState, RunResult, Planned, pair_up, run_steps, new_step_runner,
  run_install_unattended,
}
use virtual_private_node.Engine.Trace.{Ran, Failed, StoppedAt, RunLaw, run_steps_lem}

module _ {W E : Type 0} (o : Outside) where
  -- What a call that returns no error did.
  abbrev pub Finished :
      List (InstallStep W E)
      → InstallLedger
      → W
      → Disk
      → RunResult E × List (InstallStep W E) × RunState W
      → Type 0
  Finished steps led w d r =
      (validate_steps steps ≡ ok tt)
      × RunLaw o 0 (pair_up steps (plan_run steps led)) (record { app = w; ledger = led; disk = d })
          r.0 r.2

  new_step_runner-ok :
      (steps : List (InstallStep W E)) (led : InstallLedger) (x : Planned W E × InstallLedger)
      → new_step_runner o steps (some led) ≡ ok x
      → (validate_steps steps ≡ ok tt) × ((pair_up steps (plan_run steps led), led) ≡ x)
  unfolding new_step_runner
  new_step_runner-ok steps led x h =
      let (u, e, last) = >>=-eq-ok (validate_steps steps) _ h in (e, ok-injective last)

  -- A run that is started ends: either every step was skipped or executed, in order, and the run is
  -- complete; or it failed at a step, all steps before it were skipped or executed, and no later one was
  -- started. A step is skipped or executed as planned, and it counts as executed only when its function
  -- succeeded, its completion was recorded and the file holds the encoding of the ledger with it.
  pub run_install_unattended-Finished :
      (steps : List (InstallStep W E)) (led : InstallLedger) (w : W) (d : Disk)
      (r : RunResult E × List (InstallStep W E) × RunState W)
      → run_install_unattended o steps (some led) w d ≡ ok r
      → Finished steps led w d r
  unfolding run_install_unattended
  run_install_unattended-Finished steps led w d r h =
      let (x, e, last) = >>=-eq-ok (new_step_runner o steps (some led)) _ h in
      let (valid, same) = new_step_runner-ok steps led x e in
      let end : run_steps o [] (pair_up steps (plan_run steps led))
            (record { app = w; ledger = led; disk = d })
          ≡ r =
        rw (← same) at (ok-injective last) in
      (
        valid,
        rw (← end) (
            run_steps_lem o (pair_up steps (plan_run steps led)) []
              (record { app = w; ledger = led; disk = d })),
      )

  pub mark_keeps :
      (s : InstallStep W E) (i : ℕ) (st st' : RunState W) (key : String)
      → mark_done s.key o.version (o.clock i) st.ledger ≡ ok st'.ledger
      → done st.ledger key ≡ true
      → done st'.ledger key ≡ true
  mark_keeps s i st st' key m k =
      rw ((done-mark_done s.key o.version (o.clock i) st.ledger st'.ledger m).0 key, k) refl

  pub mark_marks :
      (s : InstallStep W E) (i : ℕ) (st st' : RunState W)
      → mark_done s.key o.version (o.clock i) st.ledger ≡ ok st'.ledger
      → done st'.ledger s.key ≡ true
  mark_marks s i st st' m =
      let same : str_eq s.key s.key ≡ true = (eq_iff s.key s.key).1 refl in
      let e = (done-mark_done s.key o.version (o.clock i) st.ledger st'.ledger m).0 s.key in
      elim (Bool-cases (done st.ledger s.key)) [
        | inl y ↦ rw (e, y) refl
        | inr n ↦ rw (e, n, same) refl
      ]

  pub Ran-keeps :
      (i : ℕ) (planned : Planned W E) (st st' : RunState W) (key : String)
      → Ran o i planned st st'
      → done st.ledger key ≡ true
      → done st'.ledger key ≡ true
  Ran-keeps i [] st st' key r k = rw r k
  Ran-keeps i ((s, p) ∷ rest) st st' key (inl r) k = Ran-keeps (i + 1) rest st st' key r.1 k
  Ran-keeps i ((s, p) ∷ rest) st st' key (inr (run, (mid, x, r))) k =
      Ran-keeps (i + 1) rest mid st' key r (mark_keeps s i st mid key x.2 k)

  Failed-keeps :
      (i : ℕ) (s : InstallStep W E) (st st' : RunState W) (key : String)
      → Failed o i s st st'
      → done st.ledger key ≡ true
      → done st'.ledger key ≡ true
  Failed-keeps i s st st' key (a, inl same) k = rw same.0 k
  Failed-keeps i s st st' key (a, inr (f, m, x)) k = mark_keeps s i st st' key m k

  StoppedAt-keeps :
      (i : ℕ) (planned : Planned W E) (st st' : RunState W) (key : String)
      → StoppedAt o i planned st st'
      → done st.ledger key ≡ true
      → done st'.ledger key ≡ true
  StoppedAt-keeps i [] st st' key r k = absurd r
  StoppedAt-keeps i ((s, p) ∷ rest) st st' key (inl r) k = Failed-keeps i s st st' key r.1 k
  StoppedAt-keeps i ((s, p) ∷ rest) st st' key (inr (inl r)) k =
      StoppedAt-keeps (i + 1) rest st st' key r.1 k
  StoppedAt-keeps i ((s, p) ∷ rest) st st' key (inr (inr (run, (mid, x, r)))) k =
      StoppedAt-keeps (i + 1) rest mid st' key r (mark_keeps s i st mid key x.2 k)

  -- No run loses a recorded step, whether it completes or fails.
  pub run_install_unattended-keeps_done :
      (steps : List (InstallStep W E)) (led : InstallLedger) (w : W) (d : Disk)
      (r : RunResult E × List (InstallStep W E) × RunState W) (key : String)
      → run_install_unattended o steps (some led) w d ≡ ok r
      → done led key ≡ true
      → done r.2.ledger key ≡ true
  run_install_unattended-keeps_done steps led w d r key h k =
      elim (run_install_unattended-Finished steps led w d r h).1 [
        | inl c ↦
            Ran-keeps 0 (pair_up steps (plan_run steps led))
              (record { app = w; ledger = led; disk = d }) r.2 key c.1 k
        | inr f ↦
            StoppedAt-keeps 0 (pair_up steps (plan_run steps led))
              (record { app = w; ledger = led; disk = d }) r.2 key f.1 k
      ]
