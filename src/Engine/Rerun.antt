-- ===== src/Engine/Rerun.antt =====
-- What a run leaves for the next one: durable completions, recorded only after success, and skipped by
-- the next pass (internal/installer/engine.go).
use virtual_private_node.Base.{
  ℕ, ◌+◌, String, ◌≡◌, refl, sym, ap, ◌∙◌, true, false, List, [], ◌∷◌, map, ok, ◌⊎◌, inl, inr, some,
  Member,
}
use virtual_private_node.Ledger.{InstallLedger, done}
use virtual_private_node.Ledger.Publish.{Disk}
use virtual_private_node.Engine.{InstallStep, StepPlan, plan_run}
use virtual_private_node.Engine.Run.{
  Outside, RunState, RunResult, Planned, pair_up, run_complete, run_failed, run_install_unattended,
}
use virtual_private_node.Engine.Trace.{Durable, Ran}
use virtual_private_node.Engine.Plan.{IsTerminal, NoMember}
use virtual_private_node.Engine.Resume.{run_install_unattended-Finished, mark_marks, Ran-keeps}

module _ {W E : Type 0} where
  -- Some step of the list has the key, and its function succeeded on some machine.
  abbrev pub Succeeded : String → List (InstallStep W E) → Type 0
  Succeeded key [] = ⊥
  Succeeded key (s ∷ steps) =
      ((s.key ≡ key) × ((w : W) × ((s.fn w).0 ≡ ok tt))) ⊎ Succeeded key steps

  IsTerminal-NoMember :
      (g key : String) (steps : List (InstallStep W E))
      → IsTerminal g key steps
      → NoMember g steps
      → ⊥
  IsTerminal-NoMember g key [] t n = t
  IsTerminal-NoMember g key (s ∷ steps) (inl t) n = n.0 t.0
  IsTerminal-NoMember g key (s ∷ steps) (inr t) n = IsTerminal-NoMember g key steps t n.1

  pub IsTerminal-unique :
      (g a b : String) (steps : List (InstallStep W E))
      → IsTerminal g a steps
      → IsTerminal g b steps
      → a ≡ b
  IsTerminal-unique g a b [] t u = absurd t
  IsTerminal-unique g a b (s ∷ steps) (inl t) (inl u) = sym t.1 ∙ u.1
  IsTerminal-unique g a b (s ∷ steps) (inl t) (inr u) = absurd (IsTerminal-NoMember g b steps u t.2)
  IsTerminal-unique g a b (s ∷ steps) (inr t) (inl u) = absurd (IsTerminal-NoMember g a steps t u.2)
  IsTerminal-unique g a b (s ∷ steps) (inr t) (inr u) = IsTerminal-unique g a b steps t u

  pub IsTerminal-Member :
      (g key : String) (steps : List (InstallStep W E))
      → IsTerminal g key steps
      → (z : InstallStep W E) × Member z steps × (z.group ≡ g) × (z.key ≡ key)
  IsTerminal-Member g key [] t = absurd t
  IsTerminal-Member g key (s ∷ steps) (inl t) = (s, inl refl, t.0, t.1)
  IsTerminal-Member g key (s ∷ steps) (inr t) =
      let (z, m, a, b) = IsTerminal-Member g key steps t in (z, inr m, a, b)

module _ {W E : Type 0} (o : Outside) where
  Ran-Durable :
      (i : ℕ) (planned : Planned W E) (st st' : RunState W)
      → Ran o i planned st st'
      → (st' ≡ st) ⊎ Durable o st'.ledger st'.disk
  Ran-Durable i [] st st' r = inl r
  Ran-Durable i ((s, p) ∷ rest) st st' (inl r) = Ran-Durable (i + 1) rest st st' r.1
  Ran-Durable i ((s, p) ∷ rest) st st' (inr (run, (mid, x, r))) =
      elim (Ran-Durable (i + 1) rest mid st' r) [ inl e ↦ inr (rw e x.3) | inr d ↦ inr d ]

  -- A complete run changed nothing at all, or the published file holds the encoding of the final ledger.
  pub run_install_unattended-Durable :
      (steps : List (InstallStep W E)) (led : InstallLedger) (w : W) (d : Disk)
      (r : RunResult E × List (InstallStep W E) × RunState W)
      → run_install_unattended o steps (some led) w d ≡ ok r
      → r.0.outcome ≡ run_complete
      → (r.2 ≡ record { app = w; ledger = led; disk = d }) ⊎ Durable o r.2.ledger r.2.disk
  run_install_unattended-Durable steps led w d r h c =
      elim (run_install_unattended-Finished o steps led w d r h).1 [
        | inl a ↦
            Ran-Durable 0 (pair_up steps (plan_run steps led))
              (record { app = w; ledger = led; disk = d }) r.2 a.1
        | inr f ↦ let clash : run_complete ≡ run_failed = sym c ∙ f.0 in cc
      ]

  pub Ran-marks :
      (i : ℕ) (f : InstallStep W E → StepPlan) (steps : List (InstallStep W E))
      (st st' : RunState W) (s : InstallStep W E)
      → Ran o i (pair_up steps (map f steps)) st st'
      → Member s steps
      → (f s).run ≡ true
      → done st'.ledger s.key ≡ true
  Ran-marks i f [] st st' s r m h = absurd m
  Ran-marks i f (t ∷ steps) st st' s (inl r) (inl e) h =
      let clash : true ≡ false = sym h ∙ ap (λ x. (f x).run) (sym e) ∙ r.0 in cc
  Ran-marks i f (t ∷ steps) st st' s (inl r) (inr m) h = Ran-marks (i + 1) f steps st st' s r.1 m h
  Ran-marks i f (t ∷ steps) st st' s (inr (run, (mid, x, r))) (inl e) h =
      Ran-keeps o (i + 1) (pair_up steps (map f steps)) mid st' s.key r
        (rw (ap (λ x. x.key) e) at (mark_marks o t i st mid x.2))
  Ran-marks i f (t ∷ steps) st st' s (inr (run, (mid, x, r))) (inr m) h =
      Ran-marks (i + 1) f steps mid st' s r m h
