-- ===== src/Engine/Trace.antt =====
-- An independent description of a run of the engine: the sequence of the states its steps lead through.
use virtual_private_node.Base.{
  ℕ, ◌+◌, ◌≡◌, refl, sym, ap, Bool, true, false, some, List, [], ◌∷◌, ◌++◌, Result, ok, err, ◌⊎◌,
  inl, inr, length, length-append, Result-cases, Bool-cases, arith,
}
use virtual_private_node.Base.Text.{Text}
use virtual_private_node.Ledger.{InstallLedger, mark_done}
use virtual_private_node.Ledger.Publish.{Disk, Saved, save}
use virtual_private_node.Ledger.Published.{Encodes, SavedAtomically, save-SavedAtomically}
use virtual_private_node.Engine.{InstallStep, StepPlan, is_failed, RunError}
use virtual_private_node.Engine.Run.{
  Outside, RunState, Planned, RunResult, run_complete, run_failed, published, record_step,
  run_index, run_steps, classify_run, first_failed, stopped, settled,
}

-- The file holds the whole encoding of a valid ledger.
abbrev pub Durable : Outside → InstallLedger → Disk → Type 0
Durable o l d = (new : Text) × Encodes o.encode l new × (d.file ≡ some new)

module _ {W E : Type 0} (o : Outside) where
  -- The step's function succeeded, its completion was recorded, and the ledger with it was published.
  abbrev pub Executed : ℕ → InstallStep W E → RunState W → RunState W → Type 0
  Executed i s st st' =
      ((s.fn st.app).0 ≡ ok tt)
      × (st'.app ≡ (s.fn st.app).1)
      × (mark_done s.key o.version (o.clock i) st.ledger ≡ ok st'.ledger)
      × Durable o st'.ledger st'.disk

  -- Every step of the list was skipped or executed, in order.
  abbrev pub Ran : ℕ → Planned W E → RunState W → RunState W → Type 0
  Ran i [] st st' = st' ≡ st
  Ran i ((s, p) ∷ rest) st st' =
      ((p.run ≡ false) × Ran (i + 1) rest st st')
      ⊎ ((p.run ≡ true) × ((mid : RunState W) × Executed i s st mid × Ran (i + 1) rest mid st'))

  -- The step's function ran once and it failed, or its completion was not recorded, or the ledger with
  -- it was not published.
  abbrev pub Failed : ℕ → InstallStep W E → RunState W → RunState W → Type 0
  Failed i s st st' =
      (st'.app ≡ (s.fn st.app).1)
      × (((st'.ledger ≡ st.ledger) × (st'.disk ≡ st.disk))
          ⊎ (((s.fn st.app).0 ≡ ok tt)
              × (mark_done s.key o.version (o.clock i) st.ledger ≡ ok st'.ledger)
              × ((st'.disk.file ≡ st.disk.file) ⊎ Durable o st'.ledger st'.disk)))

  -- The steps before one ran, and that one failed; no later one was started.
  abbrev pub StoppedAt : ℕ → Planned W E → RunState W → RunState W → Type 0
  StoppedAt i [] st st' = ⊥
  StoppedAt i ((s, p) ∷ rest) st st' =
      ((p.run ≡ true) × Failed i s st st')
      ⊎ (((p.run ≡ false) × StoppedAt (i + 1) rest st st')
          ⊎ ((p.run ≡ true)
              × ((mid : RunState W) × Executed i s st mid × StoppedAt (i + 1) rest mid st')))

  abbrev pub IndexLaw :
      ℕ → InstallStep W E → RunState W → Result (RunError E) Bool × RunState W → Type 0
  IndexLaw i s st (err e, st') = Failed i s st st'
  IndexLaw i s st (ok skipped, st') = (skipped ≡ false) × Executed i s st st'

  published_lem :
      (i : ℕ) (s : InstallStep W E) (st : RunState W) (w : W) (l : InstallLedger) (r : Saved)
      → (s.fn st.app) ≡ (ok tt, w)
      → mark_done s.key o.version (o.clock i) st.ledger ≡ ok l
      → SavedAtomically o.encode l st.disk r
      → IndexLaw i s st (published o w l r)
  published_lem i s st w l (err e, d) f m a = (
    sym (ap (λ r. r.1) f),
    inr (ap (λ r. r.0) f, m, elim a.0 [ inl same ↦ inl same | inr new ↦ inr new ]),
  )
  published_lem i s st w l (ok u, d) f m a =
      let (new, n, same, temps) = a.1 refl in
      (refl, (ap (λ r. r.0) f, sym (ap (λ r. r.1) f), m, (new, n, same)))

  record_step_lem :
      (i : ℕ) (s : InstallStep W E) (st : RunState W) (r : Result E (Unit {0}) × W)
      → (s.fn st.app) ≡ r
      → IndexLaw i s st (record_step o i s st r)
  unfolding record_step
  record_step_lem i s st (err e, w) f = (sym (ap (λ r. r.1) f), inl (refl, refl))
  record_step_lem i s st (ok u, w) f =
      elim (Result-cases (mark_done s.key o.version (o.clock i) st.ledger)) [
        | err (e, m) ↦ rw (record_step, m) (sym (ap (λ r. r.1) f), inl (refl, refl))
        | ok (l, m) ↦
            rw (record_step, m)
              (published_lem i s st w l (save o.encode (o.faults i) l st.disk) f m
                (save-SavedAtomically o.encode (o.faults i) l st.disk))
      ]

  run_index-run :
      (i : ℕ) (s : InstallStep W E) (p : StepPlan) (st : RunState W)
      → p.run ≡ true
      → IndexLaw i s st (run_index o i s p st)
  unfolding run_index
  run_index-run i s p st h = rw h (record_step_lem i s st (s.fn st.app) refl)

  run_index-skip :
      (i : ℕ) (s : InstallStep W E) (p : StepPlan) (st : RunState W)
      → p.run ≡ false
      → run_index o i s p st ≡ (ok true, st)
  unfolding run_index
  run_index-skip i s p st h = rw h refl

  -- What a finished run answers: every step ran and the run is complete, or the run failed at the step
  -- where it stopped.
  abbrev pub RunLaw : ℕ → Planned W E → RunState W → RunResult E → RunState W → Type 0
  RunLaw i planned st result st' =
      ((result.outcome ≡ run_complete) × Ran i planned st st')
      ⊎ ((result.outcome ≡ run_failed) × StoppedAt i planned st st')

  first_failed-outcome :
      (total i : ℕ) (steps : List (InstallStep W E))
      → (first_failed total i steps).outcome ≡ run_failed
  unfolding first_failed
  first_failed-outcome total i [] = refl
  first_failed-outcome total i (s ∷ steps) = elim (Bool-cases (is_failed s.status)) [
    | inl h ↦ rw h refl
    | inr h ↦ rw h (first_failed-outcome total (i + 1) steps)
  ]

  run_steps-nil :
      (ran : List (InstallStep W E)) (st : RunState W)
      → ((run_steps o ran [] st).0.outcome ≡ run_complete) × ((run_steps o ran [] st).2 ≡ st)
  unfolding run_steps classify_run
  run_steps-nil ran st = (refl, refl)

  run_steps-err :
      (ran : List (InstallStep W E)) (s : InstallStep W E) (p : StepPlan) (rest : Planned W E)
      (st st' : RunState W) (e : RunError E)
      → run_index o (length ran) s p st ≡ (err e, st')
      → ((run_steps o ran ((s, p) ∷ rest) st).0.outcome ≡ run_failed)
        × ((run_steps o ran ((s, p) ∷ rest) st).2 ≡ st')
  unfolding run_steps classify_run
  run_steps-err ran s p rest st st' e h =
      rw (run_steps, h)
        (
          first_failed-outcome (length (stopped o ran s e rest)) 0 (stopped o ran s e rest),
          ap (λ r. r.1) h,
        )

  run_steps-ok :
      (ran : List (InstallStep W E)) (s : InstallStep W E) (p : StepPlan) (rest : Planned W E)
      (st st' : RunState W) (skipped : Bool)
      → run_index o (length ran) s p st ≡ (ok skipped, st')
      → run_steps o ran ((s, p) ∷ rest) st
        ≡ run_steps o (ran ++ (settled o skipped s ∷ [])) rest st'
  unfolding run_steps
  run_steps-ok ran s p rest st st' skipped h =
      rw (run_steps, h) (ap (λ r. run_steps o (ran ++ (settled o skipped s ∷ [])) rest r.1) h)

  length-snoc :
      (ran : List (InstallStep W E)) (s : InstallStep W E)
      → length (ran ++ (s ∷ [])) ≡ length ran + 1
  length-snoc ran s = omega (arith, length-append ran (s ∷ []))

  skip_first :
      (i : ℕ) (s : InstallStep W E) (p : StepPlan) (rest : Planned W E) (st : RunState W)
      (result : RunResult E) (st' : RunState W)
      → p.run ≡ false
      → RunLaw (i + 1) rest st result st'
      → RunLaw i ((s, p) ∷ rest) st result st'
  skip_first i s p rest st result st' h (inl (e, r)) = inl (e, inl (h, r))
  skip_first i s p rest st result st' h (inr (e, r)) = inr (e, inr (inl (h, r)))

  run_first_ok :
      (i : ℕ) (s : InstallStep W E) (p : StepPlan) (rest : Planned W E) (st mid : RunState W)
      (result : RunResult E) (st' : RunState W)
      → p.run ≡ true
      → Executed i s st mid
      → RunLaw (i + 1) rest mid result st'
      → RunLaw i ((s, p) ∷ rest) st result st'
  run_first_ok i s p rest st mid result st' h x (inl (e, r)) = inl (e, inr (h, (mid, x, r)))
  run_first_ok i s p rest st mid result st' h x (inr (e, r)) = inr (e, inr (inr (h, (mid, x, r))))

  run_first :
      (ran : List (InstallStep W E)) (s : InstallStep W E) (p : StepPlan) (rest : Planned W E)
      (st : RunState W)
      → p.run ≡ true
      → (r : Result (RunError E) Bool × RunState W) → run_index o (length ran) s p st ≡ r
      → ((skipped : Bool) (mid : RunState W)
          → RunLaw
              (length (ran ++ (settled o skipped s ∷ [])))
              rest
              mid
              (run_steps o (ran ++ (settled o skipped s ∷ [])) rest mid).0
              (run_steps o (ran ++ (settled o skipped s ∷ [])) rest mid).2)
      → RunLaw
          (length ran)
          ((s, p) ∷ rest)
          st
          (run_steps o ran ((s, p) ∷ rest) st).0
          (run_steps o ran ((s, p) ∷ rest) st).2
  run_first ran s p rest st h (err e, st') q next =
      let law : Failed (length ran) s st st' = rw q at (run_index-run (length ran) s p st h) in
      let (bad, same) = run_steps-err ran s p rest st st' e q in inr (bad, inl (h, rw same law))
  run_first ran s p rest st h (ok skipped, mid) q next =
      let law : (skipped ≡ false) × Executed (length ran) s st mid =
        rw q at (run_index-run (length ran) s p st h) in
      let after : RunLaw (length ran + 1) rest mid
          (run_steps o (ran ++ (settled o skipped s ∷ [])) rest mid).0
          (run_steps o (ran ++ (settled o skipped s ∷ [])) rest mid).2 =
        rw (length-snoc ran (settled o skipped s)) at (next skipped mid) in
      rw (run_steps-ok ran s p rest st mid skipped q) (
        run_first_ok (length ran) s p rest st mid
          (run_steps o (ran ++ (settled o skipped s ∷ [])) rest mid).0
          (run_steps o (ran ++ (settled o skipped s ∷ [])) rest mid).2 h law.1 after)

  pub run_steps_lem :
      (planned : Planned W E) (ran : List (InstallStep W E)) (st : RunState W)
      → RunLaw (length ran) planned st (run_steps o ran planned st).0 (run_steps o ran planned st).2
  run_steps_lem [] ran st = inl (run_steps-nil ran st)
  run_steps_lem ((s, p) ∷ rest) ran st = elim (Bool-cases p.run) [
    | inr h ↦ rw (run_steps-ok ran s p rest st st true (run_index-skip (length ran) s p st h)) (
        skip_first (length ran) s p rest st (run_steps o (ran ++ (settled o true s ∷ [])) rest st).0
          (run_steps o (ran ++ (settled o true s ∷ [])) rest st).2 h
          (rw (length-snoc ran (settled o true s)) at
            (run_steps_lem rest (ran ++ (settled o true s ∷ [])) st)))
    | inl h ↦
        run_first ran s p rest st h (run_index o (length ran) s p st) refl
          (λ skipped mid. run_steps_lem rest (ran ++ (settled o skipped s ∷ [])) mid)
  ]
