-- ===== src/Engine/Plan.antt =====
-- What the planner and the check of the step list of internal/installer/engine.go decide.
use virtual_private_node.Base.{
  String, ◌≡◌, ◌≢◌, refl, sym, ◌∙◌, Bool, true, false, not, List, [], ◌∷◌, map, ◌⊎◌, inl, inr,
  Bool-cases, str_eq, eq_iff, Member,
}
use virtual_private_node.Ledger.{InstallLedger, done}
use virtual_private_node.Engine.{
  InstallStep, StepPlan, StepKind, step_gate, step_mutation, terminal_from, remember, plan_step,
  plan_run,
}

ne-str_eq : (a b : String) → a ≢ b → str_eq a b ≡ false
ne-str_eq a b h = elim (Bool-cases (str_eq a b)) [
  | inl e ↦ absurd (h ((eq_iff a b).0 e))
  | inr e ↦ e
]

str_eq-ne : (a b : String) → str_eq a b ≡ false → a ≢ b
str_eq-ne a b h e = let t : str_eq a b ≡ true = (eq_iff a b).1 e in cc

kind-cases : (k : StepKind) → (k ≡ step_gate) ⊎ (k ≡ step_mutation)
kind-cases step_gate = inl refl
kind-cases step_mutation = inr refl

module _ {W E : Type 0} where
  abbrev pub NoMember : String → List (InstallStep W E) → Type 0
  NoMember g [] = Unit
  NoMember g (s ∷ steps) = (s.group ≢ g) × NoMember g steps

  -- `key` is the key of the last member of the group in list order.
  abbrev pub IsTerminal : String → String → List (InstallStep W E) → Type 0
  IsTerminal g key [] = ⊥
  IsTerminal g key (s ∷ steps) =
      ((s.group ≡ g) × (s.key ≡ key) × NoMember g steps) ⊎ IsTerminal g key steps

  remember_other :
      (start : String → String) (g : String) (s : InstallStep W E)
      → s.group ≢ g
      → remember s start g ≡ start g
  unfolding remember
  remember_other start g s n = elim (Bool-cases (str_eq s.group "")) [
    | inl e ↦ rw (remember, e) refl
    | inr e ↦ rw (remember, e, ne-str_eq s.group g n) refl
  ]

  remember_same :
      (start : String → String) (g : String) (s : InstallStep W E)
      → g ≢ ""
      → s.group ≡ g
      → s.key ≡ remember s start g
  unfolding remember
  remember_same start g s named e =
      let here : str_eq s.group g ≡ true = (eq_iff s.group g).1 e in
      let some_group : str_eq s.group "" ≡ false = ne-str_eq s.group "" (λ q. named (sym e ∙ q)) in
      rw (remember, some_group, here) refl

  IsTerminal-or_start :
      (start : String → String) (g : String)
      → g ≢ ""
      → (steps : List (InstallStep W E))
      → (NoMember g steps × (terminal_from start steps g ≡ start g))
        ⊎ IsTerminal g (terminal_from start steps g) steps
  IsTerminal-or_start start g named [] = inl (tt, refl)
  IsTerminal-or_start start g named (s ∷ steps) =
      elim (IsTerminal-or_start (remember s start) g named steps) [
        | inr r ↦ inr (inr r)
        | inl l ↦ elim (Bool-cases (str_eq s.group g)) [
          | inl y ↦
              let here = (eq_iff s.group g).0 y in
              inr (inl (here, remember_same start g s named here ∙ sym l.1, l.0))
          | inr n ↦
              let other = str_eq-ne s.group g n in
              inl ((other, l.0), l.1 ∙ remember_other start g s other)
        ]
      ]

  NoMember-Member :
      (g : String) (s : InstallStep W E) (steps : List (InstallStep W E))
      → NoMember g steps
      → Member s steps
      → s.group ≢ g
  NoMember-Member g s [] n m = absurd m
  NoMember-Member g s (t ∷ steps) n (inl e) = rw (← e) n.0
  NoMember-Member g s (t ∷ steps) n (inr m) = NoMember-Member g s steps n.1 m

  pub terminal_from-IsTerminal :
      (start : String → String) (s : InstallStep W E) (steps : List (InstallStep W E))
      → s.group ≢ ""
      → Member s steps
      → IsTerminal s.group (terminal_from start steps s.group) steps
  terminal_from-IsTerminal start s steps named m =
      elim (IsTerminal-or_start start s.group named steps) [
        | inl l ↦ absurd (NoMember-Member s.group s steps l.0 m refl)
        | inr r ↦ r
      ]

  -- When a step is to run: a gate always; a member of a group when the group's terminal step is not
  -- recorded; another step when it is not recorded itself.
  abbrev pub MustRun : List (InstallStep W E) → InstallLedger → InstallStep W E → Type 0
  MustRun steps led s =
      (s.kind ≡ step_gate)
      ⊎ (((s.group ≢ "") × ((key : String) × IsTerminal s.group key steps × (done led key ≡ false)))
          ⊎ ((s.group ≡ "") × (done led s.key ≡ false)))

  -- When a step is to be skipped: no gate, and the group's terminal step, or the step itself where it
  -- is in no group, is recorded.
  abbrev pub MustSkip : List (InstallStep W E) → InstallLedger → InstallStep W E → Type 0
  MustSkip steps led s =
      (s.kind ≡ step_mutation)
      × (((s.group ≢ "") × ((key : String) × IsTerminal s.group key steps × (done led key ≡ true)))
          ⊎ ((s.group ≡ "") × (done led s.key ≡ true)))

  abbrev pub Decides : List (InstallStep W E) → InstallLedger → InstallStep W E → StepPlan → Type 0
  Decides steps led s p =
      ((p.run ≡ true) × MustRun steps led s) ⊎ ((p.run ≡ false) × MustSkip steps led s)

  plan_gate :
      (t : String → String) (led : InstallLedger) (s : InstallStep W E)
      → s.kind ≡ step_gate
      → (plan_step t led s).run ≡ true
  unfolding plan_step
  plan_gate t led s k = rw (plan_step, k) refl

  plan_group :
      (t : String → String) (led : InstallLedger) (s : InstallStep W E) (b : Bool)
      → s.kind ≡ step_mutation
      → str_eq s.group "" ≡ false
      → done led (t s.group) ≡ b
      → (plan_step t led s).run ≡ not b
  unfolding plan_step
  plan_group t led s true k g d = rw (plan_step, k, g, d) refl
  plan_group t led s false k g d = rw (plan_step, k, g, d) refl

  plan_single :
      (t : String → String) (led : InstallLedger) (s : InstallStep W E) (b : Bool)
      → s.kind ≡ step_mutation
      → str_eq s.group "" ≡ true
      → done led s.key ≡ b
      → (plan_step t led s).run ≡ not b
  unfolding plan_step
  plan_single t led s true k g d = rw (plan_step, k, g, d) refl
  plan_single t led s false k g d = rw (plan_step, k, g, d) refl

  abbrev pub terminal_of : List (InstallStep W E) → String → String
  terminal_of steps = terminal_from (λ group. "") steps

  pub plan_step-Decides :
      (steps : List (InstallStep W E)) (led : InstallLedger) (s : InstallStep W E)
      → Member s steps
      → Decides steps led s (plan_step (terminal_of steps) led s)
  plan_step-Decides steps led s m = elim (kind-cases s.kind) [
    | inl g ↦ inl (plan_gate (terminal_of steps) led s g, inl g)
    | inr k ↦ elim (Bool-cases (str_eq s.group "")) [
      | inl n ↦
          let alone = (eq_iff s.group "").0 n in
          elim (Bool-cases (done led s.key)) [
            | inl d ↦ inr (plan_single (terminal_of steps) led s true k n d, (k, inr (alone, d)))
            | inr d ↦ inl (plan_single (terminal_of steps) led s false k n d, inr (inr (alone, d)))
          ]
      | inr n ↦
          let named = str_eq-ne s.group "" n in
          let last = terminal_from-IsTerminal (λ group. "") s steps named m in
          let key = terminal_of steps s.group in
          elim (Bool-cases (done led key)) [
            | inl d ↦
                inr (
                  plan_group (terminal_of steps) led s true k n d,
                  (k, inl (named, (key, last, d))),
                )
            | inr d ↦ inl (
              plan_group (terminal_of steps) led s false k n d,
              inr (inl (named, (key, last, d))),
            )
          ]
    ]
  ]

  abbrev pub AllDecided :
      List (InstallStep W E) → InstallLedger → List (InstallStep W E) → List StepPlan → Type 0
  AllDecided steps led [] [] = Unit
  AllDecided steps led (s ∷ rest) (p ∷ plan) =
      Decides steps led s p × AllDecided steps led rest plan
  AllDecided steps led _ _ = ⊥

  all_decided :
      (steps : List (InstallStep W E)) (led : InstallLedger) (rest : List (InstallStep W E))
      → ((s : InstallStep W E) → Member s rest → Member s steps)
      → AllDecided steps led rest (map (plan_step (terminal_of steps) led) rest)
  all_decided steps led [] f = tt
  all_decided steps led (s ∷ rest) f = (
    plan_step-Decides steps led s (f s (inl refl)),
    all_decided steps led rest (λ t m. f t (inr m)),
  )

  -- The plan has one entry for each step, and each step is planned to run exactly when it must, and to
  -- be skipped exactly when it must: a gate always runs; a member of a group runs when the key of the
  -- last member of its group is not recorded, another step when its own key is not recorded.
  pub plan_run-AllDecided :
      (steps : List (InstallStep W E)) (led : InstallLedger)
      → AllDecided steps led steps (plan_run steps led)
  unfolding plan_run
  plan_run-AllDecided steps led = all_decided steps led steps (λ s m. m)
