-- ===== src/Lifecycle/Recovery.antt =====
-- The hosts that starts of an install go through (RunInstall of internal/installer/setup.go).
use virtual_private_node.Lifecycle.{completion_pending, completed}
use virtual_private_node.Lifecycle.Startup.{check_and_proceed}
use virtual_private_node.Base.{String, ◌&&◌}
use virtual_private_node.Base.Int.{ℤ}
use virtual_private_node.Lifecycle.Init.{same_initial_context}
use virtual_private_node.Ledger.{InstallContext}
use virtual_private_node.Base.{◌∷◌}
use virtual_private_node.Base.{
  ℕ, ◌≡◌, refl, Bool-cases, sym, ◌∙◌, Bool, true, false, Option, none, some, List, [], Result, ok,
  ◌⊎◌, inl, inr,
}
use virtual_private_node.Ledger.Parse.{Json, WritesFresh}
use virtual_private_node.Lifecycle.{Host, Bootstrap, context_of, LifecycleError}
use virtual_private_node.Lifecycle.Shape.{empty_tree, IsClean, plant}
use virtual_private_node.Lifecycle.Valid.{bytes}
use virtual_private_node.Lifecycle.Stages.{On, on, Recoverable}
use virtual_private_node.Lifecycle.Stages.{AnyTree}
use virtual_private_node.Lifecycle.Dirs.{Masks}
use virtual_private_node.Ledger.{InstallLedger, fresh_ledger}
use virtual_private_node.Lifecycle.Fill.{setup}
use virtual_private_node.Lifecycle.{boot_mainnet, bootstraps}
use virtual_private_node.Lifecycle.Init.{bootstrap_for_context}
use virtual_private_node.Lifecycle.{Lifecycle, bootstrap, classify_lifecycle_state}
use virtual_private_node.Lifecycle.Init.{initialize_lifecycle, resume_lifecycle_bootstrap}
use virtual_private_node.Lifecycle.Finish.{last_tree}
use virtual_private_node.Lifecycle.Classes.{classify-booted}
use virtual_private_node.Base.{eq_iff, str_eq, Bool-cases}
use virtual_private_node.Lifecycle.{pristine, resumable}
use virtual_private_node.Lifecycle.Classes.{classify-begun, classify-empty}
use virtual_private_node.Lifecycle.Begin.{Begun}
use virtual_private_node.Lifecycle.Startup.{
  InstallOptions, with_ledger, already_installed, start_install, dispatch, proceed, initial_context,
}
use virtual_private_node.Lifecycle.Attempts.{initialized, resumed}
use virtual_private_node.Lifecycle.Leaves.{
  Leaves, Leaves-pure, Leaves-ask, Leaves-bind, Leaves-cases, Triple-Leaves,
}

context_eq :
    {n n' p p' : String} {d d' : Option ℤ}
    → n ≡ n'
    → p ≡ p'
    → d ≡ d'
    → ◌≡◌ {A = InstallContext}
        (record { network = n; initial_p2p_mode = p; db_cache_mb = d })
        (record { network = n'; initial_p2p_mode = p'; db_cache_mb = d' })
context_eq x y z = cc

no_value : (o : Option ℤ) → (elim o [ none ↦ true | some v ↦ false ]) ≡ true → o ≡ none
no_value none e = refl
no_value (some v) e = absurd cc

both_true : (x y : Bool) → (x && y) ≡ true → (x ≡ true) × (y ≡ true)
both_true true y e = (refl, e)
both_true false y e = absurd cc

same_initial : (a c : InstallContext) → same_initial_context a c ≡ true → c ≡ a
same_initial a c e =
    let (e1, cache_c) = both_true _ (elim c.db_cache_mb [ none ↦ true | some v ↦ false ]) e in
    let (e2, cache_a) = both_true _ (elim a.db_cache_mb [ none ↦ true | some v ↦ false ]) e1 in
    let (network, mode) =
      both_true (str_eq a.network c.network) (str_eq a.initial_p2p_mode c.initial_p2p_mode) e2 in
    context_eq (sym ((eq_iff a.network c.network).0 network))
      (sym ((eq_iff a.initial_p2p_mode c.initial_p2p_mode).0 mode))
      (no_value c.db_cache_mb cache_c ∙ sym (no_value a.db_cache_mb cache_a))

module _ (json : Json) (umask : ℕ → ℕ) (masks : Masks umask)
    (w : (b : Bootstrap) → WritesFresh json (context_of b)) (h : Host) (clean : IsClean h) where
  -- The hosts between the pristine one and the installs that have begun.
  pub data Beginning : Host → Type 0 where
    untouched : Beginning (empty_tree h)
    begun_at :
        (b : Bootstrap) (g : Host)
        → On (setup json b (w b) h) (AnyTree (setup json b (w b) h)) g
        → Beginning g
    finished : (b : Bootstrap) → Beginning (plant (bytes json b (w b)) last_tree (empty_tree h))

  from_recoverable : (b : Bootstrap) (g : Host) → Recoverable (setup json b (w b) h) g → Beginning g
  from_recoverable b g (inl e) = rw e untouched
  from_recoverable b g (inr (inl p)) = begun_at b g p
  from_recoverable b g (inr (inr e)) = rw e (finished b)

  from_begun :
      (b : Bootstrap) (l : InstallLedger) (g : Host)
      → Begun json umask masks b (w b) h clean l g
      → Beginning g
  from_begun b l g q = rw q.1 (finished b)

  -- How the classification finds a host.
  abbrev pub Found : Host → Type 0
  Found g =
      (classify_lifecycle_state json g ≡ ok pristine)
      ⊎ ((b : Bootstrap) × ((classify_lifecycle_state json g ≡ ok (bootstrap (context_of b)))
            ⊎ (classify_lifecycle_state json g ≡ ok (resumable (fresh_ledger (context_of b))))))

  pub found_bootstrap :
      (b : Bootstrap) (g : Host)
      → On (setup json b (w b) h) (AnyTree (setup json b (w b) h)) g
      → classify_lifecycle_state json g ≡ ok (bootstrap (context_of b))
  found_bootstrap b _ (on t k good e p) = classify-booted json b (w b) h clean t k good e

  pub found_pristine : classify_lifecycle_state json (empty_tree h) ≡ ok pristine
  found_pristine = classify-empty json boot_mainnet (w boot_mainnet) h clean

  pub found_begun :
      (b : Bootstrap)
      → classify_lifecycle_state json (plant (bytes json b (w b)) last_tree (empty_tree h))
        ≡ ok (resumable (fresh_ledger (context_of b)))
  found_begun b = classify-begun json b (w b) h clean

  pub found : (g : Host) → Beginning g → Found g
  found _ untouched = inl found_pristine
  found _ (begun_at b g p) = inr (b, inl (found_bootstrap b g p))
  found _ (finished b) = inr (b, inr (found_begun b))

  -- The hosts of each state.
  is_untouched :
      (g : Host) → Beginning g → classify_lifecycle_state json g ≡ ok pristine → g ≡ empty_tree h
  is_untouched _ untouched e = refl
  is_untouched _ (begun_at b g p) e = let q = found_bootstrap b g p in cc
  is_untouched _ (finished b) e = let q = found_begun b in cc

  same_context :
      (a c : InstallContext)
      → ◌≡◌ {A = Result LifecycleError Lifecycle} (ok (bootstrap c)) (ok (bootstrap a))
      → c ≡ a
  same_context a c e = cc

  has_bootstrap :
      (ctx : InstallContext) (g : Host)
      → Beginning g
      → classify_lifecycle_state json g ≡ ok (bootstrap ctx)
      → (i : (b : Bootstrap) × (context_of b ≡ ctx)) × On
          (setup json i.0 (w i.0) h)
          (AnyTree (setup json i.0 (w i.0) h))
          g
  has_bootstrap ctx _ untouched e = let q = found_pristine in absurd cc
  has_bootstrap ctx _ (begun_at b g p) e =
      let q = found_bootstrap b g p in ((b, same_context ctx (context_of b) (sym q ∙ e)), p)
  has_bootstrap ctx _ (finished b) e = let q = found_begun b in absurd cc

  initialized-Leaves :
      (b : Bootstrap) (part : ℕ)
      → Leaves
          (λ g. g ≡ empty_tree h)
          Beginning
          (initialize_lifecycle json umask (context_of b) part)
  initialized-Leaves b part =
      Triple-Leaves _ _ Beginning _ _ (from_recoverable b) (from_begun b)
        (initialized json umask masks b (w b) h clean part)

  resumed-Leaves :
      (b : Bootstrap) (part : ℕ)
      → Leaves
          (On (setup json b (w b) h) (AnyTree (setup json b (w b) h)))
          Beginning
          (resume_lifecycle_bootstrap json umask (context_of b) part)
  resumed-Leaves b part =
      Triple-Leaves _ _ Beginning _ _ (from_recoverable b) (from_begun b)
        (resumed json umask masks b (w b) h clean part)

  context_cases_in :
      (ctx : InstallContext) (bs : List Bootstrap)
      → ((b : Bootstrap) × (ctx ≡ context_of b))
        ⊎ ((c : Bootstrap) → bootstrap_for_context ctx bs ≡ ok c → ⊥)
  unfolding bootstrap_for_context
  context_cases_in ctx [] = inr (λ c e. absurd cc)
  context_cases_in ctx (b ∷ bs) = elim (Bool-cases (same_initial_context (context_of b) ctx)) [
    | inl same ↦ inl (b, same_initial (context_of b) ctx same)
    | inr differs ↦ elim (context_cases_in ctx bs) [
      | inl found ↦ inl found
      | inr never ↦ inr (λ c e. never c (rw (bootstrap_for_context, differs) at e))
    ]
  ]

  -- A network that is not one of the three has no bootstrap file.
  context_cases :
      (ctx : InstallContext)
      → ((b : Bootstrap) × (ctx ≡ context_of b))
        ⊎ ((c : Bootstrap) → bootstrap_for_context ctx bootstraps ≡ ok c → ⊥)
  context_cases ctx = context_cases_in ctx bootstraps

  module _ (preflight : Host → Bool) (o : InstallOptions) (part : ℕ) where
    no_boot-Leaves :
        (ctx : InstallContext)
        → ((c : Bootstrap) → bootstrap_for_context ctx bootstraps ≡ ok c → ⊥)
        → Leaves
            (λ g. Beginning g × (classify_lifecycle_state json g ≡ ok pristine))
            Beginning
            (initialize_lifecycle json umask ctx part)
    unfolding initialize_lifecycle
    no_boot-Leaves ctx never =
        Leaves-ask _ Beginning _ _ (λ g p. p.0)
          (λ l.
            Leaves-ask _ Beginning _ _ (λ g p. p.0.0)
              (λ c. record { left_by = λ m p. absurd (never c p.1) }))

    pristine-Leaves :
        Leaves
          (λ g. Beginning g × (classify_lifecycle_state json g ≡ ok pristine))
          Beginning
          (initialize_lifecycle json umask (initial_context o) part)
    pristine-Leaves = elim (context_cases (initial_context o)) [
      | inl (b, e) ↦
          Leaves-cases _ (λ (i : Unit {0}) g. g ≡ empty_tree h) Beginning _
            (λ g p. (tt, is_untouched g p.0 p.1)) (λ i. rw e (initialized-Leaves b part))
      | inr no_boot ↦ no_boot-Leaves (initial_context o) no_boot
    ]

    bootstrap-Leaves :
        (ctx : InstallContext)
        → Leaves
            (λ g. Beginning g × (classify_lifecycle_state json g ≡ ok (bootstrap ctx)))
            Beginning
            (resume_lifecycle_bootstrap json umask ctx part)
    bootstrap-Leaves ctx =
        Leaves-cases _ (λ i. On (setup json i.0 (w i.0) h) (AnyTree (setup json i.0 (w i.0) h)))
          Beginning _ (λ g p. has_bootstrap ctx g p.0 p.1)
          (λ i. rw (sym i.1) (resumed-Leaves i.0 part))

    proceed-Leaves :
        (s : Lifecycle)
        → Leaves
            (λ g. Beginning g × (classify_lifecycle_state json g ≡ ok s))
            Beginning
            (proceed json umask preflight o part s)
    unfolding proceed
    proceed-Leaves pristine =
        Leaves-bind _ Beginning _ _ pristine-Leaves
          (λ l. Leaves-pure (with_ledger l) Beginning Beginning (λ g p. p))
    proceed-Leaves (bootstrap ctx) =
        Leaves-ask _ Beginning _ _ (λ g p. p.0)
          (λ a.
            Leaves-bind _ Beginning _ _
              (Leaves-cases _
                (λ (i : Unit {0}) g.
                  Beginning g × (classify_lifecycle_state json g ≡ ok (bootstrap ctx)))
                Beginning _ (λ g p. (tt, p.0)) (λ i. bootstrap-Leaves ctx))
              (λ l. Leaves-pure (with_ledger l) Beginning Beginning (λ g p. p)))
    proceed-Leaves (resumable l) =
        Leaves-ask _ Beginning _ _ (λ g p. p.0)
          (λ a. Leaves-pure (with_ledger l) _ Beginning (λ g p. p.0.0))
    proceed-Leaves (completion_pending l) =
        Leaves-ask _ Beginning _ _ (λ g p. p.0)
          (λ a.
            Leaves-ask _ Beginning _ _ (λ g p. p.0.0)
              (λ c. Leaves-pure (with_ledger l) _ Beginning (λ g p. p.0.0.0)))
    proceed-Leaves (completed l) = Leaves-pure already_installed _ Beginning (λ g p. p.0)

    checked-Leaves :
        (s : Lifecycle)
        → Leaves
            (λ g. Beginning g × (classify_lifecycle_state json g ≡ ok s))
            Beginning
            (check_and_proceed json umask preflight o part s)
    checked-Leaves s =
        Leaves-ask _ Beginning _ _ (λ g p. p.0)
          (λ a.
            Leaves-ask _ Beginning _ _ (λ g p. p.0.0)
              (λ c.
                Leaves-cases _
                  (λ (i : Unit {0}) g. Beginning g × (classify_lifecycle_state json g ≡ ok s))
                  Beginning _ (λ g p. (tt, p.0.0)) (λ i. proceed-Leaves s)))

    dispatch-Leaves :
        (s : Lifecycle)
        → Leaves
            (λ g. Beginning g × (classify_lifecycle_state json g ≡ ok s))
            Beginning
            (dispatch json umask preflight o part s)
    unfolding dispatch
    dispatch-Leaves (completed l) = Leaves-pure already_installed _ Beginning (λ g p. p.0)
    dispatch-Leaves pristine = checked-Leaves pristine
    dispatch-Leaves (bootstrap ctx) = checked-Leaves (bootstrap ctx)
    dispatch-Leaves (resumable l) = checked-Leaves (resumable l)
    dispatch-Leaves (completion_pending l) = checked-Leaves (completion_pending l)

    pub start-Leaves : Leaves Beginning Beginning (start_install json umask preflight o part)
    unfolding start_install
    start-Leaves = Leaves-ask Beginning Beginning _ _ (λ g p. p) dispatch-Leaves
