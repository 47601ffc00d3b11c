-- ===== src/Lifecycle/Begin.antt =====
-- Runs of the completion of a beginning (completeLifecycleBootstrap of internal/installer/lifecycle.go).
use virtual_private_node.Lifecycle.Interrupt.{pure}
use virtual_private_node.Lifecycle.Stages.{check-On, from_On}
use virtual_private_node.Base.{ℕ, ◌≡◌, refl, sym, true, false, ok}
use virtual_private_node.Ledger.Parse.{Json, WritesFresh}
use virtual_private_node.Lifecycle.{Host, Bootstrap, context_of}
use virtual_private_node.Lifecycle.Objects.{mode_755}
use virtual_private_node.Lifecycle.Interrupt.{Triple, Triple-pure, Triple-ask, touch, ask}
use virtual_private_node.Lifecycle.Interrupt.{◌>>=◌ as ◌then◌}
use virtual_private_node.Lifecycle.Init.{
  vpn_dir, layout_file, layout_staging, boot_file, chmod, remove, exists_at, clear_stage,
}
use virtual_private_node.Lifecycle.Shape.{IsClean}
use virtual_private_node.Lifecycle.Classes.{begun}
use virtual_private_node.Lifecycle.Stages.{Setup, On, on, Recoverable, bind, ask-On}
use virtual_private_node.Lifecycle.Stages.{
  touch-On, vpn_there, private_there, has_vpn, has_private, Ready, AnyTree,
}
use virtual_private_node.Lifecycle.Dirs.{Masks}
use virtual_private_node.Lifecycle.Interrupt.{Triple-cases}
use virtual_private_node.Lifecycle.Init.{ensure_layout}
use virtual_private_node.Lifecycle.Stages.{
  has_ledger, has_layout, has_ledger_stage, has_layout_stage,
}
use virtual_private_node.Lifecycle.Publish.{At}
use virtual_private_node.Ledger.{InstallLedger, fresh_ledger}
use virtual_private_node.Lifecycle.Clear.{Ledgering, Held, Marking, Marked}
use virtual_private_node.Lifecycle.Fill.{setup}
use virtual_private_node.Lifecycle.{boot_mainnet, boot_testnet4, boot_public_signet, bootstraps}
use virtual_private_node.Lifecycle.Init.{bootstrap_for_context}
use virtual_private_node.Lifecycle.{Lifecycle, bootstrap, classify_lifecycle_state}
use virtual_private_node.Lifecycle.Init.{is_bootstrap_of, complete_lifecycle_bootstrap, exists_at}
use virtual_private_node.Lifecycle.Stages.{
  private_there, vpn_there, ledger_stage_there, ledger_there_or_not, layout_stage_there,
  layout_there_or_not, has_vpn, has_private,
}
use virtual_private_node.Lifecycle.Clear.{clear_ledger, clear_layout}
use virtual_private_node.Lifecycle.Dirs.{ensure_vpn, ensure_private}
use virtual_private_node.Lifecycle.Fill.{ensured_ledger}
use virtual_private_node.Lifecycle.Finish.{
  ensured_layout, final_mode, boot_removed, synced, Done, context_boot, last_tree,
}
use virtual_private_node.Lifecycle.Classes.{classify-booted}

module _ (json : Json) (umask : ℕ → ℕ) (masks : Masks umask) (b : Bootstrap)
    (w : WritesFresh json (context_of b)) (h : Host) (clean : IsClean h) where
  abbrev u : Setup
  u = setup json b w h

  abbrev fresh : InstallLedger
  fresh = fresh_ledger (context_of b)

  -- The classification, on every tree that an interruption leaves.
  classified :
      Triple
        (Recoverable u)
        (On u (AnyTree u))
        (ask (classify_lifecycle_state json))
        (λ s. On u (λ t. bootstrap (context_of b) ≡ s))
  classified = Triple-ask (Recoverable u) _ _ _ go
    where
      go :
          (g : Host)
          → On u (AnyTree u) g
          → (s : Lifecycle) × (classify_lifecycle_state json g ≡ ok s)
            × On u (λ t. bootstrap (context_of b) ≡ s) g
      go _ (on t k good e p) = (
        bootstrap (context_of b),
        classify-booted json b w h clean t k good e,
        on t k good e refl,
      )

  own_bootstrap :
      (c : Bootstrap) → is_bootstrap_of (context_of c) (bootstrap (context_of c)) ≡ ok tt
  own_bootstrap boot_mainnet = refl
  own_bootstrap boot_testnet4 = refl
  own_bootstrap boot_public_signet = refl

  -- The ledger that the run returns, and the host then.
  abbrev pub Begun : InstallLedger → Host → Type 0
  Begun l g = (l ≡ fresh) × (g ≡ begun json b w h clean)

  bootstrap_removed :
      (c : Bootstrap)
      → Triple
          (Recoverable u)
          (On u (λ t. At last_tree t × (b ≡ c)))
          (remove (boot_file c))
          (λ v. Done u)
  bootstrap_removed c =
      Triple-cases (Recoverable u) _ (λ (same : b ≡ c). On u (At last_tree)) (λ v. Done u) _ which
        (λ same. rw (sym same) (boot_removed u))
    where
      which : (g : Host) → On u (λ t. At last_tree t × (b ≡ c)) g → (b ≡ c) × On u (At last_tree) g
      which _ (on t k good e p) = (p.1, on t k good e p.0)

  Marked-end :
      Triple
        (Recoverable u)
        (On u Marked)
        (chmod vpn_dir mode_755 then (λ a. touch then (λ d.
          ask (λ g. bootstrap_for_context (context_of b) bootstraps)
          then (λ c. remove (boot_file c) then (λ e. touch then (λ f. pure fresh))))))
        Begun
  Marked-end = bind u (final_mode u) (λ a. bind u (touch-On u (At last_tree)) (λ d.
      bind u (ask-On u (At last_tree) _ (λ t. b) (λ t k p. context_boot b)) (λ c.
        bind u (bootstrap_removed c) (λ e.
          bind u (synced u) (λ f. Triple-pure (Recoverable u) fresh _ Begun (λ g d. (refl, d)))))))

  -- The layout, once the ledger is published.
  marking :
      (part : ℕ)
      → Triple
          (Recoverable u)
          (On u Held)
          (ask (exists_at layout_staging) then (λ a.
            clear_stage json umask layout_staging a then (λ c.
              ask (exists_at layout_file) then (λ d. ensure_layout json umask part d then (λ e.
                chmod vpn_dir mode_755 then (λ a. touch then (λ d.
                  ask (λ g. bootstrap_for_context (context_of b) bootstraps)
                  then (λ c. remove (boot_file c) then (λ e. touch then (λ f. pure fresh))))))))))
          Begun
  marking part = bind u (ask-On u Held _ has_layout_stage (λ t k p. layout_stage_there u t k)) (λ a.
      bind u (from_On u _ (λ t g p. (p.0.0, p.0.1, p.1)) (clear_layout u json umask masks a)) (λ c.
        bind u (ask-On u (Marking false) _ has_layout (λ t k p. layout_there_or_not u t k))
          (λ d. bind u (ensured_layout u umask masks json part d) (λ e. Marked-end))))

  pub completed_bootstrap :
      (part : ℕ)
      → Triple
          (Recoverable u)
          (On u (AnyTree u))
          (complete_lifecycle_bootstrap json umask (context_of b) fresh part)
          Begun
  unfolding complete_lifecycle_bootstrap
  completed_bootstrap part = bind u classified (λ s.
      bind u
        (check-On u (λ t. bootstrap (context_of b) ≡ s) _ (λ t k p. rw (sym p) (own_bootstrap b)))
        (λ a. bind u (ask-On u _ _ has_vpn (λ t k p. vpn_there u t k)) (λ v.
          bind u (from_On u _ (λ t g p. p.1) (ensure_vpn u json umask masks v)) (λ c.
            bind u (ask-On u (λ t. has_vpn t ≡ true) _ has_private (λ t k p. private_there u t k))
              (λ d. bind u (ensure_private u json umask masks d) (λ e.
                bind u (ask-On u Ready _ has_ledger_stage (λ t k p. ledger_stage_there u t k)) (λ f.
                  bind u (clear_ledger u json umask masks f) (λ g.
                    bind u
                      (ask-On u (Ledgering false) _ has_ledger (λ t k p. ledger_there_or_not u t k))
                      (λ i. bind u (ensured_ledger json umask masks b w h part i) (λ l.
                        Triple-cases (Recoverable u) _ (λ (same : l ≡ fresh). On u Held) Begun _
                          (λ g p. p) (λ same. rw same (marking part))))))))))))
