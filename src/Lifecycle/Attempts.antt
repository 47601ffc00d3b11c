-- ===== src/Lifecycle/Attempts.antt =====
-- Runs of the initialization and of its resumption (initializeLifecycle and resumeLifecycleBootstrap of
-- internal/installer/lifecycle.go).
use virtual_private_node.Lifecycle.Publish.{stage_600}
use virtual_private_node.Lifecycle.Stages.{On-Recoverable}
use virtual_private_node.Lifecycle.Stages.{touch_to}
use virtual_private_node.Base.{ℕ, ◌≡◌, refl, ok, inl}
use virtual_private_node.Ledger.Parse.{Json, WritesFresh}
use virtual_private_node.Lifecycle.{Host, Bootstrap, context_of, checked}
use virtual_private_node.Lifecycle.Objects.{Node, absent, present, node_at, mode_600}
use virtual_private_node.Lifecycle.Interrupt.{Triple, Triple-act, Triple-ask, same_host}
use virtual_private_node.Lifecycle.Init.{boot_file, look, set, create, chmod, owned}
use virtual_private_node.Lifecycle.Shape.{empty_tree, IsClean, nothing_yet, plant, booted}
use virtual_private_node.Lifecycle.Valid.{bytes}
use virtual_private_node.Lifecycle.Stages.{Setup, On, on, Recoverable, bind}
use virtual_private_node.Lifecycle.Stages.{touch-On, AnyTree}
use virtual_private_node.Lifecycle.Dirs.{Masks}
use virtual_private_node.Lifecycle.Interrupt.{Triple-cases}
use virtual_private_node.Lifecycle.Publish.{At}
use virtual_private_node.Ledger.{InstallLedger, fresh_ledger}
use virtual_private_node.Lifecycle.Fill.{setup}
use virtual_private_node.Lifecycle.{boot_mainnet, boot_testnet4, boot_public_signet}
use virtual_private_node.Lifecycle.Init.{
  initialize_lifecycle, resume_lifecycle_bootstrap, fresh_or_error,
}
use virtual_private_node.Lifecycle.Finish.{context_boot, boot_there}
use virtual_private_node.Ledger.{new_ledger}
use virtual_private_node.Lifecycle.Valid.{fresh_valid_at}
use virtual_private_node.Lifecycle.Begin.{completed_bootstrap, Begun}

fresh_made :
    (b : Bootstrap) → fresh_or_error (new_ledger (context_of b)) ≡ ok (fresh_ledger (context_of b))
unfolding new_ledger
fresh_made b = rw (new_ledger, fresh_valid_at b) refl

module _ (json : Json) (umask : ℕ → ℕ) (masks : Masks umask) (b : Bootstrap)
    (w : WritesFresh json (context_of b)) (h : Host) (clean : IsClean h) where
  abbrev u : Setup
  u = setup json b w h

  abbrev fresh : InstallLedger
  fresh = fresh_ledger (context_of b)

  pub resumed :
      (part : ℕ)
      → Triple
          (Recoverable u)
          (On u (AnyTree u))
          (resume_lifecycle_bootstrap json umask (context_of b) part)
          (Begun json umask masks b w h clean)
  unfolding resume_lifecycle_bootstrap
  resumed part =
      bind u
        (Triple-ask (Recoverable u) _ (λ l g. (l ≡ fresh) × On u (AnyTree u) g) _
          (λ g p. (fresh, fresh_made b, (refl, p))))
        (λ l.
          Triple-cases (Recoverable u) _ (λ (same : l ≡ fresh). On u (AnyTree u)) _ _ (λ g p. p)
            (λ same. rw same (completed_bootstrap json umask masks b w h clean part)))

  Empty : Host → Type 0
  Empty g = g ≡ empty_tree h

  boot_first :
      (c : Bootstrap) (k : ℕ)
      → set (boot_file c) (present (owned k)) (empty_tree h) ≡ booted c k (empty_tree h)
  boot_first boot_mainnet k = refl
  boot_first boot_testnet4 k = refl
  boot_first boot_public_signet k = refl

  boot_absent : (c : Bootstrap) → look (boot_file c) (empty_tree h) ≡ absent
  boot_absent boot_mainnet = refl
  boot_absent boot_testnet4 = refl
  boot_absent boot_public_signet = refl

  boot_again :
      (c : Bootstrap) (k k' : ℕ) (g : Host)
      → set (boot_file c) (present (owned k')) (booted c k g) ≡ booted c k' g
  boot_again boot_mainnet k k' g = refl
  boot_again boot_testnet4 k k' g = refl
  boot_again boot_public_signet k k' g = refl

  -- The bootstrap file is made with what the umask leaves of its mode.
  boot_created :
      Triple
        (Recoverable u)
        Empty
        (create (boot_file b) (owned (umask mode_600)))
        (λ v. On u (At nothing_yet))
  unfolding Empty
  boot_created =
      bind u
        (Triple-ask (Recoverable u) Empty (λ v. Empty) _
          (λ g e. (tt, rw (e, boot_absent b) refl, e)))
        (λ a.
          Triple-act (Recoverable u) Empty (λ v. On u (At nothing_yet)) same_host
            (set (boot_file b) (present (owned (umask mode_600)))) (λ g e. inl e)
            (λ g e.
              rw (e, boot_first b (umask mode_600))
                (on nothing_yet (umask mode_600) tt masks.1 refl)))

  boot_node :
      (g : Host)
      → On u (At nothing_yet) g
      → (n : Node) × (checked (node_at (look (boot_file b) g)) ≡ ok n)
        × ((k : ℕ) × (n ≡ owned k) × On u (At nothing_yet) g)
  boot_node _ (on t k good e p) =
      let here = boot_there b k (plant (bytes json b w) t (empty_tree h)) in
      (owned k, rw here refl, (k, refl, on t k good e p))

  boot_secured :
      (n : Node) (g : Host)
      → (k : ℕ) × (n ≡ owned k) × On u (At nothing_yet) g
      → On u (At nothing_yet) (set (boot_file b) (present (record n { mode = mode_600 })) g)
  boot_secured n _ (j, same, on t k good e p) =
      rw (same, p, boot_again b k mode_600 (empty_tree h))
        (on nothing_yet mode_600 tt stage_600 refl)

  boot_mode :
      Triple
        (Recoverable u)
        (On u (At nothing_yet))
        (chmod (boot_file b) mode_600)
        (λ v. On u (At nothing_yet))
  boot_mode =
      bind u
        (Triple-ask (Recoverable u) _ (λ n g. (k : ℕ) × (n ≡ owned k) × On u (At nothing_yet) g) _
          boot_node)
        (λ n.
          Triple-act (Recoverable u) _ (λ v. On u (At nothing_yet)) same_host _
            (λ g (k, same, p). On-Recoverable u (At nothing_yet) g p) (boot_secured n))

  pub initialized :
      (part : ℕ)
      → Triple
          (Recoverable u)
          (λ g. g ≡ empty_tree h)
          (initialize_lifecycle json umask (context_of b) part)
          (Begun json umask masks b w h clean)
  unfolding initialize_lifecycle Empty
  initialized part =
      bind u
        (Triple-ask (Recoverable u) _ (λ l g. (l ≡ fresh) × Empty g) _
          (λ g p. (fresh, fresh_made b, (refl, p))))
        (λ l.
          Triple-cases (Recoverable u) _ (λ (same : l ≡ fresh). Empty) _ _ (λ g p. p)
            (λ same. rw same (
              bind u
                (Triple-ask (Recoverable u) Empty (λ c g. (c ≡ b) × Empty g) _
                  (λ g p. (b, context_boot b, (refl, p))))
                (λ c.
                  Triple-cases (Recoverable u) _ (λ (same : c ≡ b). Empty) _ _ (λ g p. p)
                    (λ same. rw same (
                      bind u boot_created (λ a. bind u boot_mode (λ d.
                        bind u (touch-On u (At nothing_yet)) (λ e.
                          bind u (touch-On u (At nothing_yet)) (λ f.
                            bind u (touch_to u (At nothing_yet) (AnyTree u) (λ t g p. tt))
                              (λ i. completed_bootstrap json umask masks b w h clean part)))))))))))
