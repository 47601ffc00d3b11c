-- ===== src/Lifecycle/Dirs.antt =====
-- The two directories of an interrupted beginning (createBootstrapDir, secureBootstrapDir and the first
-- half of completeLifecycleBootstrap of internal/installer/lifecycle.go).
use virtual_private_node.Lifecycle.Stages.{check-On, from_On, touch_to}
use virtual_private_node.Base.{ℕ, ◌≡◌, refl, Bool-cases, Bool, true, false, ok, inl, inr, ◌==◌}
use virtual_private_node.Ledger.Parse.{Json}
use virtual_private_node.Lifecycle.Objects.{
  Node, absent, present, within, validate_root_dir, mode_755, mode_700, mode_600,
}
use virtual_private_node.Lifecycle.Interrupt.{Triple}
use virtual_private_node.Lifecycle.Init.{
  vpn_dir, private_place, look, set, owned_dir, secure_bootstrap_dir, create_bootstrap_dir,
  ensure_dir,
}
use virtual_private_node.Lifecycle.Shape.{
  Tree, nothing_yet, with_vpn, with_private, ledger_staged, ledger_there, layout_staged,
  layout_there, Good, DirMode,
}
use virtual_private_node.Lifecycle.Stages.{Setup, On, on, Recoverable, bind, disk}
use virtual_private_node.Lifecycle.Stages.{touch-On, has_vpn, has_private, Ready}
use virtual_private_node.Lifecycle.Rules.{create-On, chmod-On}

-- What the umask leaves of the two modes asked for is within them.
abbrev pub Masks : (ℕ → ℕ) → Type 0
Masks umask = (within mode_700 (umask mode_700) ≡ true) × (within mode_600 (umask mode_600) ≡ true)

dir_mode : (final m : ℕ) → within mode_700 m ≡ true → DirMode final m
dir_mode final m e = elim (Bool-cases (m == final)) [ inl h ↦ rw h refl | inr h ↦ rw h e ]

vpn_node : Tree → Node
vpn_node nothing_yet = owned_dir 0
vpn_node (with_vpn m) = owned_dir m
vpn_node (with_private m n) = owned_dir m
vpn_node (ledger_staged m n l s) = owned_dir m
vpn_node (ledger_there m n) = owned_dir m
vpn_node (layout_staged m n l s) = owned_dir m
vpn_node (layout_there m n) = owned_dir m

abbrev pub VpnAt : ℕ → Tree → Type 0
VpnAt j nothing_yet = ⊥
VpnAt j (with_vpn m) = m ≡ j
VpnAt j (with_private m n) = m ≡ j
VpnAt j (ledger_staged m n l s) = m ≡ j
VpnAt j (ledger_there m n) = m ≡ j
VpnAt j (layout_staged m n l s) = m ≡ j
VpnAt j (layout_there m n) = m ≡ j

private_node : Tree → Node
private_node nothing_yet = owned_dir 0
private_node (with_vpn m) = owned_dir 0
private_node (with_private m n) = owned_dir n
private_node (ledger_staged m n l s) = owned_dir n
private_node (ledger_there m n) = owned_dir n
private_node (layout_staged m n l s) = owned_dir n
private_node (layout_there m n) = owned_dir n

module _ (u : Setup) where
  look_vpn :
      (t : Tree) (k : ℕ) → has_vpn t ≡ true → look vpn_dir (disk u k t) ≡ present (vpn_node t)
  unfolding vpn_node
  look_vpn nothing_yet k e = absurd cc
  look_vpn (with_vpn m) k e = refl
  look_vpn (with_private m n) k e = refl
  look_vpn (ledger_staged m n l s) k e = refl
  look_vpn (ledger_there m n) k e = refl
  look_vpn (layout_staged m n l s) k e = refl
  look_vpn (layout_there m n) k e = refl

  set_vpn :
      (j : ℕ)
      → DirMode mode_755 j
      → (t : Tree) (k : ℕ) → Good t
      → within mode_600 k ≡ true
      → has_vpn t ≡ true
      → On u (VpnAt j) (set vpn_dir (present (record (vpn_node t) { mode = j })) (disk u k t))
  unfolding vpn_node
  set_vpn j d nothing_yet k g e p = absurd cc
  set_vpn j d (with_vpn m) k g e p = on (with_vpn j) k d e refl
  set_vpn j d (with_private m n) k g e p = on (with_private j n) k (d, g.1) e refl
  set_vpn j d (ledger_staged m n l s) k g e p = on (ledger_staged j n l s) k (d, g.1, g.2) e refl
  set_vpn j d (ledger_there m n) k g e p = on (ledger_there j n) k (d, g.1) e refl
  set_vpn j d (layout_staged m n l s) k g e p = on (layout_staged j n l s) k (d, g.1, g.2) e refl
  set_vpn j d (layout_there m n) k g e p = on (layout_there j n) k (d, g.1) e refl

  vpn_valid :
      (t : Tree) (k : ℕ)
      → VpnAt mode_700 t
      → validate_root_dir mode_700 (look vpn_dir (disk u k t)) ≡ ok tt
  unfolding validate_root_dir
  vpn_valid nothing_yet k p = elim p [ ]
  vpn_valid (with_vpn m) k p = rw p refl
  vpn_valid (with_private m n) k p = rw p refl
  vpn_valid (ledger_staged m n l s) k p = rw p refl
  vpn_valid (ledger_there m n) k p = rw p refl
  vpn_valid (layout_staged m n l s) k p = rw p refl
  vpn_valid (layout_there m n) k p = rw p refl

  VpnAt-has_vpn : (j : ℕ) (t : Tree) → VpnAt j t → has_vpn t ≡ true
  VpnAt-has_vpn j nothing_yet p = elim p [ ]
  VpnAt-has_vpn j (with_vpn m) p = refl
  VpnAt-has_vpn j (with_private m n) p = refl
  VpnAt-has_vpn j (ledger_staged m n l s) p = refl
  VpnAt-has_vpn j (ledger_there m n) p = refl
  VpnAt-has_vpn j (layout_staged m n l s) p = refl
  VpnAt-has_vpn j (layout_there m n) p = refl

  secure_700 : DirMode mode_755 mode_700
  unfolding within
  secure_700 = refl

  secure_vpn :
      Triple
        (Recoverable u)
        (On u (λ t. has_vpn t ≡ true))
        (secure_bootstrap_dir vpn_dir)
        (λ v. On u (λ t. has_vpn t ≡ true))
  unfolding secure_bootstrap_dir
  secure_vpn =
      bind u
        (chmod-On u (λ t. has_vpn t ≡ true) (λ v. On u (VpnAt mode_700)) vpn_dir vpn_node look_vpn
          mode_700 (set_vpn mode_700 secure_700))
        (λ a. bind u (check-On u (VpnAt mode_700) _ (λ t k p. rw (vpn_valid t k p) refl)) (λ c.
          touch_to u (VpnAt mode_700) (λ t. has_vpn t ≡ true)
            (λ t g p. VpnAt-has_vpn mode_700 t p)))

  look_private :
      (t : Tree) (k : ℕ)
      → has_private t ≡ true
      → look private_place (disk u k t) ≡ present (private_node t)
  unfolding private_node
  look_private nothing_yet k e = absurd cc
  look_private (with_vpn m) k e = absurd cc
  look_private (with_private m n) k e = refl
  look_private (ledger_staged m n l s) k e = refl
  look_private (ledger_there m n) k e = refl
  look_private (layout_staged m n l s) k e = refl
  look_private (layout_there m n) k e = refl

  -- Every mode of the private directory becomes its final one.
  set_private :
      (t : Tree) (k : ℕ)
      → Good t
      → within mode_600 k ≡ true
      → has_private t ≡ true
      → On u Ready
          (set private_place (present (record (private_node t) { mode = mode_700 })) (disk u k t))
  unfolding private_node
  set_private nothing_yet k g e p = absurd cc
  set_private (with_vpn m) k g e p = absurd cc
  set_private (with_private m n) k g e p = on (with_private m mode_700) k (g.0, refl) e refl
  set_private (ledger_staged m n l s) k g e p =
      on (ledger_staged m mode_700 l s) k (g.0, refl, g.2) e refl
  set_private (ledger_there m n) k g e p = on (ledger_there m mode_700) k (g.0, refl) e refl
  set_private (layout_staged m n l s) k g e p =
      on (layout_staged m mode_700 l s) k (g.0, refl, g.2) e refl
  set_private (layout_there m n) k g e p = on (layout_there m mode_700) k (g.0, refl) e refl

  private_ok :
      (t : Tree) (k : ℕ)
      → Ready t
      → validate_root_dir mode_700 (look private_place (disk u k t)) ≡ ok tt
  unfolding validate_root_dir
  private_ok nothing_yet k p = elim p [ ]
  private_ok (with_vpn m) k p = elim p [ ]
  private_ok (with_private m n) k p = rw p refl
  private_ok (ledger_staged m n l s) k p = rw p refl
  private_ok (ledger_there m n) k p = rw p refl
  private_ok (layout_staged m n l s) k p = rw p refl
  private_ok (layout_there m n) k p = rw p refl

  secure_private :
      Triple
        (Recoverable u)
        (On u (λ t. has_private t ≡ true))
        (secure_bootstrap_dir private_place)
        (λ v. On u Ready)
  unfolding secure_bootstrap_dir
  secure_private =
      bind u
        (chmod-On u (λ t. has_private t ≡ true) (λ v. On u Ready) private_place private_node
          look_private mode_700 set_private)
        (λ a.
          bind u (check-On u Ready _ (λ t k p. rw (private_ok t k p) refl)) (λ c. touch-On u Ready))

  -- A missing directory is made, and one that is there gets its mode.
  module _ (json : Json) (umask : ℕ → ℕ) (masks : Masks umask) where
    make_vpn :
        (t : Tree) (k : ℕ)
        → Good t
        → within mode_600 k ≡ true
        → has_vpn t ≡ false
        → On u
            (λ t. has_vpn t ≡ true)
            (set vpn_dir (present (owned_dir (umask mode_700))) (disk u k t))
    make_vpn nothing_yet k g e p =
        on (with_vpn (umask mode_700)) k (dir_mode mode_755 (umask mode_700) masks.0) e refl
    make_vpn (with_vpn m) k g e p = absurd cc
    make_vpn (with_private m n) k g e p = absurd cc
    make_vpn (ledger_staged m n l s) k g e p = absurd cc
    make_vpn (ledger_there m n) k g e p = absurd cc
    make_vpn (layout_staged m n l s) k g e p = absurd cc
    make_vpn (layout_there m n) k g e p = absurd cc

    no_vpn : (t : Tree) (k : ℕ) → has_vpn t ≡ false → look vpn_dir (disk u k t) ≡ absent
    no_vpn nothing_yet k p = refl
    no_vpn (with_vpn m) k p = absurd cc
    no_vpn (with_private m n) k p = absurd cc
    no_vpn (ledger_staged m n l s) k p = absurd cc
    no_vpn (ledger_there m n) k p = absurd cc
    no_vpn (layout_staged m n l s) k p = absurd cc
    no_vpn (layout_there m n) k p = absurd cc

    create_vpn :
        Triple
          (Recoverable u)
          (On u (λ t. has_vpn t ≡ false))
          (create_bootstrap_dir json umask vpn_dir)
          (λ v. On u (λ t. has_vpn t ≡ true))
    unfolding create_bootstrap_dir
    create_vpn =
        bind u
          (create-On u (λ t. has_vpn t ≡ false) (λ v. On u (λ t. has_vpn t ≡ true)) vpn_dir
            (owned_dir (umask mode_700)) no_vpn make_vpn)
          (λ a. bind u secure_vpn (λ c. touch-On u (λ t. has_vpn t ≡ true)))

    pub ensure_vpn :
        (here : Bool)
        → Triple
            (Recoverable u)
            (On u (λ t. has_vpn t ≡ here))
            (ensure_dir json umask vpn_dir here)
            (λ v. On u (λ t. has_vpn t ≡ true))
    unfolding ensure_dir
    ensure_vpn false = create_vpn
    ensure_vpn true = secure_vpn

    OnlyVpn : Tree → Type 0
    OnlyVpn t = (has_vpn t ≡ true) × (has_private t ≡ false)

    make_private :
        (t : Tree) (k : ℕ)
        → Good t
        → within mode_600 k ≡ true
        → OnlyVpn t
        → On u
            (λ t. has_private t ≡ true)
            (set private_place (present (owned_dir (umask mode_700))) (disk u k t))
    unfolding OnlyVpn
    make_private nothing_yet k g e p = absurd cc
    make_private (with_vpn m) k g e p =
        on (with_private m (umask mode_700)) k (g, dir_mode mode_700 (umask mode_700) masks.0) e
          refl
    make_private (with_private m n) k g e p = absurd cc
    make_private (ledger_staged m n l s) k g e p = absurd cc
    make_private (ledger_there m n) k g e p = absurd cc
    make_private (layout_staged m n l s) k g e p = absurd cc
    make_private (layout_there m n) k g e p = absurd cc

    no_private : (t : Tree) (k : ℕ) → OnlyVpn t → look private_place (disk u k t) ≡ absent
    unfolding OnlyVpn
    no_private nothing_yet k p = absurd cc
    no_private (with_vpn m) k p = refl
    no_private (with_private m n) k p = absurd cc
    no_private (ledger_staged m n l s) k p = absurd cc
    no_private (ledger_there m n) k p = absurd cc
    no_private (layout_staged m n l s) k p = absurd cc
    no_private (layout_there m n) k p = absurd cc

    create_private :
        Triple
          (Recoverable u)
          (On u OnlyVpn)
          (create_bootstrap_dir json umask private_place)
          (λ v. On u Ready)
    unfolding create_bootstrap_dir
    create_private =
        bind u
          (create-On u OnlyVpn (λ v. On u (λ t. has_private t ≡ true)) private_place
            (owned_dir (umask mode_700)) no_private make_private)
          (λ a. bind u secure_private (λ c. touch-On u Ready))

    pub ensure_private :
        (here : Bool)
        → Triple
            (Recoverable u)
            (On u (λ t. (has_vpn t ≡ true) × (has_private t ≡ here)))
            (ensure_dir json umask private_place here)
            (λ v. On u Ready)
    unfolding ensure_dir OnlyVpn
    ensure_private false = create_private
    ensure_private true = from_On u _ (λ t g p. p.1) secure_private
