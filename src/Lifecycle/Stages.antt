-- ===== src/Lifecycle/Stages.antt =====
-- What the operations of the beginning do to the trees it goes through
-- (createBootstrapDir, secureBootstrapDir and publishBootstrapPayload of
-- internal/installer/lifecycle.go).
use virtual_private_node.Lifecycle.Interrupt.{pure, Triple-before}
use virtual_private_node.Base.{ℕ, ◌≡◌, refl, Bool, true, false, Result, ok, ◌⊎◌, inl, inr}
use virtual_private_node.Base.Text.{Text}
use virtual_private_node.Lifecycle.{Host, Bootstrap, LifecycleError}
use virtual_private_node.Lifecycle.Objects.{within, mode_755, mode_700, mode_600}
use virtual_private_node.Lifecycle.Interrupt.{
  Run, Triple, Triple-pure, Triple-bind, Triple-act, Triple-ask, Triple-before, atomically, touch,
  ask, same_host,
}
use virtual_private_node.Lifecycle.Interrupt.{◌>>=◌ as ◌then◌}
use virtual_private_node.Lifecycle.Init.{
  vpn_dir, private_place, ledger_file, ledger_staging, layout_file, layout_staging, exists_at,
}
use virtual_private_node.Lifecycle.Shape.{
  empty_tree, Tree, nothing_yet, with_vpn, with_private, ledger_staged, ledger_there, layout_staged,
  layout_there, plant, Good, booted,
}

abbrev pub has_vpn : Tree → Bool
has_vpn nothing_yet = false
has_vpn _ = true

abbrev pub has_private : Tree → Bool
has_private nothing_yet = false
has_private (with_vpn m) = false
has_private _ = true

abbrev pub has_ledger_stage : Tree → Bool
has_ledger_stage (ledger_staged m n k s) = true
has_ledger_stage _ = false

abbrev pub has_ledger : Tree → Bool
has_ledger (ledger_there m n) = true
has_ledger (layout_staged m n k s) = true
has_ledger (layout_there m n) = true
has_ledger _ = false

abbrev pub has_layout_stage : Tree → Bool
has_layout_stage (layout_staged m n k s) = true
has_layout_stage _ = false

abbrev pub has_layout : Tree → Bool
has_layout (layout_there m n) = true
has_layout _ = false

-- The private directory is there with its final mode.
abbrev pub Ready : Tree → Type 0
Ready nothing_yet = ⊥
Ready (with_vpn m) = ⊥
Ready (with_private m n) = n ≡ mode_700
Ready (ledger_staged m n k s) = n ≡ mode_700
Ready (ledger_there m n) = n ≡ mode_700
Ready (layout_staged m n k s) = n ≡ mode_700
Ready (layout_there m n) = n ≡ mode_700

-- An attempt: its bootstrap file, the ledger it publishes, and the host that it started on.
pub record Setup : Type 0 where
  pub boot : Bootstrap
  pub content : Text
  pub base : Host

module _ (u : Setup) where
  abbrev pub disk : ℕ → Tree → Host
  disk k t = booted u.boot k (plant u.content t (empty_tree u.base))

  -- A host with the bootstrap file and a good tree with the property.
  pub data On (P : Tree → Type 0) : Host → Type 0 where
    on : (t : Tree) (k : ℕ) → Good t → within mode_600 k ≡ true → P t → On P (disk k t)

  abbrev pub AnyTree : Tree → Type 0
  AnyTree t = Unit {0}

  -- The hosts that an interruption may leave.
  abbrev pub Recoverable : Host → Type 0
  Recoverable h =
      (h ≡ empty_tree u.base)
      ⊎ (On AnyTree h ⊎ (h ≡ plant u.content (layout_there mode_755 mode_700) (empty_tree u.base)))

  pub On-Recoverable : (P : Tree → Type 0) (h : Host) → On P h → Recoverable h
  On-Recoverable P _ (on t k g e p) = inr (inl (on t k g e tt))

  pub weaken :
      (P Q : Tree → Type 0) → ((t : Tree) → Good t → P t → Q t) → (h : Host) → On P h → On Q h
  weaken P Q f _ (on t k g e p) = on t k g e (f t g p)

  pub bind :
      {A B : Type 0} {P : Host → Type 0} {Q : A → Host → Type 0} {R : B → Host → Type 0}
      {first : Run A} {next : A → Run B}
      → Triple Recoverable P first Q
      → ((a : A) → Triple Recoverable (Q a) (next a) R)
      → Triple Recoverable P (first then next) R
  bind {P = P} {Q = Q} {R = R} {first = first} {next = next} t after =
      Triple-bind Recoverable P Q R first next t after

  -- An atomic operation between good trees.
  pub atomic-On :
      (P : Tree → Type 0) (Q : Unit {0} → Host → Type 0) (effect : Host → Host)
      → ((h : Host) → On P h → Q tt (effect h))
      → Triple Recoverable (On P) (atomically effect) Q
  atomic-On P Q effect f = Triple-act Recoverable (On P) Q same_host effect (On-Recoverable P) f

  pub touch_to :
      (P Q : Tree → Type 0)
      → ((t : Tree) → Good t → P t → Q t)
      → Triple Recoverable (On P) touch (λ v. On Q)
  touch_to P Q f = atomic-On P (λ v. On Q) same_host (weaken P Q f)

  pub touch-On : (P : Tree → Type 0) → Triple Recoverable (On P) touch (λ v. On P)
  touch-On P = touch_to P P (λ t g p. p)

  pub pure-On :
      {A : Type 0} (a : A) (P Q : Tree → Type 0)
      → ((t : Tree) → Good t → P t → Q t)
      → Triple Recoverable (On P) (pure a) (λ v. On Q)
  pure-On a P Q f = Triple-pure Recoverable a (On P) (λ v. On Q) (weaken P Q f)

  pub from_On :
      {A : Type 0} {P' : Tree → Type 0} {Q : A → Host → Type 0} {run : Run A} (P : Tree → Type 0)
      → ((t : Tree) → Good t → P t → P' t)
      → Triple Recoverable (On P') run Q
      → Triple Recoverable (On P) run Q
  from_On {P' = P'} {Q = Q} {run = run} P f t =
      Triple-before Recoverable (On P) (On P') Q run (weaken P P' f) t

  -- A check that the tree passes.
  pub check-On :
      (P : Tree → Type 0) (question : Host → Result LifecycleError (Unit {0}))
      → ((t : Tree) (k : ℕ) → P t → question (disk k t) ≡ ok tt)
      → Triple Recoverable (On P) (ask question) (λ v. On P)
  check-On P question f = Triple-ask Recoverable (On P) (λ v. On P) question go
    where
      go : (h : Host) → On P h → (v : Unit {0}) × (question h ≡ ok v) × On P h
      go _ (on t k g e p) = (tt, f t k p, on t k g e p)

  -- A test of the tree.
  pub ask-On :
      {A : Type 0} (P : Tree → Type 0) (question : Host → Result LifecycleError A)
      (answer : Tree → A)
      → ((t : Tree) (k : ℕ) → P t → question (disk k t) ≡ ok (answer t))
      → Triple Recoverable (On P) (ask question) (λ a. On (λ t. P t × (answer t ≡ a)))
  ask-On P question answer f =
      Triple-ask Recoverable (On P) (λ a. On (λ t. P t × (answer t ≡ a))) question go
    where
      go : (h : Host) → On P h → (a : _) × (question h ≡ ok a) × On (λ t. P t × (answer t ≡ a)) h
      go _ (on t k g e p) = (answer t, f t k p, on t k g e (p, refl))

  pub vpn_there : (t : Tree) (k : ℕ) → exists_at vpn_dir (disk k t) ≡ ok (has_vpn t)
  vpn_there nothing_yet k = refl
  vpn_there (with_vpn m) k = refl
  vpn_there (with_private m n) k = refl
  vpn_there (ledger_staged m n l s) k = refl
  vpn_there (ledger_there m n) k = refl
  vpn_there (layout_staged m n l s) k = refl
  vpn_there (layout_there m n) k = refl

  pub private_there : (t : Tree) (k : ℕ) → exists_at private_place (disk k t) ≡ ok (has_private t)
  private_there nothing_yet k = refl
  private_there (with_vpn m) k = refl
  private_there (with_private m n) k = refl
  private_there (ledger_staged m n l s) k = refl
  private_there (ledger_there m n) k = refl
  private_there (layout_staged m n l s) k = refl
  private_there (layout_there m n) k = refl

  pub ledger_stage_there :
      (t : Tree) (k : ℕ) → exists_at ledger_staging (disk k t) ≡ ok (has_ledger_stage t)
  ledger_stage_there nothing_yet k = refl
  ledger_stage_there (with_vpn m) k = refl
  ledger_stage_there (with_private m n) k = refl
  ledger_stage_there (ledger_staged m n l s) k = refl
  ledger_stage_there (ledger_there m n) k = refl
  ledger_stage_there (layout_staged m n l s) k = refl
  ledger_stage_there (layout_there m n) k = refl

  pub ledger_there_or_not :
      (t : Tree) (k : ℕ) → exists_at ledger_file (disk k t) ≡ ok (has_ledger t)
  ledger_there_or_not nothing_yet k = refl
  ledger_there_or_not (with_vpn m) k = refl
  ledger_there_or_not (with_private m n) k = refl
  ledger_there_or_not (ledger_staged m n l s) k = refl
  ledger_there_or_not (ledger_there m n) k = refl
  ledger_there_or_not (layout_staged m n l s) k = refl
  ledger_there_or_not (layout_there m n) k = refl

  pub layout_stage_there :
      (t : Tree) (k : ℕ) → exists_at layout_staging (disk k t) ≡ ok (has_layout_stage t)
  layout_stage_there nothing_yet k = refl
  layout_stage_there (with_vpn m) k = refl
  layout_stage_there (with_private m n) k = refl
  layout_stage_there (ledger_staged m n l s) k = refl
  layout_stage_there (ledger_there m n) k = refl
  layout_stage_there (layout_staged m n l s) k = refl
  layout_stage_there (layout_there m n) k = refl

  pub layout_there_or_not :
      (t : Tree) (k : ℕ) → exists_at layout_file (disk k t) ≡ ok (has_layout t)
  layout_there_or_not nothing_yet k = refl
  layout_there_or_not (with_vpn m) k = refl
  layout_there_or_not (with_private m n) k = refl
  layout_there_or_not (ledger_staged m n l s) k = refl
  layout_there_or_not (ledger_there m n) k = refl
  layout_there_or_not (layout_staged m n l s) k = refl
  layout_there_or_not (layout_there m n) k = refl
