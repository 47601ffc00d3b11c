-- ===== src/Lifecycle/Clear.antt =====
-- The ledger and the layout marker of an interrupted beginning (the second half of
-- completeLifecycleBootstrap of internal/installer/lifecycle.go).
use virtual_private_node.Base.{ℕ, ◌≡◌, refl, Bool, true, false, length}
use virtual_private_node.Ledger.Parse.{Json}
use virtual_private_node.Lifecycle.{layout_version_content}
use virtual_private_node.Lifecycle.Objects.{
  Node, absent, present, within, mode_700, mode_600, max_state_file_bytes,
}
use virtual_private_node.Lifecycle.Interrupt.{Triple}
use virtual_private_node.Lifecycle.Init.{
  ledger_file, ledger_staging, layout_file, layout_staging, look, set, owned, clear_stage,
}
use virtual_private_node.Lifecycle.Shape.{
  Tree, nothing_yet, with_vpn, with_private, ledger_staged, ledger_there, layout_staged,
  layout_there, Good,
}
use virtual_private_node.Lifecycle.Stages.{Setup, On, on, Recoverable, bind, disk}
use virtual_private_node.Lifecycle.Stages.{touch-On, Ready}
use virtual_private_node.Lifecycle.Rules.{remove-On}
use virtual_private_node.Lifecycle.Dirs.{Masks}
use virtual_private_node.Lifecycle.Stages.{
  has_ledger, has_layout, has_ledger_stage, has_layout_stage, pure-On,
}
use virtual_private_node.Lifecycle.Publish.{Staging}

abbrev pub ledger_staging_of :
    (u : Setup) (m : ℕ) → Staging u ledger_staging ledger_file max_state_file_bytes u.content
ledger_staging_of u m = record {
  before = with_private m mode_700;
  staged = ledger_staged m mode_700;
  after = ledger_there m mode_700;
  gone = λ k. refl;
  made = λ k j. refl;
  there = λ k j c. refl;
  changed = λ k j j' c c'. refl;
  moved = λ k. refl;
  good_staged = λ j c g f. (g.0, g.1, f);
  good_after = λ g. g;
}

abbrev pub layout_staging_of :
    (u : Setup) (m : ℕ)
    → Staging u layout_staging layout_file (length layout_version_content) layout_version_content
layout_staging_of u m = record {
  before = ledger_there m mode_700;
  staged = layout_staged m mode_700;
  after = layout_there m mode_700;
  gone = λ k. refl;
  made = λ k j. refl;
  there = λ k j c. refl;
  changed = λ k j j' c c'. refl;
  moved = λ k. refl;
  good_staged = λ j c g f. (g.0, g.1, f);
  good_after = λ g. g;
}

-- The private directory is ready, and whether the ledger is staged.
abbrev pub Ledgering : Bool → Tree → Type 0
Ledgering a t = Ready t × (has_ledger_stage t ≡ a)

-- The ledger is published.
abbrev pub Held : Tree → Type 0
Held t = Ready t × (has_ledger t ≡ true)

abbrev pub Marking : Bool → Tree → Type 0
Marking a t = Ready t × (has_ledger t ≡ true) × (has_layout_stage t ≡ a)

-- The layout is marked.
abbrev pub Marked : Tree → Type 0
Marked t = Ready t × (has_layout t ≡ true)

module _ (u : Setup) (json : Json) (umask : ℕ → ℕ) (masks : Masks umask) where
  ledger_stage_node : Tree → Node
  ledger_stage_node (ledger_staged m n l s) = record (owned l) { content = s }
  ledger_stage_node _ = owned 0

  look_ledger_stage :
      (t : Tree) (k : ℕ)
      → Ledgering true t
      → look ledger_staging (disk u k t) ≡ present (ledger_stage_node t)
  unfolding ledger_stage_node
  look_ledger_stage nothing_yet k p = absurd cc
  look_ledger_stage (with_vpn m) k p = absurd cc
  look_ledger_stage (with_private m n) k p = absurd cc
  look_ledger_stage (ledger_staged m n l s) k p = refl
  look_ledger_stage (ledger_there m n) k p = absurd cc
  look_ledger_stage (layout_staged m n l s) k p = absurd cc
  look_ledger_stage (layout_there m n) k p = absurd cc

  drop_ledger_stage :
      (t : Tree) (k : ℕ)
      → Good t
      → within mode_600 k ≡ true
      → Ledgering true t
      → On u (Ledgering false) (set ledger_staging absent (disk u k t))
  drop_ledger_stage nothing_yet k g e p = absurd cc
  drop_ledger_stage (with_vpn m) k g e p = absurd cc
  drop_ledger_stage (with_private m n) k g e p = absurd cc
  drop_ledger_stage (ledger_staged m n l s) k g e p =
      on (with_private m n) k (g.0, g.1) e (p.0, refl)
  drop_ledger_stage (ledger_there m n) k g e p = absurd cc
  drop_ledger_stage (layout_staged m n l s) k g e p = absurd cc
  drop_ledger_stage (layout_there m n) k g e p = absurd cc

  pub clear_ledger :
      (here : Bool)
      → Triple
          (Recoverable u)
          (On u (Ledgering here))
          (clear_stage json umask ledger_staging here)
          (λ v. On u (Ledgering false))
  unfolding clear_stage
  clear_ledger false = pure-On u tt (Ledgering false) (Ledgering false) (λ t g p. p)
  clear_ledger true =
      bind u
        (remove-On u (Ledgering true) (λ v. On u (Ledgering false)) ledger_staging ledger_stage_node
          look_ledger_stage drop_ledger_stage)
        (λ a. touch-On u (Ledgering false))

  layout_stage_node : Tree → Node
  layout_stage_node (layout_staged m n l s) = record (owned l) { content = s }
  layout_stage_node _ = owned 0

  look_layout_stage :
      (t : Tree) (k : ℕ)
      → Marking true t
      → look layout_staging (disk u k t) ≡ present (layout_stage_node t)
  unfolding layout_stage_node
  look_layout_stage nothing_yet k p = absurd cc
  look_layout_stage (with_vpn m) k p = absurd cc
  look_layout_stage (with_private m n) k p = absurd cc
  look_layout_stage (ledger_staged m n l s) k p = absurd cc
  look_layout_stage (ledger_there m n) k p = absurd cc
  look_layout_stage (layout_staged m n l s) k p = refl
  look_layout_stage (layout_there m n) k p = absurd cc

  drop_layout_stage :
      (t : Tree) (k : ℕ)
      → Good t
      → within mode_600 k ≡ true
      → Marking true t
      → On u (Marking false) (set layout_staging absent (disk u k t))
  drop_layout_stage nothing_yet k g e p = absurd cc
  drop_layout_stage (with_vpn m) k g e p = absurd cc
  drop_layout_stage (with_private m n) k g e p = absurd cc
  drop_layout_stage (ledger_staged m n l s) k g e p = absurd cc
  drop_layout_stage (ledger_there m n) k g e p = absurd cc
  drop_layout_stage (layout_staged m n l s) k g e p =
      on (ledger_there m n) k (g.0, g.1) e (p.0, refl, refl)
  drop_layout_stage (layout_there m n) k g e p = absurd cc

  pub clear_layout :
      (here : Bool)
      → Triple
          (Recoverable u)
          (On u (Marking here))
          (clear_stage json umask layout_staging here)
          (λ v. On u (Marking false))
  unfolding clear_stage
  clear_layout false = pure-On u tt (Marking false) (Marking false) (λ t g p. p)
  clear_layout true =
      bind u
        (remove-On u (Marking true) (λ v. On u (Marking false)) layout_staging layout_stage_node
          look_layout_stage drop_layout_stage)
        (λ a. touch-On u (Marking false))
