-- ===== src/Lifecycle/Finish.antt =====
-- The layout marker, and the end of the beginning: the final mode of the project's directory, and the
-- bootstrap file removed (completeLifecycleBootstrap of internal/installer/lifecycle.go).
use virtual_private_node.Lifecycle.Interrupt.{Triple-after}
use virtual_private_node.Base.{ℕ, ◌≡◌, refl, ap, Bool, true, false, ok, inr, arith, length}
use virtual_private_node.Ledger.Parse.{Json}
use virtual_private_node.Lifecycle.{Host, Bootstrap, context_of, checked, layout_version_content}
use virtual_private_node.Lifecycle.Objects.{
  Node, absent, present, within, node_at, mode_755, mode_700, mode_600,
}
use virtual_private_node.Lifecycle.Interrupt.{Triple, Triple-act, Triple-ask, touch, same_host}
use virtual_private_node.Lifecycle.Init.{
  vpn_dir, layout_file, layout_staging, boot_file, look, set, chmod, remove, owned, owned_dir,
  publish_bootstrap_payload,
}
use virtual_private_node.Lifecycle.Shape.{
  empty_tree, Tree, nothing_yet, with_vpn, with_private, ledger_staged, ledger_there, layout_staged,
  layout_there, plant, Good, DirMode, booted,
}
use virtual_private_node.Lifecycle.Stages.{Setup, On, on, Recoverable, bind, atomic-On, disk}
use virtual_private_node.Lifecycle.Stages.{weaken}
use virtual_private_node.Lifecycle.Rules.{chmod-On}
use virtual_private_node.Lifecycle.Dirs.{Masks}
use virtual_private_node.Lifecycle.Interrupt.{Triple-cases}
use virtual_private_node.Lifecycle.Init.{ensure_layout}
use virtual_private_node.Lifecycle.Stages.{has_layout, pure-On}
use virtual_private_node.Lifecycle.Publish.{At, publish-On}
use virtual_private_node.Lifecycle.Clear.{layout_staging_of, Marking, Marked}
use virtual_private_node.Lifecycle.{boot_mainnet, boot_testnet4, boot_public_signet, bootstraps}
use virtual_private_node.Lifecycle.Init.{bootstrap_for_context}

module _ (u : Setup) (umask : ℕ → ℕ) (masks : Masks umask) (json : Json) where
  At-ledger :
      (g : Host)
      → On u (λ t. Marking false t × (has_layout t ≡ false)) g
      → (i : (m : ℕ) × DirMode mode_755 m) × On u (At (ledger_there i.0 mode_700)) g
  At-ledger _ (on nothing_yet k g e p) = absurd p.0.0
  At-ledger _ (on (with_vpn m) k g e p) = absurd p.0.0
  At-ledger _ (on (with_private m n) k g e p) = absurd cc
  At-ledger _ (on (ledger_staged m n l s) k g e p) = absurd cc
  At-ledger _ (on (ledger_there m n) k g e p) =
      ((m, g.0), on (ledger_there m n) k g e (ap (ledger_there m) p.0.0))
  At-ledger _ (on (layout_staged m n l s) k g e p) = absurd cc
  At-ledger _ (on (layout_there m n) k g e p) = absurd cc

  publish_layout :
      (part : ℕ) (i : (m : ℕ) × DirMode mode_755 m)
      → Triple
          (Recoverable u)
          (On u (At (ledger_there i.0 mode_700)))
          (publish_bootstrap_payload json umask layout_staging layout_file layout_version_content
            part)
          (λ v. On u Marked)
  publish_layout part i =
      Triple-after (Recoverable u) _ (λ v. On u (At (layout_there i.0 mode_700))) (λ v. On u Marked)
        _ (λ v. weaken u (At (layout_there i.0 mode_700)) Marked (λ t g p. rw p (refl, refl)))
        (publish-On u umask masks json layout_staging layout_file (length layout_version_content)
          layout_version_content (omega arith) (layout_staging_of u i.0) (i.1, refl) part)

  pub ensured_layout :
      (part : ℕ) (here : Bool)
      → Triple
          (Recoverable u)
          (On u (λ t. Marking false t × (has_layout t ≡ here)))
          (ensure_layout json umask part here)
          (λ v. On u Marked)
  unfolding ensure_layout
  ensured_layout part true = pure-On u tt _ Marked (λ t g p. (p.0.0, p.1))
  ensured_layout part false =
      Triple-cases (Recoverable u) _ (λ i. On u (At (ledger_there i.0 mode_700))) (λ v. On u Marked)
        _ At-ledger (publish_layout part)

-- The tree of an install that has begun.
abbrev pub last_tree : Tree
last_tree = layout_there mode_755 mode_700

pub boot_there :
    (c : Bootstrap) (k : ℕ) (g : Host) → look (boot_file c) (booted c k g) ≡ present (owned k)
boot_there boot_mainnet k g = refl
boot_there boot_testnet4 k g = refl
boot_there boot_public_signet k g = refl

pub context_boot : (c : Bootstrap) → bootstrap_for_context (context_of c) bootstraps ≡ ok c
unfolding bootstrap_for_context
context_boot boot_mainnet = refl
context_boot boot_testnet4 = refl
context_boot boot_public_signet = refl

module _ (u : Setup) where
  -- The directory gets its final mode.
  layout_node : Tree → Node
  layout_node (layout_there m n) = owned_dir m
  layout_node _ = owned_dir 0

  look_done : (t : Tree) (k : ℕ) → Marked t → look vpn_dir (disk u k t) ≡ present (layout_node t)
  unfolding layout_node
  look_done nothing_yet k p = absurd cc
  look_done (with_vpn m) k p = absurd cc
  look_done (with_private m n) k p = absurd cc
  look_done (ledger_staged m n l s) k p = absurd cc
  look_done (ledger_there m n) k p = absurd cc
  look_done (layout_staged m n l s) k p = absurd cc
  look_done (layout_there m n) k p = refl

  last_mode :
      (t : Tree) (k : ℕ)
      → Good t
      → within mode_600 k ≡ true
      → Marked t
      → On u
          (At last_tree)
          (set vpn_dir (present (record (layout_node t) { mode = mode_755 })) (disk u k t))
  unfolding layout_node within
  last_mode nothing_yet k g e p = absurd cc
  last_mode (with_vpn m) k g e p = absurd cc
  last_mode (with_private m n) k g e p = absurd cc
  last_mode (ledger_staged m n l s) k g e p = absurd cc
  last_mode (ledger_there m n) k g e p = absurd cc
  last_mode (layout_staged m n l s) k g e p = absurd cc
  last_mode (layout_there m n) k g e p =
      on (layout_there mode_755 n) k (refl, g.1) e (ap (layout_there mode_755) p.0)

  pub final_mode :
      Triple (Recoverable u) (On u Marked) (chmod vpn_dir mode_755) (λ v. On u (At last_tree))
  final_mode =
      chmod-On u Marked (λ v. On u (At last_tree)) vpn_dir layout_node look_done mode_755 last_mode

  -- What is left is the bootstrap file.
  abbrev pub Done : Host → Type 0
  Done g = g ≡ plant u.content last_tree (empty_tree u.base)

  boot_gone :
      (c : Bootstrap) (k : ℕ)
      → set (boot_file c) absent (booted c k (plant u.content last_tree (empty_tree u.base)))
        ≡ plant u.content last_tree (empty_tree u.base)
  boot_gone boot_mainnet k = refl
  boot_gone boot_testnet4 k = refl
  boot_gone boot_public_signet k = refl

  gone-On : (g : Host) → On u (At last_tree) g → Done (set (boot_file u.boot) absent g)
  gone-On _ (on t k g e p) = rw p (boot_gone u.boot k)

  found-On :
      (g : Host)
      → On u (At last_tree) g
      → (n : Node) × (checked (node_at (look (boot_file u.boot) g)) ≡ ok n) × On u (At last_tree) g
  found-On _ (on t k g e p) =
      (owned k, rw (boot_there u.boot k (plant u.content t (empty_tree u.base))) refl, on t k g e p)

  pub boot_removed :
      Triple (Recoverable u) (On u (At last_tree)) (remove (boot_file u.boot)) (λ v. Done)
  boot_removed =
      bind u (Triple-ask (Recoverable u) _ (λ n. On u (At last_tree)) _ found-On)
        (λ n. atomic-On u (At last_tree) (λ v. Done) (set (boot_file u.boot) absent) gone-On)

  pub synced : Triple (Recoverable u) Done touch (λ v. Done)
  synced =
      Triple-act (Recoverable u) Done (λ v. Done) same_host same_host (λ g d. inr (inr d))
        (λ g d. d)
