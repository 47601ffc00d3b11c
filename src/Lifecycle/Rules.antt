-- ===== src/Lifecycle/Rules.antt =====
-- Rules for the operations on the trees of an interrupted beginning
-- (internal/installer/lifecycle.go).
use virtual_private_node.Base.{ℕ, ◌≡◌, refl, sym, true, take}
use virtual_private_node.Base.Text.{Text}
use virtual_private_node.Lifecycle.{Host, checked}
use virtual_private_node.Lifecycle.Objects.{Node, absent, present, within, node_at, mode_600}
use virtual_private_node.Lifecycle.Interrupt.{Triple, Triple-act, ask}
use virtual_private_node.Lifecycle.Init.{Place, look, set, create, chmod, write, remove, rename}
use virtual_private_node.Lifecycle.Shape.{Tree, Good}
use virtual_private_node.Lifecycle.Stages.{
  Setup, On, on, Recoverable, bind, ask-On, atomic-On, disk,
}

module _ (u : Setup) where
  module _ (P : Tree → Type 0) (Q : Unit {0} → Host → Type 0) (p : Place) where
    pub create-On :
        (n : Node)
        → ((t : Tree) (k : ℕ) → P t → look p (disk u k t) ≡ absent)
        → ((t : Tree) (k : ℕ)
            → Good t
            → within mode_600 k ≡ true
            → P t
            → Q tt (set p (present n) (disk u k t)))
        → Triple (Recoverable u) (On u P) (create p n) Q
    create-On n gone effect =
        bind u (ask-On u P _ (λ t. tt) (λ t k q. rw (gone t k q) refl))
          (λ a. atomic-On u (λ t. P t × (tt ≡ a)) Q _ go)
      where
        go : {a : Unit {0}} (h : Host) → On u (λ t. P t × (tt ≡ a)) h → Q tt (set p (present n) h)
        go _ (on t k g e (q, d)) = effect t k g e q

    module _ (node : Tree → Node)
        (here : (t : Tree) (k : ℕ) → P t → look p (disk u k t) ≡ present (node t)) where
      node-On :
          Triple
            (Recoverable u)
            (On u P)
            (ask (λ h. checked (node_at (look p h))))
            (λ n. On u (λ t. P t × (node t ≡ n)))
      node-On = ask-On u P _ node (λ t k q. rw (here t k q) refl)

      -- The object found is the tree's.
      on_node :
          (R : Host → Type 0) (effect : Node → Host → Host)
          → ((t : Tree) (k : ℕ)
              → Good t
              → within mode_600 k ≡ true
              → P t
              → R (effect (node t) (disk u k t)))
          → (n : Node) (h : Host) → On u (λ t. P t × (node t ≡ n)) h
          → R (effect n h)
      on_node R effect f n _ (on t k g e (q, d)) = rw (sym d) (f t k g e q)

      pub chmod-On :
          (mode : ℕ)
          → ((t : Tree) (k : ℕ)
              → Good t
              → within mode_600 k ≡ true
              → P t
              → Q tt (set p (present (record (node t) { mode = mode })) (disk u k t)))
          → Triple (Recoverable u) (On u P) (chmod p mode) Q
      chmod-On mode f = bind u node-On (λ n.
          atomic-On u _ Q _ (on_node (Q tt) (λ n. set p (present (record n { mode = mode }))) f n))

      pub remove-On :
          ((t : Tree) (k : ℕ)
            → Good t
            → within mode_600 k ≡ true
            → P t
            → Q tt (set p absent (disk u k t)))
          → Triple (Recoverable u) (On u P) (remove p) Q
      remove-On f = bind u node-On (λ n. atomic-On u _ Q _ (on_node (Q tt) (λ n. set p absent) f n))

      pub rename-On :
          (to : Place)
          → ((t : Tree) (k : ℕ)
              → Good t
              → within mode_600 k ≡ true
              → P t
              → Q tt (set to (present (node t)) (set p absent (disk u k t))))
          → Triple (Recoverable u) (On u P) (rename p to) Q
      rename-On to f =
          bind u node-On (λ n.
            atomic-On u _ Q _ (on_node (Q tt) (λ n h. set to (present n) (set p absent h)) f n))

      pub write-On :
          (text : Text) (part : ℕ)
          → ((t : Tree) (k : ℕ)
              → Good t
              → within mode_600 k ≡ true
              → P t
              → (Recoverable u)
                  (set p (present (record (node t) { content = take part text })) (disk u k t)))
          → ((t : Tree) (k : ℕ)
              → Good t
              → within mode_600 k ≡ true
              → P t
              → Q tt (set p (present (record (node t) { content = text })) (disk u k t)))
          → Triple (Recoverable u) (On u P) (write p text part) Q
      write-On text part torn f = bind u node-On (λ n.
          Triple-act (Recoverable u) _ Q _ _
            (on_node (Recoverable u) (λ n. set p (present (record n { content = take part text })))
              torn n)
            (on_node (Q tt) (λ n. set p (present (record n { content = text }))) f n))
