-- ===== src/Lifecycle/Fill.antt =====
-- Publishing the ledger and the layout marker (the second half of completeLifecycleBootstrap of
-- internal/installer/lifecycle.go).
use virtual_private_node.Lifecycle.Interrupt.{pure}
use virtual_private_node.Base.{ℕ, ◌≡◌, refl, sym, ap, Bool, true, false, ok}
use virtual_private_node.Base.Text.{Text}
use virtual_private_node.Ledger.Parse.{Json, WritesFresh}
use virtual_private_node.Lifecycle.{Host, Bootstrap, context_of}
use virtual_private_node.Lifecycle.Objects.{mode_755, mode_700, max_state_file_bytes}
use virtual_private_node.Lifecycle.Interrupt.{Triple, Triple-pure, Triple-ask}
use virtual_private_node.Lifecycle.Interrupt.{◌>>=◌ as ◌then◌}
use virtual_private_node.Lifecycle.Init.{ledger_file, ledger_staging, publish_bootstrap_payload}
use virtual_private_node.Lifecycle.Shape.{
  Tree, nothing_yet, with_vpn, with_private, ledger_staged, ledger_there, layout_staged,
  layout_there, DirMode,
}
use virtual_private_node.Lifecycle.Valid.{bytes}
use virtual_private_node.Lifecycle.Stages.{Setup, On, on, Recoverable, bind, ask-On, disk}
use virtual_private_node.Lifecycle.Stages.{weaken}
use virtual_private_node.Lifecycle.Dirs.{Masks}
use virtual_private_node.Lifecycle.Interrupt.{Triple-cases}
use virtual_private_node.Lifecycle.Init.{ensure_ledger, published_ledger, encoded}
use virtual_private_node.Lifecycle.Valid.{matches, read_valid, parsed_back}
use virtual_private_node.Lifecycle.Stages.{has_ledger}
use virtual_private_node.Lifecycle.Publish.{At, publish-On}
use virtual_private_node.Ledger.{InstallLedger, fresh_ledger}
use virtual_private_node.Lifecycle.Clear.{ledger_staging_of, Ledgering, Held}

-- The setup of an install on a host.
abbrev pub setup : (json : Json) (b : Bootstrap) → WritesFresh json (context_of b) → Host → Setup
setup json b w h = record { boot = b; content = bytes json b w; base = h }

module _ (json : Json) (umask : ℕ → ℕ) (masks : Masks umask) (b : Bootstrap)
    (w : WritesFresh json (context_of b)) (h : Host) where
  abbrev u : Setup
  u = setup json b w h

  abbrev fresh : InstallLedger
  fresh = fresh_ledger (context_of b)

  -- The trees before the ledger is published, by the mode of the project's directory.
  At-private :
      (g : Host)
      → On u (λ t. Ledgering false t × (has_ledger t ≡ false)) g
      → (i : (m : ℕ) × DirMode mode_755 m) × On u (At (with_private i.0 mode_700)) g
  At-private _ (on nothing_yet k g e p) = absurd p.0.0
  At-private _ (on (with_vpn m) k g e p) = absurd p.0.0
  At-private _ (on (with_private m n) k g e p) =
      ((m, g.0), on (with_private m n) k g e (ap (with_private m) p.0.0))
  At-private _ (on (ledger_staged m n l s) k g e p) = absurd cc
  At-private _ (on (ledger_there m n) k g e p) = absurd cc
  At-private _ (on (layout_staged m n l s) k g e p) = absurd cc
  At-private _ (on (layout_there m n) k g e p) = absurd cc

  fresh_read :
      (t : Tree) (k : ℕ)
      → Ledgering false t × (has_ledger t ≡ true)
      → published_ledger json umask (context_of b) (disk u k t) ≡ ok fresh
  fresh_read nothing_yet k p = absurd cc
  fresh_read (with_vpn m) k p = absurd cc
  fresh_read (with_private m n) k p = absurd cc
  fresh_read (ledger_staged m n l s) k p = absurd cc
  fresh_read (ledger_there m n) k p =
      rw
        (
          published_ledger,
          read_valid (bytes json b w) w.short,
          parsed_back json b w,
          matches json b w b,
        )
        refl
  fresh_read (layout_staged m n l s) k p =
      rw
        (
          published_ledger,
          read_valid (bytes json b w) w.short,
          parsed_back json b w,
          matches json b w b,
        )
        refl
  fresh_read (layout_there m n) k p =
      rw
        (
          published_ledger,
          read_valid (bytes json b w) w.short,
          parsed_back json b w,
          matches json b w b,
        )
        refl

  publish_ledger :
      (part : ℕ) (i : (m : ℕ) × DirMode mode_755 m)
      → Triple
          (Recoverable u)
          (On u (At (with_private i.0 mode_700)))
          (publish_bootstrap_payload json umask ledger_staging ledger_file (bytes json b w) part)
          (λ v. On u (At (ledger_there i.0 mode_700)))
  publish_ledger part i =
      publish-On u umask masks json ledger_staging ledger_file max_state_file_bytes (bytes json b w)
        w.short (ledger_staging_of u i.0) (i.1, refl) part

  abbrev pub Published : InstallLedger → Host → Type 0
  Published l g = (l ≡ fresh) × On u Held g

  publish_encoded :
      (part : ℕ) (i : (m : ℕ) × DirMode mode_755 m) (c : Text)
      → Triple
          (Recoverable u)
          (On u (λ t. At (with_private i.0 mode_700) t × (bytes json b w ≡ c)))
          (publish_bootstrap_payload json umask ledger_staging ledger_file c part
            then (λ v. pure fresh))
          Published
  publish_encoded part i c =
      Triple-cases (Recoverable u) _
        (λ (same : bytes json b w ≡ c). On u (At (with_private i.0 mode_700))) Published _
        (λ g p. encoded_bytes g p)
        (λ same. rw (sym same) (
          bind u (publish_ledger part i) (λ v. Triple-pure (Recoverable u) fresh _ Published (λ g p.
            (
              refl,
              weaken u (At (ledger_there i.0 mode_700)) Held (λ t good q. rw q (refl, refl)) g p,
            )))))
    where
      encoded_bytes :
          (g : Host)
          → On u (λ t. At (with_private i.0 mode_700) t × (bytes json b w ≡ c)) g
          → (bytes json b w ≡ c) × On u (At (with_private i.0 mode_700)) g
      encoded_bytes _ (on t k g e p) = (p.1, on t k g e p.0)

  pub ensured_ledger :
      (part : ℕ) (here : Bool)
      → Triple
          (Recoverable u)
          (On u (λ t. Ledgering false t × (has_ledger t ≡ here)))
          (ensure_ledger json umask (context_of b) fresh part here)
          Published
  unfolding ensure_ledger
  ensured_ledger part true =
      Triple-ask (Recoverable u) _ Published (published_ledger json umask (context_of b)) read_back
    where
      read_back :
          (g : Host)
          → On u (λ t. Ledgering false t × (has_ledger t ≡ true)) g
          → (l : InstallLedger) × (published_ledger json umask (context_of b) g ≡ ok l)
            × Published l g
      read_back _ (on t k g e p) = (fresh, fresh_read t k p, (refl, on t k g e (p.0.0, p.1)))
  ensured_ledger part false =
      Triple-cases (Recoverable u) _ (λ i. On u (At (with_private i.0 mode_700))) Published _
        At-private
        (λ i.
          bind u
            (ask-On u (At (with_private i.0 mode_700)) (λ g. encoded json umask (json.encode fresh))
              (λ t. bytes json b w) (λ t k p. rw w.encodes refl))
            (λ c. publish_encoded part i c))
