-- ===== src/Lifecycle/Again.antt =====
-- Sequences of starts of an install (RunInstall of internal/installer/setup.go).
use virtual_private_node.Lifecycle.{network_of}
use virtual_private_node.Base.{not, ◌&&◌}
use virtual_private_node.Lifecycle.Startup.{is_pristine}
use virtual_private_node.Lifecycle.Startup.{check_and_proceed}
use virtual_private_node.Base.{String, ◌&&◌}
use virtual_private_node.Lifecycle.Interrupt.{pure}
use virtual_private_node.Base.{
  ℕ, ◌≡◌, refl, ap, ◌∙◌, Bool, true, false, ◌||◌, Option, none, ok, ◌⊎◌,
}
use virtual_private_node.Ledger.Parse.{Json, WritesFresh}
use virtual_private_node.Lifecycle.{Host, Bootstrap, context_of, layout_version_content}
use virtual_private_node.Lifecycle.Objects.{absent, mode_755, mode_700, mode_600}
use virtual_private_node.Lifecycle.Interrupt.{Run, ask}
use virtual_private_node.Lifecycle.Interrupt.{◌>>=◌ as ◌then◌}
use virtual_private_node.Lifecycle.Shape.{
  empty_tree, IsClean, nothing_yet, with_vpn, with_private, ledger_staged, ledger_there,
  layout_staged, layout_there, plant, file_with, dir_with,
}
use virtual_private_node.Lifecycle.Valid.{bytes}
use virtual_private_node.Lifecycle.Stages.{On, on, Recoverable}
use virtual_private_node.Lifecycle.Stages.{AnyTree}
use virtual_private_node.Lifecycle.Dirs.{Masks}
use virtual_private_node.Ledger.{InstallLedger, fresh_ledger}
use virtual_private_node.Lifecycle.Fill.{setup}
use virtual_private_node.Lifecycle.{boot_mainnet}
use virtual_private_node.Lifecycle.{Lifecycle, bootstrap, classify_lifecycle_state}
use virtual_private_node.Lifecycle.Init.{initialize_lifecycle, resume_lifecycle_bootstrap}
use virtual_private_node.Lifecycle.Finish.{last_tree}
use virtual_private_node.Base.{str_eq}
use virtual_private_node.Lifecycle.{pristine, resumable}
use virtual_private_node.Lifecycle.Interrupt.{Machine, After}
use virtual_private_node.Lifecycle.Pristine.{pristine-IsClean}
use virtual_private_node.Lifecycle.Begin.{Begun}
use virtual_private_node.Lifecycle.Startup.{
  InstallOptions, with_ledger, start_install, dispatch, proceed, initial_context,
}
use virtual_private_node.Lifecycle.Attempts.{initialized, resumed}
use virtual_private_node.Lifecycle.Interrupt.{uninterrupted}
use virtual_private_node.Lifecycle.Startup.{delivery_check}
use virtual_private_node.Lifecycle.Recovery.{
  Beginning, untouched, begun_at, finished, found, found_pristine, found_bootstrap, found_begun,
  start-Leaves,
}

and_false : (x : Bool) → (x && false) ≡ false
and_false true = refl
and_false false = refl

any_network : (name recorded : String) → name ≡ "" → (str_eq name "" || str_eq name recorded) ≡ true
any_network name recorded e = rw e refl

module _ (json : Json) (umask : ℕ → ℕ) where
  -- The hosts after any number of starts, each with its own options and preflight, and each ended
  -- where `left` says.
  pub data Starts (first : Host) : Host → Type 0 where
    no_start : Starts first first
    one_more :
        (g : Host) (preflight : Host → Bool) (o : InstallOptions) (part : ℕ) (left : Option ℕ)
        → Starts first g
        → Starts first
            (start_install json umask preflight o part (record { host = g; left = left })).1.host

  module _ (masks : Masks umask) (w : (b : Bootstrap) → WritesFresh json (context_of b)) (h : Host)
      (clean : IsClean h) where
    Starts-Beginning : (g : Host) → Starts (empty_tree h) g → Beginning json umask masks w h clean g
    Starts-Beginning _ no_start = untouched
    Starts-Beginning _ (one_more g preflight o part left s) =
        (start-Leaves json umask masks w h clean preflight o part).left_by
          (record { host = g; left = left }) (Starts-Beginning g s)

    no_password-On :
        (b : Bootstrap) (g : Host)
        → On (setup json b (w b) h) (AnyTree (setup json b (w b) h)) g
        → g.password_marker ≡ absent
    no_password-On b _ (on nothing_yet k good e p) = refl
    no_password-On b _ (on (with_vpn m) k good e p) = refl
    no_password-On b _ (on (with_private m n) k good e p) = refl
    no_password-On b _ (on (ledger_staged m n l s) k good e p) = refl
    no_password-On b _ (on (ledger_there m n) k good e p) = refl
    no_password-On b _ (on (layout_staged m n l s) k good e p) = refl
    no_password-On b _ (on (layout_there m n) k good e p) = refl

    delivery_ok :
        (o : InstallOptions) (s : Lifecycle) (g : Host)
        → g.password_marker ≡ absent
        → delivery_check o s g ≡ ok tt
    delivery_ok o s g e = rw (e, and_false (not (is_pristine s) && not o.unattended)) refl

    module _ (preflight : Host → Bool) (o : InstallOptions) (part : ℕ) where
      ran :
          (s : Lifecycle) (m : Machine)
          → delivery_check o s m.host ≡ ok tt
          → preflight m.host ≡ true
          → check_and_proceed json umask preflight o part s m
            ≡ proceed json umask preflight o part s m
      unfolding ◌then◌ ask
      ran s m d p = rw (ask, d, p) refl

      initial_mainnet : o.network ≡ "" → initial_context o ≡ context_of boot_mainnet
      initial_mainnet e = rw e refl

      -- What a start that is not interrupted and has no network flag ends in.
      abbrev Resumes : Host → Type 0
      Resumes g =
          (b : Bootstrap) × ((start_install json umask preflight o part
              (record { host = g; left = none })).0
            ≡ ok (with_ledger (fresh_ledger (context_of b))))
          × (classify_lifecycle_state json
                (start_install json umask preflight o part
                  (record { host = g; left = none })).1.host
              ≡ ok (resumable (fresh_ledger (context_of b))))

      started_as :
          (s : Lifecycle) (m : Machine)
          → classify_lifecycle_state json m.host ≡ ok s
          → start_install json umask preflight o part m ≡ dispatch json umask preflight o part s m
      unfolding start_install ◌then◌ ask
      started_as s m e = rw (start_install, ask, e) refl

      -- A run that publishes an install's ledger, and returns it.
      ends :
          (b : Bootstrap) (g : Host) (run : Run InstallLedger)
          → start_install json umask preflight o part (record { host = g; left = none })
            ≡ (run then (λ l. pure (with_ledger l))) (record { host = g; left = none })
          → After
              (Recoverable (setup json b (w b) h))
              (Begun json umask masks b (w b) h clean)
              none
              (run (record { host = g; left = none }))
          → Resumes g
      unfolding ◌then◌
      ends b g run e a =
          let (l, el, q) = uninterrupted _ _ none (run (record { host = g; left = none })) refl a in
          (b, rw (e, el, q.0) refl, rw (e, el, q.1) (found_begun json umask masks w h clean b))

      module _ (quiet : o.network ≡ "") where
        from_untouched : preflight (empty_tree h) ≡ true → Resumes (empty_tree h)
        unfolding dispatch proceed
        from_untouched p =
            let m : Machine = record { host = empty_tree h; left = none } in
            ends boot_mainnet (empty_tree h)
              (initialize_lifecycle json umask (context_of boot_mainnet) part)
              (started_as pristine m (found_pristine json umask masks w h clean)
                ∙ ran pristine m (delivery_ok o pristine (empty_tree h) refl) p
                ∙ rw (initial_mainnet quiet) refl)
              ((initialized json umask masks boot_mainnet (w boot_mainnet) h clean part).runs m
                refl)

        from_bootstrap :
            (b : Bootstrap) (g : Host)
            → On (setup json b (w b) h) (AnyTree (setup json b (w b) h)) g
            → preflight g ≡ true
            → Resumes g
        unfolding dispatch proceed ◌then◌ ask
        from_bootstrap b g on_g p =
            let m : Machine = record { host = g; left = none } in
            ends b g (resume_lifecycle_bootstrap json umask (context_of b) part)
              (started_as (bootstrap (context_of b)) m
                  (found_bootstrap json umask masks w h clean b g on_g)
                ∙ ran (bootstrap (context_of b)) m
                    (delivery_ok o (bootstrap (context_of b)) g (no_password-On b g on_g)) p
                ∙ rw (any_network o.network (network_of b) quiet) refl)
              ((resumed json umask masks b (w b) h clean part).runs m on_g)

        from_finished :
            (b : Bootstrap)
            → preflight (plant (bytes json b (w b)) last_tree (empty_tree h)) ≡ true
            → Resumes (plant (bytes json b (w b)) last_tree (empty_tree h))
        unfolding dispatch proceed ◌then◌ ask
        from_finished b p =
            let g : Host = plant (bytes json b (w b)) last_tree (empty_tree h) in
            let m : Machine = record { host = g; left = none } in
            let same =
              started_as (resumable (fresh_ledger (context_of b))) m
                (found_begun json umask masks w h clean b)
              ∙ ran (resumable (fresh_ledger (context_of b))) m
                  (delivery_ok o (resumable (fresh_ledger (context_of b))) g refl) p in
            (
              b,
              rw (same, any_network o.network (network_of b) quiet) refl,
              rw (same, any_network o.network (network_of b) quiet)
                  (found_begun json umask masks w h clean b),
            )

        resumes :
            (g : Host) → Beginning json umask masks w h clean g → preflight g ≡ true → Resumes g
        resumes _ untouched p = from_untouched p
        resumes _ (begun_at b g on_g) p = from_bootstrap b g on_g p
        resumes _ (finished b) p = from_finished b p

  module _ (masks : Masks umask) (w : (b : Bootstrap) → WritesFresh json (context_of b)) (h : Host)
      (first : classify_lifecycle_state json (empty_tree h) ≡ ok pristine) where
    -- On a host classified as pristine, after any number of starts with any options, each interrupted
    -- anywhere or not at all, the host is still classified: as pristine, as the interrupted beginning of
    -- one of the three networks, or as an install with the fresh ledger of one of them. The umask only
    -- takes bits away, and the JSON library reads back the fresh ledgers that it writes.
    pub Starts-found :
        (g : Host)
        → Starts (empty_tree h) g
        → (classify_lifecycle_state json g ≡ ok pristine)
          ⊎ ((b : Bootstrap) × ((classify_lifecycle_state json g ≡ ok (bootstrap (context_of b)))
                ⊎ (classify_lifecycle_state json g ≡ ok (resumable (fresh_ledger (context_of b))))))
    Starts-found g s =
        let clean = pristine-IsClean json h first in
        found json umask masks w h clean g (Starts-Beginning masks w h clean g s)

    -- From there a start without a network flag, whose preflight passes and which is not interrupted,
    -- returns the fresh ledger of one of the three networks, and the host is then classified as an install
    -- with that ledger.
    pub start_install-recovers :
        (g : Host) (preflight : Host → Bool) (o : InstallOptions) (part : ℕ)
        → Starts (empty_tree h) g
        → preflight g ≡ true
        → o.network ≡ ""
        → (b : Bootstrap) × ((start_install json umask preflight o part
              (record { host = g; left = none })).0
            ≡ ok (with_ledger (fresh_ledger (context_of b))))
          × (classify_lifecycle_state json
                (start_install json umask preflight o part
                  (record { host = g; left = none })).1.host
              ≡ ok (resumable (fresh_ledger (context_of b))))
    start_install-recovers g preflight o part s p quiet =
        let clean = pristine-IsClean json h first in
        resumes masks w h clean preflight o part quiet g (Starts-Beginning masks w h clean g s) p

    -- On a host classified as pristine an initialization that is not interrupted returns the fresh ledger
    -- of its context, and changes nothing but the project's tree: the directories have modes 0755 and 0700,
    -- the ledger and the layout version have mode 0600 and their content, and neither the bootstrap file nor
    -- a staging file is left.
    pub initialize_lifecycle-host :
        (b : Bootstrap) (part : ℕ)
        → ((initialize_lifecycle json umask
              (context_of b)
              part
              (record { host = empty_tree h; left = none })).0
            ≡ ok (fresh_ledger (context_of b)))
          × ((initialize_lifecycle json umask
                (context_of b)
                part
                (record { host = empty_tree h; left = none })).1.host
              ≡ record (empty_tree h) {
                vpn = dir_with mode_755;
                private_dir = dir_with mode_700;
                ledger = file_with mode_600 (bytes json b (w b));
                layout = file_with mode_600 layout_version_content;
              })
    initialize_lifecycle-host b part =
        let clean = pristine-IsClean json h first in
        let m : Machine = record { host = empty_tree h; left = none } in
        let (l, e, q) =
          uninterrupted _ _ none (initialize_lifecycle json umask (context_of b) part m) refl
            ((initialized json umask masks b (w b) h clean part).runs m refl) in
        (e ∙ ap ok q.0, q.1)
