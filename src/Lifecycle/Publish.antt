-- ===== src/Lifecycle/Publish.antt =====
-- Publishing a file through its staging name (publishBootstrapPayload of
-- internal/installer/lifecycle.go).
use virtual_private_node.Base.{zero, suc, ◌∷◌}
use virtual_private_node.Lifecycle.Stages.{On-Recoverable}
use virtual_private_node.Base.{ℕ, ◌≤◌, ◌≡◌, refl, true, List, [], arith, length, take}
use virtual_private_node.Base.Text.{Text}
use virtual_private_node.Ledger.Parse.{Json}
use virtual_private_node.Lifecycle.{Host}
use virtual_private_node.Lifecycle.Objects.{absent, within, mode_600}
use virtual_private_node.Lifecycle.Interrupt.{Triple}
use virtual_private_node.Lifecycle.Init.{
  Place, look, set, create, chmod, write, rename, owned, publish_bootstrap_payload,
}
use virtual_private_node.Lifecycle.Shape.{Tree, Good, StageFile, file_with}
use virtual_private_node.Lifecycle.Stages.{Setup, On, on, Recoverable, bind, disk}
use virtual_private_node.Lifecycle.Stages.{touch-On}
use virtual_private_node.Lifecycle.Rules.{create-On, chmod-On, rename-On, write-On}
use virtual_private_node.Lifecycle.Dirs.{Masks}

-- How the trees change while a file is published: before, with the staging file, and after.
pub record Staging (u : Setup) (stage destination : Place) (limit : ℕ) (text : Text) : Type 0 where
  pub before : Tree
  pub staged : ℕ → Text → Tree
  pub after : Tree
  pub gone : (k : ℕ) → look stage (disk u k before) ≡ absent
  pub made : (k m : ℕ) → set stage (file_with m []) (disk u k before) ≡ disk u k (staged m [])
  pub there : (k m : ℕ) (c : Text) → look stage (disk u k (staged m c)) ≡ file_with m c
  pub changed :
      (k m m' : ℕ) (c c' : Text)
      → set stage (file_with m' c') (disk u k (staged m c)) ≡ disk u k (staged m' c')
  pub moved :
      (k : ℕ)
      → set destination
          (file_with mode_600 text)
          (set stage absent (disk u k (staged mode_600 text)))
        ≡ disk u k after
  pub good_staged : (m : ℕ) (c : Text) → Good before → StageFile limit m c → Good (staged m c)
  pub good_after : Good before → Good after

length-take : {A : Type 0} (n : ℕ) (xs : List A) → length (take n xs) ≤ length xs
length-take zero xs = omega arith
length-take (suc n) [] = omega arith
length-take (suc n) (x ∷ xs) = let rest = length-take n xs in omega arith

pub stage_600 : within mode_600 mode_600 ≡ true
unfolding within
stage_600 = refl

abbrev pub At : Tree → Tree → Type 0
At s t = t ≡ s

module _ (u : Setup) (umask : ℕ → ℕ) (masks : Masks umask) where
  move :
      (s s' : Tree) (effect : Host → Host)
      → ((k : ℕ) → effect (disk u k s) ≡ disk u k s')
      → Good s'
      → (t : Tree) (k : ℕ) → Good t
      → within mode_600 k ≡ true
      → At s t
      → On u (At s') (effect (disk u k t))
  move s s' effect f g' t k g e p = rw (p, f k) (on s' k g' e refl)

  module _ (json : Json) (stage destination : Place) (limit : ℕ) (text : Text)
      (fits : length text ≤ limit) (w : Staging u stage destination limit text)
      (good : Good w.before) where
    staged-Good :
        (m : ℕ) (c : Text) → within mode_600 m ≡ true → length c ≤ limit → Good (w.staged m c)
    staged-Good m c e l = w.good_staged m c good (e, l)

    -- The staging file, empty, with what the umask leaves of its mode.
    abbrev created : Tree
    created = w.staged (umask mode_600) []

    abbrev emptied : Tree
    emptied = w.staged mode_600 []

    abbrev written : Tree
    written = w.staged mode_600 text

    created_step :
        Triple
          (Recoverable u)
          (On u (At w.before))
          (create stage (owned (umask mode_600)))
          (λ v. On u (At created))
    created_step =
        create-On u (At w.before) (λ v. On u (At created)) stage (owned (umask mode_600))
          (λ t k p. rw p (w.gone k))
          (move w.before created (set stage (file_with (umask mode_600) []))
            (λ k. w.made k (umask mode_600))
            (staged-Good (umask mode_600) [] masks.1 (omega arith)))

    mode_step :
        Triple (Recoverable u) (On u (At created)) (chmod stage mode_600) (λ v. On u (At emptied))
    mode_step =
        chmod-On u (At created) (λ v. On u (At emptied)) stage (λ t. owned (umask mode_600))
          (λ t k p. rw p (w.there k (umask mode_600) [])) mode_600
          (move created emptied (set stage (file_with mode_600 []))
            (λ k. w.changed k (umask mode_600) mode_600 [] [])
            (staged-Good mode_600 [] stage_600 (omega arith)))

    written_step :
        (part : ℕ)
        → Triple
            (Recoverable u)
            (On u (At emptied))
            (write stage text part)
            (λ v. On u (At written))
    written_step part =
        let short = length-take part text in
        write-On u (At emptied) (λ v. On u (At written)) stage (λ t. owned mode_600)
          (λ t k p. rw p (w.there k mode_600 [])) text part
          (λ t k g e p. On-Recoverable u _ _ (
            move emptied (w.staged mode_600 (take part text))
              (set stage (file_with mode_600 (take part text)))
              (λ k. w.changed k mode_600 mode_600 [] (take part text))
              (staged-Good mode_600 (take part text) stage_600 (omega arith)) t k g e p))
          (move emptied written (set stage (file_with mode_600 text))
            (λ k. w.changed k mode_600 mode_600 [] text) (staged-Good mode_600 text stage_600 fits))

    renamed_step :
        Triple
          (Recoverable u)
          (On u (At written))
          (rename stage destination)
          (λ v. On u (At w.after))
    renamed_step =
        rename-On u (At written) (λ v. On u (At w.after)) stage
          (λ t. record (owned mode_600) { content = text })
          (λ t k p. rw p (w.there k mode_600 text)) destination
          (move written w.after
            (λ h. set destination (file_with mode_600 text) (set stage absent h)) w.moved
            (w.good_after good))

    pub publish-On :
        (part : ℕ)
        → Triple
            (Recoverable u)
            (On u (At w.before))
            (publish_bootstrap_payload json umask stage destination text part)
            (λ v. On u (At w.after))
    unfolding publish_bootstrap_payload
    publish-On part = bind u created_step (λ a. bind u mode_step (λ c.
        bind u (written_step part) (λ d. bind u (touch-On u (At written)) (λ e.
          bind u (touch-On u (At written))
            (λ f. bind u renamed_step (λ g. touch-On u (At w.after)))))))
