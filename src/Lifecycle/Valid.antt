-- ===== src/Lifecycle/Valid.antt =====
-- The checks of the classification on the trees of Lifecycle/Shape.antt
-- (internal/installer/lifecycle.go).
use virtual_private_node.Lifecycle.Shape.{
  nothing_yet, with_vpn, with_private, ledger_staged, ledger_there, layout_staged, layout_there,
}
use virtual_private_node.Base.{
  ℕ, String, ◌≤◌, ◌≡◌, refl, true, false, some, List, [], ◌∷◌, ◌++◌, ok, inl, inr, Bool-cases,
  arith, length, le→leb, All,
}
use virtual_private_node.Base.Text.{Text}
use virtual_private_node.Ledger.{InstallContext, fresh_ledger, validate_ledger, has_key}
use virtual_private_node.Ledger.Parse.{Json, WritesFresh, parse_ledger, parse_ledger-fresh}
use virtual_private_node.Lifecycle.{
  Host, Bootstrap, boot_mainnet, boot_testnet4, boot_public_signet, Lookup, unknown, context_of,
  layout_version_content, existing_paths, identities, validate_bootstrap_tree,
  validate_bootstrap_ledger, initial_ledger_matches_context, inspect_bootstrap, find_bootstrap,
  validate_private,
}
use virtual_private_node.Lifecycle.Objects.{
  Object, absent, present, within, mode_755, mode_700, mode_600, validate_bootstrap_dir,
  validate_bootstrap_file, read_validated_root_file, max_state_file_bytes,
}
use virtual_private_node.Lifecycle.Init.{owned}
use virtual_private_node.Lifecycle.Shape.{
  empty_tree, Tree, file_with, dir_with, plant, DirMode, StageFile, Good, booted,
}

pub existing-absent :
    (at : String → Object) (seen paths : List String)
    → All (λ p. at p ≡ absent) paths
    → existing_paths at seen paths ≡ ok []
unfolding existing_paths
existing-absent at seen [] h = refl
existing-absent at seen (p ∷ paths) h = elim (Bool-cases (has_key seen p)) [
  | inl e ↦ rw (existing_paths, e) (existing-absent at seen paths h.1)
  | inr e ↦ rw (existing_paths, e, h.0, existing-absent at (p ∷ seen) paths h.1) refl
]

pub identities-unknown :
    (find : String → Lookup) (names : List String)
    → All (λ n. find n ≡ unknown) names
    → identities find names ≡ ok []
unfolding identities
identities-unknown find [] h = refl
identities-unknown find (n ∷ names) h = rw (identities, h.0, identities-unknown find names h.1) refl

pub dir_valid : (final m : ℕ) → DirMode final m → validate_bootstrap_dir final (dir_with m) ≡ ok tt
unfolding validate_bootstrap_dir
dir_valid final m h = rw (validate_bootstrap_dir, h) refl

pub stage_valid :
    (limit k : ℕ) (content : Text)
    → StageFile limit k content
    → validate_bootstrap_file limit (file_with k content) ≡ ok tt
unfolding validate_bootstrap_file
stage_valid limit k content h =
    let fits = le→leb (length content) limit h.1 in rw (validate_bootstrap_file, h.0, fits) refl

pub read_valid :
    (content : Text)
    → length content ≤ max_state_file_bytes
    → read_validated_root_file mode_600 (file_with mode_600 content) ≡ ok content
unfolding read_validated_root_file
read_valid content h =
    let fits = le→leb (length content) max_state_file_bytes h in
    rw (read_validated_root_file, fits) refl

pub layout_short : length layout_version_content ≤ max_state_file_bytes
layout_short = omega arith

pub fresh_valid_at : (b : Bootstrap) → validate_ledger (fresh_ledger (context_of b)) ≡ ok tt
unfolding validate_ledger
fresh_valid_at boot_mainnet = refl
fresh_valid_at boot_testnet4 = refl
fresh_valid_at boot_public_signet = refl

-- The tree's checks do not read the bootstrap files.
pub tree_frame :
    (json : Json) (c : Bootstrap) (k : ℕ) (h : Host) (ctx : InstallContext)
    → validate_bootstrap_tree json (booted c k h) ctx ≡ validate_bootstrap_tree json h ctx
unfolding validate_bootstrap_tree validate_private validate_bootstrap_ledger
tree_frame json c k h ctx = refl

boot_valid :
    (k : ℕ) → within mode_600 k ≡ true → validate_bootstrap_file 0 (present (owned k)) ≡ ok tt
unfolding validate_bootstrap_file
boot_valid k e = rw (validate_bootstrap_file, e) refl

pub found_boot :
    (c : Bootstrap) (k : ℕ) (h : Host)
    → within mode_600 k ≡ true
    → h.strange_bootstraps ≡ []
    → inspect_bootstrap (booted c k h) ≡ ok (some c)
unfolding inspect_bootstrap find_bootstrap
found_boot boot_mainnet k h e s =
    rw (inspect_bootstrap, s, find_bootstrap, boot_valid k e, find_bootstrap) refl
found_boot boot_testnet4 k h e s =
    rw (inspect_bootstrap, s, find_bootstrap, boot_valid k e, find_bootstrap) refl
found_boot boot_public_signet k h e s =
    rw (inspect_bootstrap, s, find_bootstrap, boot_valid k e) refl

module _ (json : Json) (b : Bootstrap) (w : WritesFresh json (context_of b)) where
  abbrev pub bytes : Text
  bytes = w.bytes ++ (b'\n' ∷ [])

  pub parsed_back : parse_ledger json bytes ≡ ok (fresh_ledger (context_of b))
  parsed_back = parse_ledger-fresh json (context_of b) w (fresh_valid_at b)

  pub matches :
      (c : Bootstrap)
      → initial_ledger_matches_context (fresh_ledger (context_of c)) (context_of c) ≡ true
  unfolding initial_ledger_matches_context
  matches boot_mainnet = refl
  matches boot_testnet4 = refl
  matches boot_public_signet = refl

  ledger_valid :
      (h : Host)
      → h.ledger ≡ file_with mode_600 bytes
      → validate_bootstrap_ledger json h (context_of b) true ≡ ok tt
  unfolding validate_bootstrap_ledger
  ledger_valid h e =
      rw (validate_bootstrap_ledger, e, read_valid bytes w.short, parsed_back, matches b) refl

  no_ledger_valid : (h : Host) → validate_bootstrap_ledger json h (context_of b) false ≡ ok tt
  unfolding validate_bootstrap_ledger
  no_ledger_valid h = refl

  HasPrivate : Tree → Type 0
  HasPrivate nothing_yet = ⊥
  HasPrivate (with_vpn m) = ⊥
  HasPrivate _ = Unit

  private_valid :
      (t : Tree) (h : Host)
      → HasPrivate t
      → Good t
      → validate_private json (plant bytes t (empty_tree h)) (context_of b) ≡ ok tt
  unfolding validate_private HasPrivate
  private_valid nothing_yet h p g = elim p [ ]
  private_valid (with_vpn _) h p g = elim p [ ]
  private_valid (with_private m n) h p g =
      rw
        (
          validate_private,
          dir_valid mode_700 n g.1,
          no_ledger_valid (plant bytes (with_private m n) (empty_tree h)),
        )
        refl
  private_valid (ledger_staged m n k content) h p g =
      rw
        (
          validate_private,
          dir_valid mode_700 n g.1,
          stage_valid max_state_file_bytes k content g.2,
          no_ledger_valid (plant bytes (ledger_staged m n k content) (empty_tree h)),
        )
        refl
  private_valid (ledger_there m n) h p g =
      rw
        (
          validate_private,
          dir_valid mode_700 n g.1,
          ledger_valid (plant bytes (ledger_there m n) (empty_tree h)) refl,
        )
        refl
  private_valid (layout_staged m n k content) h p g =
      rw
        (
          validate_private,
          dir_valid mode_700 n g.1,
          ledger_valid (plant bytes (layout_staged m n k content) (empty_tree h)) refl,
          stage_valid (length layout_version_content) k content g.2,
        )
        refl
  private_valid (layout_there m n) h p g =
      rw
        (
          validate_private,
          dir_valid mode_700 n g.1,
          ledger_valid (plant bytes (layout_there m n) (empty_tree h)) refl,
          read_valid layout_version_content layout_short,
        )
        refl

  pub tree_valid :
      (t : Tree) (h : Host)
      → Good t
      → validate_bootstrap_tree json (plant bytes t (empty_tree h)) (context_of b) ≡ ok tt
  unfolding validate_bootstrap_tree HasPrivate
  tree_valid nothing_yet h g = refl
  tree_valid (with_vpn m) h g = rw (validate_bootstrap_tree, dir_valid mode_755 m g) refl
  tree_valid (with_private m n) h g =
      rw
        (validate_bootstrap_tree, dir_valid mode_755 m g.0, private_valid (with_private m n) h tt g)
        refl
  tree_valid (ledger_staged m n k content) h g =
      rw
        (
          validate_bootstrap_tree,
          dir_valid mode_755 m g.0,
          private_valid (ledger_staged m n k content) h tt g,
        )
        refl
  tree_valid (ledger_there m n) h g =
      rw
        (validate_bootstrap_tree, dir_valid mode_755 m g.0, private_valid (ledger_there m n) h tt g)
        refl
  tree_valid (layout_staged m n k content) h g =
      rw
        (
          validate_bootstrap_tree,
          dir_valid mode_755 m g.0,
          private_valid (layout_staged m n k content) h tt g,
        )
        refl
  tree_valid (layout_there m n) h g =
      rw
        (validate_bootstrap_tree, dir_valid mode_755 m g.0, private_valid (layout_there m n) h tt g)
        refl
