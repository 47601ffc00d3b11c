-- ===== src/Lifecycle/Classes.antt =====
-- The classes of the trees of Lifecycle/Shape.antt (classifyLifecycleState of
-- internal/installer/lifecycle.go).
use virtual_private_node.Base.{
  ℕ, String, ◌≡◌, refl, ◌∙◌, true, false, none, some, [], ◌∷◌, ◌++◌, ok, All, All-drop, ◌==◌,
}
use virtual_private_node.Base.Text.{Text}
use virtual_private_node.Ledger.{InstallContext, fresh_ledger, all_base_steps_done}
use virtual_private_node.Ledger.Parse.{Json, WritesFresh}
use virtual_private_node.Lifecycle.{
  Host, Bootstrap, bootstrap, resumable, pristine, Lookup, unknown, object_at, unmarked_paths,
  project_paths, conflict_paths, user_names, group_names, context_of, classify_lifecycle_state,
  existing_paths, identities, existing_lifecycle_identities, validate_bootstrap_tree,
  classify_bootstrap, classify_unmarked, classify_marked, inspect_bootstrap, find_bootstrap,
  var_lib_vpn, dispose, layout_version_content,
}
use virtual_private_node.Lifecycle.Objects.{
  absent, within, validate_root_dir, mode_755, mode_700, mode_600,
}
use virtual_private_node.Lifecycle.Shape.{
  empty_tree, IsClean, Tree, nothing_yet, with_vpn, with_private, ledger_staged, ledger_there,
  layout_staged, layout_there, plant, Good, dir_with, booted,
}
use virtual_private_node.Lifecycle.Valid.{
  existing-absent, identities-unknown, tree_valid, tree_frame, found_boot, bytes, read_valid,
  parsed_back, layout_short,
}

-- The names of the lists are not known to the host.
names-unknown : (h : Host) → IsClean h → existing_lifecycle_identities h ≡ ok []
unfolding existing_lifecycle_identities
names-unknown h c =
    rw
      (
        existing_lifecycle_identities,
        identities-unknown h.user user_names c.users,
        identities-unknown h.group group_names c.groups,
      )
      refl

plant-IsClean :
    (content : Text) (t : Tree) (h : Host) → IsClean h → IsClean (plant content t (empty_tree h))
plant-IsClean content nothing_yet h c = c
plant-IsClean content (with_vpn m) h c = c
plant-IsClean content (with_private m n) h c = c
plant-IsClean content (ledger_staged m n k s) h c = c
plant-IsClean content (ledger_there m n) h c = c
plant-IsClean content (layout_staged m n k s) h c = c
plant-IsClean content (layout_there m n) h c = c

-- All that is excepted is the project's own directory.
nothing_found :
    (h : Host) → IsClean h → existing_paths (object_at h) (var_lib_vpn ∷ []) unmarked_paths ≡ ok []
unfolding existing_paths
nothing_found h c =
    existing-absent (object_at h) (var_lib_vpn ∷ []) (project_paths ++ conflict_paths) c.paths

bootstrap_found :
    (json : Json) (h : Host) (b : Bootstrap)
    → IsClean h
    → inspect_bootstrap h ≡ ok (some b)
    → validate_bootstrap_tree json h (context_of b) ≡ ok tt
    → classify_lifecycle_state json h ≡ ok (bootstrap (context_of b))
unfolding classify_lifecycle_state classify_bootstrap
bootstrap_found json h b c e v =
    rw
      (
        classify_lifecycle_state,
        c.above,
        c.parent,
        e,
        classify_bootstrap,
        nothing_found h c,
        names-unknown h c,
        v,
      )
      refl

old_name :
    (find : String → Lookup) → find "ripsline" ≡ unknown → identities find ("ripsline" ∷ []) ≡ ok []
old_name find e = identities-unknown find ("ripsline" ∷ []) (e, tt)

none_done : (ctx : InstallContext) → all_base_steps_done (fresh_ledger ctx) ≡ false
unfolding all_base_steps_done
none_done ctx = refl

no_boot_found :
    (h : Host)
    → h.strange_bootstraps ≡ []
    → (h.mainnet ≡ absent) × (h.testnet4 ≡ absent) × (h.public_signet ≡ absent)
    → inspect_bootstrap h ≡ ok none
unfolding inspect_bootstrap find_bootstrap
no_boot_found h s (x, y, z) =
    rw (inspect_bootstrap, s, find_bootstrap, x, find_bootstrap, y, find_bootstrap, z) refl

root_dir : (mode : ℕ) → (mode == mode) ≡ true → validate_root_dir mode (dir_with mode) ≡ ok tt
unfolding validate_root_dir
root_dir mode e = rw (validate_root_dir, e) refl

module _ (json : Json) (b : Bootstrap) (w : WritesFresh json (context_of b)) (h : Host)
    (c : IsClean h) where
  -- The hosts with the bootstrap file.
  pub classify-booted :
      (t : Tree) (k : ℕ)
      → Good t
      → within mode_600 k ≡ true
      → classify_lifecycle_state json (booted b k (plant (bytes json b w) t (empty_tree h)))
        ≡ ok (bootstrap (context_of b))
  classify-booted t k g e =
      let planted : Host = plant (bytes json b w) t (empty_tree h) in
      let clean = plant-IsClean (bytes json b w) t h c in
      bootstrap_found json (booted b k planted) b clean (found_boot b k planted e clean.no_strange)
        (tree_frame json b k planted (context_of b) ∙ tree_valid json b w t h g)

  abbrev pub begun : Host
  begun = plant (bytes json b w) (layout_there mode_755 mode_700) (empty_tree h)

  -- The host of an install that has begun.
  pub classify-begun :
      classify_lifecycle_state json begun ≡ ok (resumable (fresh_ledger (context_of b)))
  unfolding classify_lifecycle_state classify_marked dispose
  classify-begun =
      let quiet : All (λ p. object_at begun p ≡ absent) conflict_paths =
        All-drop (λ p. h.other p ≡ absent) 28 (project_paths ++ conflict_paths) c.paths in
      rw
        (
          classify_lifecycle_state,
          c.above,
          c.parent,
          no_boot_found begun c.no_strange (refl, refl, refl),
          classify_marked,
          root_dir mode_755 refl,
          root_dir mode_700 refl,
          read_valid layout_version_content layout_short,
          existing-absent (object_at begun) [] conflict_paths quiet,
          old_name h.user c.users.1.1.1.1.0,
          old_name h.group c.groups.1.1.1.1.0,
          read_valid (bytes json b w) w.short,
          parsed_back json b w,
        )
        (rw (none_done (context_of b)) refl)

  pub classify-empty : classify_lifecycle_state json (empty_tree h) ≡ ok pristine
  unfolding classify_lifecycle_state classify_unmarked
  classify-empty =
      rw
        (
          classify_lifecycle_state,
          c.above,
          c.parent,
          no_boot_found (empty_tree h) c.no_strange (refl, refl, refl),
          classify_unmarked,
          existing-absent (object_at (empty_tree h)) [] unmarked_paths (refl, c.paths),
          names-unknown (empty_tree h) c,
        )
        refl
