-- ===== src/Lifecycle/Untouched.antt =====
-- The class of a pristine host, against the other classes (classifyLifecycleState of
-- internal/installer/lifecycle.go).
use virtual_private_node.Base.{Result-cases, ◌>>=◌}
use virtual_private_node.Lifecycle.{object, two_bootstraps}
use virtual_private_node.Lifecycle.Pristine.{object_absent}
use virtual_private_node.Base.{
  ◌≡◌, refl, ap, ◌∙◌, Bool, true, false, not, Option, none, some, List, [], ◌∷◌, ◌++◌, Result, ok,
  err, All, >>=-eq-ok, ok-injective, guard-eq-ok, str_eq, if◌then◌else◌,
}
use virtual_private_node.Base.Text.{same}
use virtual_private_node.Ledger.{InstallLedger, all_base_steps_done}
use virtual_private_node.Ledger.Parse.{Json, parse_ledger}
use virtual_private_node.Lifecycle.{
  Host, Bootstrap, pristine, unknown, unmarked_paths, object_at, existing_paths, identities,
  user_names, group_names, classify_lifecycle_state, classify_bootstrap, classify_unmarked,
  classify_marked, classify_by_layout, classify_found, inspect_bootstrap, find_bootstrap,
  bootstrap_at, bootstraps, dispose, delivery_pending, existing_lifecycle_identities,
  validate_bootstrap_tree, nothing, LifecycleError, delivery_conflict, completed,
  completion_pending, resumable, bootstrap_conflict, context_of, checked, parsed, bad_layout,
  stage_residue, prior_generation, layout_version_content, no_strange, conflict_paths,
}
use virtual_private_node.Lifecycle.Objects.{
  Object, absent, blocked, present, path_exists, validate_root_dir, read_validated_root_file,
  validate_bootstrap_file, mode_755, mode_700, mode_600,
}
use virtual_private_node.Lifecycle.Pristine.{unmarked_clean, strange_none}

module _ (json : Json) (h : Host) where
  bootstrap_not_pristine : (b : Bootstrap) → classify_bootstrap json h b ≡ ok pristine → ⊥
  unfolding classify_bootstrap
  bootstrap_not_pristine b e =
      let (found, e0, e1) =
        >>=-eq-ok (checked (existing_paths (object_at h) ("/var/lib/vpn" ∷ []) unmarked_paths)) _
          e in
      let (names, e2, e3) = >>=-eq-ok (existing_lifecycle_identities h) _ e1 in
      let (e4, e5) = guard-eq-ok (nothing (found ++ names)) bootstrap_conflict _ e3 in
      let (u, e6, e7) = >>=-eq-ok (validate_bootstrap_tree json h (context_of b)) _ e5 in absurd cc

  dispose_not_pristine :
      (l : InstallLedger) (pending : Bool) → dispose json l pending ≡ ok pristine → ⊥
  unfolding dispose
  dispose_not_pristine l pending e =
      by_status (str_eq l.status "complete") pending (all_base_steps_done l) e
    where
      by_status :
          (complete pending done : Bool)
          → (if complete
              then if pending then err delivery_conflict else ok (completed l)
              else ok (if done then completion_pending l else resumable l))
            ≡ ok pristine
          → ⊥
      by_status true true d e = absurd cc
      by_status true false d e = absurd cc
      by_status false p true e = absurd cc
      by_status false p false e = absurd cc

  marked_not_pristine : classify_marked json h ≡ ok pristine → ⊥
  unfolding classify_marked
  marked_not_pristine e =
      let (a0, b0, e0) = >>=-eq-ok (checked (validate_root_dir mode_755 h.vpn)) _ e in
      let (a1, b1, e1) = >>=-eq-ok (checked (validate_root_dir mode_700 h.private_dir)) _ e0 in
      let (marker, b2, e2) =
        >>=-eq-ok (checked (read_validated_root_file mode_600 h.layout)) _ e1 in
      let (b3, e3) = guard-eq-ok (same marker layout_version_content) bad_layout _ e2 in
      let (a4, b4, e4) = >>=-eq-ok (checked (path_exists h.ledger_stage)) _ e3 in
      let (b5, e5) = guard-eq-ok (not a4) stage_residue _ e4 in
      let (a6, b6, e6) = >>=-eq-ok (checked (path_exists h.layout_stage)) _ e5 in
      let (b7, e7) = guard-eq-ok (not a6) stage_residue _ e6 in
      let (conflicts, b8, e8) =
        >>=-eq-ok (checked (existing_paths (object_at h) [] conflict_paths)) _ e7 in
      let (users, b9, e9) = >>=-eq-ok (identities h.user ("ripsline" ∷ [])) _ e8 in
      let (groups, b10, e10) = >>=-eq-ok (identities h.group ("ripsline" ∷ [])) _ e9 in
      let (b11, e11) =
        guard-eq-ok (nothing (conflicts ++ (users ++ groups))) prior_generation _ e10 in
      let (content, b12, e12) =
        >>=-eq-ok (checked (read_validated_root_file mode_600 h.ledger)) _ e11 in
      let (l, b13, e13) = >>=-eq-ok (parsed (parse_ledger json content)) _ e12 in
      let (note, b14, e14) = >>=-eq-ok (checked (path_exists h.password_marker)) _ e13 in
      let (pending, b15, e15) = >>=-eq-ok (delivery_pending json note h) _ e14 in
      dispose_not_pristine l pending e15

  by_layout :
      (o : Object)
      → classify_by_layout json h o ≡ ok pristine
      → (o ≡ absent) × (classify_unmarked json h ≡ ok pristine)
  by_layout absent e = (refl, e)
  by_layout blocked e = absurd cc
  by_layout (present n) e = absurd (marked_not_pristine e)

  by_bootstrap :
      (b : Option Bootstrap)
      → classify_found json h b ≡ ok pristine
      → (b ≡ none) × (classify_by_layout json h h.layout ≡ ok pristine)
  by_bootstrap none e = (refl, e)
  by_bootstrap (some b) e = absurd (bootstrap_not_pristine b e)

not_found :
    (f : LifecycleError) → ◌≡◌ {A = Result LifecycleError (Option Bootstrap)} (err f) (ok none) → ⊥
not_found f e = cc

stays_found :
    (h : Host) (c : Bootstrap) (bs : List Bootstrap) → find_bootstrap h (some c) bs ≡ ok none → ⊥
unfolding find_bootstrap
stays_found h c [] e = absurd cc
stays_found h c (b ∷ bs) e = elim (Result-cases (path_exists (bootstrap_at b h))) [
  | err (f, eq) ↦ not_found (object f) (rw (find_bootstrap, eq) at e)
  | ok (true, eq) ↦ not_found two_bootstraps (rw (find_bootstrap, eq) at e)
  | ok (false, eq) ↦ stays_found h c bs (rw (find_bootstrap, eq) at e)
]

present_found :
    (h : Host) (b : Bootstrap) (bs : List Bootstrap) (found : Option Bootstrap)
    → (elim found [
      | some c ↦ err two_bootstraps
      | none ↦ checked (validate_bootstrap_file 0 (bootstrap_at b h)) >>= λ u.
          find_bootstrap h (some b) bs
    ])
      ≡ ok none
    → ⊥
present_found h b bs (some c) e = not_found two_bootstraps e
present_found h b bs none e =
    let (u, e0, e1) = >>=-eq-ok (checked (validate_bootstrap_file 0 (bootstrap_at b h))) _ e in
    stays_found h b bs e1

no_bootstrap :
    (h : Host) (found : Option Bootstrap) (bs : List Bootstrap)
    → find_bootstrap h found bs ≡ ok none
    → (found ≡ none) × All (λ b. bootstrap_at b h ≡ absent) bs
unfolding find_bootstrap
no_bootstrap h found [] e = (ok-injective e, tt)
no_bootstrap h found (b ∷ bs) e = elim (Result-cases (path_exists (bootstrap_at b h))) [
  | err (f, eq) ↦ absurd (not_found (object f) (rw (find_bootstrap, eq) at e))
  | ok (true, eq) ↦ absurd (present_found h b bs found (rw (find_bootstrap, eq) at e))
  | ok (false, eq) ↦
      let (first, rest) = no_bootstrap h found bs (rw (find_bootstrap, eq) at e) in
      (first, (object_absent (bootstrap_at b h) eq, rest))
]

-- A host that is classified as pristine has none of the project's paths, no bootstrap file, no layout
-- version, and none of the project's users and groups.
pub classify_lifecycle_state-pristine :
    (json : Json) (h : Host)
    → classify_lifecycle_state json h ≡ ok pristine
    → All (λ p. object_at h p ≡ absent) unmarked_paths
      × (h.layout ≡ absent)
      × (h.strange_bootstraps ≡ [])
      × All (λ b. bootstrap_at b h ≡ absent) bootstraps
      × All (λ n. h.user n ≡ unknown) user_names
      × All (λ n. h.group n ≡ unknown) group_names
unfolding classify_lifecycle_state inspect_bootstrap
classify_lifecycle_state-pristine json h e =
    let (a0, b0, e0) = >>=-eq-ok (checked (validate_root_dir mode_755 h.var)) _ e in
    let (a1, b1, e1) = >>=-eq-ok (checked (validate_root_dir mode_755 h.var_lib)) _ e0 in
    let (b, b2, e2) = >>=-eq-ok (inspect_bootstrap h) _ e1 in
    let (u, b3, e3) = >>=-eq-ok (no_strange h.strange_bootstraps) _ b2 in
    let (missing, e4) = by_bootstrap json h b e2 in
    let (layout, e5) = by_layout json h h.layout e4 in
    let (paths, users, groups) = unmarked_clean json h e5 in
    let (first, boots) = no_bootstrap h none bootstraps (e3 ∙ ap ok missing) in
    (paths, layout, strange_none h.strange_bootstraps b3, boots, users, groups)
