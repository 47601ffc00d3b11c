-- ===== src/Lifecycle/Pristine.antt =====
-- The class of a pristine host, for its paths and names (classifyUnmarkedLifecycle of
-- internal/installer/lifecycle.go).
use virtual_private_node.Base.{
  String, ◌≡◌, refl, sym, ap, ◌∙◌, Bool, true, false, none, List, [], ◌∷◌, ◌++◌, Result, ok, err,
  All, All_weaken, ◌⊎◌, inl, inr, Bool-cases, >>=-eq-ok, ok-injective, guard-eq-ok, str_eq, eq_iff,
  if◌then◌else◌, Result-cases,
}
use virtual_private_node.Ledger.{has_key}
use virtual_private_node.Ledger.Parse.{Json}
use virtual_private_node.Lifecycle.{
  Host, pristine, Lookup, known, unknown, failed, unmarked_paths, object_at, existing_paths,
  identities, identity_present, classify_lifecycle_state, classify_unmarked, inspect_bootstrap,
  find_bootstrap, existing_lifecycle_identities, classify_found, no_strange, nothing, checked,
  user_names, group_names, unmarked_state,
}
use virtual_private_node.Lifecycle.Objects.{
  Object, absent, blocked, present, ObjectError, validate_root_dir, mode_755, path_exists,
}
use virtual_private_node.Lifecycle.Shape.{IsClean, empty_tree}

-- An extra first element shows.
shown :
    (b : Bool) (p : String) (found : List String)
    → (if b then p ∷ found else found) ≡ []
    → (b ≡ false) × (found ≡ [])
shown true p found e = absurd cc
shown false p found e = (refl, e)

pub object_absent : (o : Object) → path_exists o ≡ ok false → o ≡ absent
object_absent absent e = refl
object_absent blocked e = absurd cc
object_absent (present n) e = absurd cc

name_unknown : (l : Lookup) → identity_present l ≡ ok false → l ≡ unknown
name_unknown known e = absurd cc
name_unknown unknown e = refl
name_unknown failed e = absurd cc

unknown-identities :
    (find : String → Lookup) (names : List String)
    → identities find names ≡ ok []
    → All (λ n. find n ≡ unknown) names
unfolding identities
unknown-identities find [] e = tt
unknown-identities find (n ∷ names) e =
    let (here, eh, e1) = >>=-eq-ok (identity_present (find n)) _ e in
    let (found, ef, e2) = >>=-eq-ok (identities find names) _ e1 in
    let (gone, empty) = shown here n found (ok-injective e2) in
    (name_unknown (find n) (eh ∙ ap ok gone), unknown-identities find names (ef ∙ ap ok empty))

or_this :
    (at : String → Object) (p : String) (seen : List String)
    → path_exists (at p) ≡ ok false
    → (q : String) → (has_key (p ∷ seen) q ≡ true) ⊎ (at q ≡ absent)
    → (has_key seen q ≡ true) ⊎ (at q ≡ absent)
or_this at p seen e q (inr gone) = inr gone
or_this at p seen e q (inl old) = elim (Bool-cases (str_eq p q)) [
  | inl same ↦ inr (rw (sym ((eq_iff p q).0 same)) (object_absent (at p) e))
  | inr differs ↦ inl (rw (has_key, differs) at old)
]

pub failed_not_ok :
    {A : Type 0} (f : ObjectError) {a : A} → ◌≡◌ {A = Result ObjectError A} (err f) (ok a) → ⊥
failed_not_ok f e = cc

-- A path is one of those skipped, or nothing is there.
skipped_or_absent :
    (at : String → Object) (seen paths : List String)
    → existing_paths at seen paths ≡ ok []
    → All (λ p. (has_key seen p ≡ true) ⊎ (at p ≡ absent)) paths
unfolding existing_paths
skipped_or_absent at seen [] e = tt
skipped_or_absent at seen (p ∷ paths) e = elim (Bool-cases (has_key seen p)) [
  | inl old ↦ (inl old, skipped_or_absent at seen paths (rw (existing_paths, old) at e))
  | inr new ↦ elim (Result-cases (path_exists (at p))) [
    | err (f, ef) ↦ absurd (failed_not_ok f (rw (existing_paths, new, ef) at e))
    | ok (here, eh) ↦
        let (found, ef, e2) =
          >>=-eq-ok (existing_paths at (p ∷ seen) paths)
            (λ found. ok (if here then p ∷ found else found)) (rw (existing_paths, new, eh) at e) in
        let (gone, empty) = shown here p found (ok-injective e2) in
        (
          inr (object_absent (at p) (eh ∙ ap ok gone)),
          All_weaken (or_this at p seen (eh ∙ ap ok gone)) paths
              (skipped_or_absent at (p ∷ seen) paths (ef ∙ ap ok empty)),
        )
  ]
]

first_absent :
    (at : String → Object) (q : String) → (has_key [] q ≡ true) ⊎ (at q ≡ absent) → at q ≡ absent
first_absent at q (inl old) = absurd cc
first_absent at q (inr gone) = gone

pub checked_ok : {A : Type 0} (r : Result ObjectError A) {a : A} → checked r ≡ ok a → r ≡ ok a
checked_ok (ok b) e = ap ok (ok-injective e)
checked_ok (err f) e = cc

pub strange_none : (names : List String) → no_strange names ≡ ok tt → names ≡ []
strange_none [] e = refl
strange_none (n ∷ names) e = absurd cc

nothing_empty : (names : List String) → nothing names ≡ true → names ≡ []
nothing_empty [] e = refl
nothing_empty (n ∷ names) e = absurd cc

both_empty : (xs ys : List String) → xs ++ ys ≡ [] → (xs ≡ []) × (ys ≡ [])
both_empty [] ys e = (refl, e)
both_empty (x ∷ xs) ys e = absurd cc

pub unmarked_clean :
    (json : Json) (h : Host)
    → classify_unmarked json h ≡ ok pristine
    → All (λ p. object_at h p ≡ absent) unmarked_paths
      × All (λ n. h.user n ≡ unknown) user_names
      × All (λ n. h.group n ≡ unknown) group_names
unfolding classify_unmarked existing_lifecycle_identities
unmarked_clean json h e =
    let (found, ef, e1) =
      >>=-eq-ok (checked (existing_paths (object_at h) [] unmarked_paths)) _ e in
    let (names, en, e2) = >>=-eq-ok (existing_lifecycle_identities h) _ e1 in
    let (users, eu, e3) = >>=-eq-ok (identities h.user user_names) _ en in
    let (groups, eg, e4) = >>=-eq-ok (identities h.group group_names) _ e3 in
    let all =
      nothing_empty (found ++ names)
        (guard-eq-ok (nothing (found ++ names)) unmarked_state (ok pristine) e2).0 in
    let (no_paths, no_names) = both_empty found names all in
    let (no_users, no_groups) = both_empty users groups (ok-injective e4 ∙ no_names) in
    let gone = All_weaken (first_absent (object_at h)) unmarked_paths (
      skipped_or_absent (object_at h) [] unmarked_paths
        (checked_ok (existing_paths (object_at h) [] unmarked_paths) ef ∙ ap ok no_paths)) in
    (
      gone,
      unknown-identities h.user user_names (eu ∙ ap ok no_users),
      unknown-identities h.group group_names (eg ∙ ap ok no_groups),
    )

-- Conversely to classify-empty.
pub pristine-IsClean :
    (json : Json) (h : Host)
    → classify_lifecycle_state json (empty_tree h) ≡ ok pristine
    → IsClean h
unfolding classify_lifecycle_state inspect_bootstrap find_bootstrap
pristine-IsClean json h e =
    let (above, ea, e1) = >>=-eq-ok (checked (validate_root_dir mode_755 h.var)) _ e in
    let (parent, ep, e2) = >>=-eq-ok (checked (validate_root_dir mode_755 h.var_lib)) _ e1 in
    let (b, eb, e3) = >>=-eq-ok (inspect_bootstrap (empty_tree h)) _ e2 in
    let (u, es, e4) = >>=-eq-ok (no_strange h.strange_bootstraps) _ eb in
    let none_found : none ≡ b = ok-injective e4 in
    let (paths, users, groups) =
      unmarked_clean json (empty_tree h)
        (ap (classify_found json (empty_tree h)) none_found ∙ e3) in
    record {
      above = checked_ok (validate_root_dir mode_755 h.var) ea;
      parent = checked_ok (validate_root_dir mode_755 h.var_lib) ep;
      no_strange = strange_none h.strange_bootstraps es;
      paths = paths.1;
      users = users;
      groups = groups;
    }
