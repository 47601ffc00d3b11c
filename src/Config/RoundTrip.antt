-- ===== src/Config/RoundTrip.antt =====
-- Save and then Load of internal/config/config.go.
use virtual_private_node.Base.{
  ℕ, String, ◌≡◌, refl, sym, ap, ◌∙◌, true, false, not, some, List, [], ◌∷◌, ◌++◌, Result, ok, err,
  >>=-eq-ok, guard-eq-ok, ==_refl, ok-injective,
}
use virtual_private_node.Base.Text.{Text}
use virtual_private_node.Lifecycle.Objects.{
  Object, Node, present, Kind, directory, regular, symlink, special, is_directory,
}
use virtual_private_node.Config.{
  AppConfig, ConfigJson, StoreError, Files, inspected, owned_by, dir_mode, system_fields,
  decode_object, validate_object, wrong_kind, wrong_owner, not_chmodded, is_symlink_kind,
}
use virtual_private_node.Config.Save.{Faults, check_dir, published}

-- The JSON library writes the configuration so that its fields are found, and read back.
pub record WritesConfig (json : ConfigJson) (c : AppConfig) : Type 0 where
  pub bytes : Text
  pub names : List String
  pub marshals : json.marshal c ≡ some bytes
  pub fields : decode_object json system_fields (bytes ++ (b'\n' ∷ [])) ≡ ok names
  pub unmarshals : json.unmarshal (bytes ++ (b'\n' ∷ [])) ≡ some c

-- The directory is real, and has its owner.
abbrev pub IsOwnDir : ℕ → ℕ → Node → Type 0
IsOwnDir uid gid n = (is_directory n.kind ≡ true) × (owned_by uid gid n ≡ true)

pub no_error :
    {A : Type 0} {e : StoreError} → ◌≡◌ {A = Result StoreError (Unit {0})} (err e) (ok tt) → A
no_error h = absurd cc

pub dir-ok :
    (f : Faults) (uid gid : ℕ) (o : Object) (n : Node)
    → check_dir f uid gid o ≡ ok n
    → IsOwnDir uid gid n
unfolding check_dir
dir-ok f uid gid o n e =
    let (m, e0, e1) = >>=-eq-ok (inspected o) _ e in
    let (kind, e2) = guard-eq-ok (is_directory m.kind) wrong_kind _ e1 in
    let (owner, e3) = guard-eq-ok (owned_by uid gid m) wrong_owner _ e2 in
    let (changed, e4) = guard-eq-ok (not f.chmod_dir) not_chmodded _ e3 in
    let same : m ≡ n = ok-injective e4 in
    (ap (λ k. is_directory k.kind) (sym same) ∙ kind, ap (owned_by uid gid) (sym same) ∙ owner)

no_symlink : (k : Kind) → is_directory k ≡ true → is_symlink_kind k ≡ false
no_symlink regular e = absurd cc
no_symlink directory e = refl
no_symlink symlink e = absurd cc
no_symlink special e = absurd cc

pub dir_loads :
    (mode uid gid : ℕ) (n : Node)
    → IsOwnDir uid gid n
    → validate_object (present (record n { mode = mode })) true mode uid gid ≡ ok tt
unfolding validate_object
dir_loads mode uid gid n own =
    rw (validate_object, no_symlink n.kind own.0, own.0, own.1, ==_refl mode) refl

module _ (json : ConfigJson) (c : AppConfig) (w : WritesConfig json c) where
  abbrev bytes : Text
  bytes = w.bytes ++ (b'\n' ∷ [])

  Replaced : ℕ → ℕ → Files → Type 0
  Replaced uid gid d =
      (n : Node) × IsOwnDir uid gid n
      × (d.dir ≡ present (record n { mode = dir_mode }))
      × (d.file ≡ present (published uid gid bytes))
