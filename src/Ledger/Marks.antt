-- ===== src/Ledger/Marks.antt =====
-- What the updates of the install ledger do to the recorded keys and to the cache decision.
use virtual_private_node.Base.{
  String, ◌≡◌, refl, ap, sym, Bool, true, false, not, ◌&&◌, ◌||◌, Option, none, some, List, [], ◌∷◌,
  str_eq, eq_iff, Result, ok, err, >>=-eq-ok, guard-eq-ok, ok-injective, inl, inr, Bool-cases,
  arith, Member,
}
use virtual_private_node.Base.Text.{Text, is_empty, trim_space}
use virtual_private_node.Base.Int.{ℤ, eqb_ℤ, pos, negsuc}
use virtual_private_node.Ledger.{
  InstallLedger, LedgerEntry, LedgerError, Steps, entries, keys_of, has_key, base_install_step_keys,
  done, put, mark_done, mark_complete, all_done, all_base_steps_done, set_db_cache, valid_db_cache,
  unknown_step, empty_version, bad_cache, assign, check_recorded,
}

or_twice : (a b : Bool) → (a || b) ≡ ((a || b) || a)
or_twice true b = refl
or_twice false true = refl
or_twice false false = refl

or_assoc : (a b c : Bool) → (a || (b || c)) ≡ ((a || b) || c)
or_assoc true b c = refl
or_assoc false b c = refl

pub has_key-put :
    (key : String) (e : LedgerEntry) (steps : Steps) (k : String)
    → has_key (keys_of (put key e steps)) k ≡ (has_key (keys_of steps) k || str_eq key k)
unfolding put
has_key-put key e [] k = elim (Bool-cases (str_eq key k)) [ inl h ↦ rw h refl | inr h ↦ rw h refl ]
has_key-put key e ((j, f) ∷ steps) k =
    let rest : has_key (keys_of (put key e steps)) k ≡ (has_key (keys_of steps) k || str_eq key k) =
      has_key-put key e steps k in
    elim (Bool-cases (str_eq j key)) [
      | inl h ↦
          let same : j ≡ key = (eq_iff j key).0 h in
          rw (h, same) (or_twice (str_eq key k) (has_key (keys_of steps) k))
      | inr h ↦ rw (h, rest) (or_assoc (str_eq j k) (has_key (keys_of steps) k) (str_eq key k))
    ]

assigned :
    (key : String) (e : LedgerEntry) (o : Option Steps) (steps : Steps)
    → assign key e o ≡ ok steps
    → (k : String) → has_key (keys_of steps) k ≡ (has_key (keys_of (entries o)) k || str_eq key k)
unfolding assign
assigned key e none steps h k = cc
assigned key e (some s) steps h k = rw (← (ok-injective h)) (has_key-put key e s k)

-- When a step is recorded, exactly its key is added to the done ones, and the status and the
-- install context stay.
pub done-mark_done :
    (key : String) (version now : Text) (l l' : InstallLedger)
    → mark_done key version now l ≡ ok l'
    → ((k : String) → done l' k ≡ (done l k || str_eq key k))
      × (l'.status ≡ l.status)
      × (l'.context ≡ l.context)
unfolding mark_done done
done-mark_done key version now l l' h =
    let known = guard-eq-ok (has_key base_install_step_keys key) (unknown_step key) _ h in
    let named = guard-eq-ok (not (is_empty (trim_space version))) (empty_version key) _ known.1 in
    let (steps, e, last) =
      >>=-eq-ok (assign key (record { completed_at = now; version = version }) l.steps) _ named.1 in
    let same : record l { steps = some steps } ≡ l' = ok-injective last in
    rw (← same)
      (assigned key (record { completed_at = now; version = version }) l.steps steps e, refl, refl)

eqb_sound : (a b : ℤ) → eqb_ℤ a b ≡ true → a ≡ b
eqb_sound (pos a) (pos b) h = let e : a ≡ b = ground arith in ap pos e
eqb_sound (pos a) (negsuc b) h = ground arith
eqb_sound (negsuc a) (pos b) h = ground arith
eqb_sound (negsuc a) (negsuc b) h = let e : a ≡ b = ground arith in ap negsuc e

kept : (v old : ℤ) (u : Unit {0}) → check_recorded v (some old) ≡ ok u → old ≡ v
kept v old u h = elim (Bool-cases (eqb_ℤ old v)) [
  | inl e ↦ eqb_sound old v e
  | inr e ↦ ground arith
]

-- After a successful call the cache decision is the value given, which is an allowed one; a
-- decision recorded before is that same value, and the steps and the status stay.
pub set_db_cache_once :
    (v : ℤ) (l l' : InstallLedger)
    → set_db_cache v l ≡ ok l'
    → (l'.context.db_cache_mb ≡ some v)
      × ((old : ℤ) → l.context.db_cache_mb ≡ some old → old ≡ v)
      × (valid_db_cache v ≡ true)
      × (l'.steps ≡ l.steps)
      × (l'.status ≡ l.status)
unfolding set_db_cache
set_db_cache_once v l l' h =
    let valid = guard-eq-ok (valid_db_cache v) (bad_cache v) _ h in
    let (u, e, last) = >>=-eq-ok (check_recorded v l.context.db_cache_mb) _ valid.1 in
    let same : record l { context = record l.context { db_cache_mb = some v } } ≡ l' =
      ok-injective last in
    rw (← same) (refl, λ old p. kept v old u (rw p at e), valid.0, refl, refl)

all_done-Member :
    (l : InstallLedger) (keys : List String)
    → all_done l keys ≡ true
    → (key : String) → Member key keys
    → done l key ≡ true
all_done-Member l [] h key m = absurd m
all_done-Member l (k ∷ keys) h key (inl e) = rw (← e) (ground arith)
all_done-Member l (k ∷ keys) h key (inr m) = all_done-Member l keys (ground arith) key m

both : (a b : Bool) → (a && b) ≡ true → b ≡ true
both a b h = ground arith

refused :
    {e : LedgerError} {l : InstallLedger}
    → ◌≡◌ {A = Result LedgerError InstallLedger} (err e) (ok l)
    → ⊥
refused h = cc

-- The lifecycle is completed only when every base step is recorded, and then nothing but the status changes.
pub mark_complete_sound :
    (l l' : InstallLedger)
    → mark_complete l ≡ ok l'
    → ((key : String) → Member key base_install_step_keys → done l key ≡ true)
      × (l' ≡ record l { status = "complete" })
unfolding mark_complete all_base_steps_done
mark_complete_sound l l' h = elim (Bool-cases (all_base_steps_done l)) [
  | inl e ↦ (
    λ key m. all_done-Member l base_install_step_keys (both _ _ e) key m,
    sym (ok-injective (rw e at h)),
  )
  | inr e ↦ absurd (refused (rw e at h))
]
