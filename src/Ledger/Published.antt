-- ===== src/Ledger/Published.antt =====
-- What one publication of the install ledger leaves on the disk.
use virtual_private_node.Base.{
  Option, none, some, [], ◌∷◌, ◌++◌, ok, err, ◌≡◌, refl, ◌⊎◌, inl, inr, Option-cases, Result-cases,
  arith,
}
use virtual_private_node.Base.Text.{Text}
use virtual_private_node.Ledger.{InstallLedger, LedgerError, validate_ledger}
use virtual_private_node.Ledger.Publish.{
  Disk, Faults, SaveError, Saved, abandon, sync_directory, publish, save, invalid, not_encoded,
}

-- The published file is the old one or the whole new one; on success it is the new one and no
-- temporary file is left.
abbrev pub Atomic : Text → Disk → Saved → Type 0
Atomic new d r =
    ((r.1.file ≡ d.file) ⊎ (r.1.file ≡ some new))
    × (r.0 ≡ ok tt → (r.1.file ≡ some new) × (r.1.temps ≡ d.temps))

publish_lem : (f : Faults) (new : Text) (d : Disk) → Atomic new d (publish f new d)
unfolding publish abandon sync_directory
publish_lem f new d = ground arith

-- `new` is the text that a save of a valid ledger writes.
abbrev pub Encodes : (InstallLedger → Option Text) → InstallLedger → Text → Type 0
Encodes encode l new =
    (validate_ledger l ≡ ok tt)
    × ((bytes : Text) × (encode l ≡ some bytes) × (new ≡ bytes ++ (b'\n' ∷ [])))

abbrev pub SavedAtomically : (InstallLedger → Option Text) → InstallLedger → Disk → Saved → Type 0
SavedAtomically encode l d r =
    ((r.1.file ≡ d.file) ⊎ ((new : Text) × Encodes encode l new × (r.1.file ≡ some new)))
    × (r.0 ≡ ok tt
        → (new : Text) × Encodes encode l new × (r.1.file ≡ some new) × (r.1.temps ≡ d.temps))

save-written :
    (encode : InstallLedger → Option Text) (f : Faults) (l : InstallLedger) (d : Disk)
    (bytes : Text)
    → validate_ledger l ≡ ok tt
    → encode l ≡ some bytes
    → save encode f l d ≡ publish f (bytes ++ (b'\n' ∷ [])) d
unfolding save
save-written encode f l d bytes h n = rw (save, h, n) refl

save-refused :
    (encode : InstallLedger → Option Text) (f : Faults) (l : InstallLedger) (d : Disk)
    → ((e : LedgerError) × (validate_ledger l ≡ err e)) ⊎ (encode l ≡ none)
    → (e : SaveError) × (save encode f l d ≡ (err e, d))
unfolding save
save-refused encode f l d (inl (e, h)) = (invalid e, rw (save, h) refl)
save-refused encode f l d (inr n) = elim (Result-cases (validate_ledger l)) [
  | err (e, h) ↦ (invalid e, rw (save, h) refl)
  | ok (u, h) ↦ (not_encoded, rw (save, h, n) refl)
]

nothing :
    (encode : InstallLedger → Option Text) (l : InstallLedger) (d : Disk) (r : Saved)
    → ((e : SaveError) × (r ≡ (err e, d)))
    → SavedAtomically encode l d r
nothing encode l d r (e, same) = rw same (inl refl, λ h. cc)

-- Saving a ledger is atomic for every combination of failing calls: the published file is the old one,
-- or the whole encoding of the ledger, which passes validation; success means that it is the encoding
-- and that no temporary file was left.
pub save-SavedAtomically :
    (encode : InstallLedger → Option Text) (f : Faults) (l : InstallLedger) (d : Disk)
    → SavedAtomically encode l d (save encode f l d)
save-SavedAtomically encode f l d = elim (Result-cases (validate_ledger l)) [
  | err w ↦ nothing encode l d (save encode f l d) (save-refused encode f l d (inl w))
  | ok (u, h) ↦ elim (Option-cases (encode l)) [
    | inl n ↦ nothing encode l d (save encode f l d) (save-refused encode f l d (inr n))
    | inr (bytes, n) ↦
        let at : Atomic (bytes ++ (b'\n' ∷ [])) d (publish f (bytes ++ (b'\n' ∷ [])) d) =
          publish_lem f (bytes ++ (b'\n' ∷ [])) d in
        let new : Encodes encode l (bytes ++ (b'\n' ∷ [])) = (h, (bytes, n, refl)) in
        rw (save-written encode f l d bytes h n) (
          elim at.0 [
            | inl same ↦ inl same
            | inr written ↦ inr (bytes ++ (b'\n' ∷ []), new, written)
          ],
          λ good. (bytes ++ (b'\n' ∷ []), new, (at.1 good).0, (at.1 good).1),
        )
  ]
]
