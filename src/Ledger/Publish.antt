-- ===== src/Ledger/Publish.antt =====
-- Publication of the install ledger (save of internal/installer/ledger.go) on a disk whose calls can
-- fail: the published file, and the temporary files beside it.
use virtual_private_node.Base.{
  Bool, Option, none, some, List, [], ◌∷◌, ◌++◌, Result, ok, err, ℕ, if◌then◌else◌, take,
}
use virtual_private_node.Base.Text.{Text}
use virtual_private_node.Ledger.{InstallLedger, LedgerError, validate_ledger}

pub record Disk : Type 0 where
  pub file : Option Text
  pub temps : List Text

-- Which calls of one publication fail; a write that fails leaves the first bytes of the data.
pub record Faults : Type 0 where
  pub create : Bool
  pub chmod : Bool
  pub write : Option ℕ
  pub sync : Bool
  pub close : Bool
  pub rename : Bool
  pub open_dir : Bool
  pub sync_dir : Bool
  pub close_dir : Bool
  pub remove : Bool

pub data SaveError : Type 0 where
  invalid : LedgerError → SaveError
  not_encoded not_created not_chmod not_written not_synced not_closed not_renamed : SaveError
  dir_not_opened dir_not_synced dir_not_closed : SaveError

abbrev pub Saved : Type 0
Saved = Result SaveError (Unit {0}) × Disk

-- The deferred function on an error before the rename: the temporary file is removed, or stays.
unfoldable pub abandon : Faults → SaveError → Text → Disk → Saved
abandon f e temp d = (err e, if f.remove then record d { temps = temp ∷ d.temps } else d)

-- The calls after the rename; the temporary name is gone, so removing it does nothing.
unfoldable pub sync_directory : Faults → Disk → Saved
sync_directory f d =
    if f.open_dir
    then (err dir_not_opened, d)
    else if f.sync_dir
    then (err dir_not_synced, d)
    else if f.close_dir
    then (err dir_not_closed, d)
    else (ok tt, d)

unfoldable pub publish : Faults → Text → Disk → Saved
unfolding abandon sync_directory
publish f content d =
    if f.create
    then (err not_created, d)
    else if f.chmod
    then abandon f not_chmod [] d
    else elim f.write [
      | some n ↦ abandon f not_written (take n content) d
      | none ↦
          if f.sync
          then abandon f not_synced content d
          else if f.close
          then abandon f not_closed content d
          else if f.rename
          then abandon f not_renamed content d
          else sync_directory f (record d { file = some content })
    ]

-- `encode` is json.MarshalIndent.
unfoldable pub save : (InstallLedger → Option Text) → Faults → InstallLedger → Disk → Saved
save encode f l d = elim (validate_ledger l) [
  | err e ↦ (err (invalid e), d)
  | ok u ↦ elim (encode l) [
    | none ↦ (err not_encoded, d)
    | some bytes ↦ publish f (bytes ++ (b'\n' ∷ [])) d
  ]
]
