-- ===== src/Tests/Ledger.antt =====
-- The install ledger of internal/installer/ledger.go at concrete ledgers.
use virtual_private_node.Base.{◌↔◌}
use virtual_private_node.Ledger.Keys.{reject_duplicate_json_keys}
use virtual_private_node.Ledger.Value.{
  JsonValue, leaf, quoted, object, array, field, no_field, item, no_item, tokens_of, IsUnique,
}
use virtual_private_node.Ledger.Unique.{reject_duplicate_json_keys_iff}
use virtual_private_node.Base.{
  String, ◌≡◌, ◌||◌, refl, true, false, none, some, [], ◌∷◌, map, ok, str_eq, Member,
}
use virtual_private_node.Base.Int.{pos}
use virtual_private_node.Base.Text.{Text, codes, trim_space}
use virtual_private_node.Ledger.{
  InstallLedger, InstallContext, LedgerEntry, mark_done, mark_complete, set_db_cache, done,
  base_install_step_keys, fresh_ledger,
}
use virtual_private_node.Ledger.Marks.{done-mark_done, mark_complete_sound}
use virtual_private_node.Ledger.Publish.{Disk, Faults, save}
use virtual_private_node.Ledger.Published.{SavedAtomically, save-SavedAtomically}

abbrev pub now : Text
now = codes "2026-07-16T10:00:00Z"

abbrev pub version : Text
version = codes "1.2.0"

abbrev pub entry : LedgerEntry
entry = record { completed_at = now; version = version }

abbrev pub context : InstallContext
context = record { network = "mainnet"; initial_p2p_mode = "tor"; db_cache_mb = some (pos 512) }

abbrev pub first_step : InstallLedger
first_step = record (fresh_ledger context) { steps = some (("binary.install", entry) ∷ []) }

abbrev undecided : InstallLedger
undecided = fresh_ledger (record context { db_cache_mb = none })

abbrev finished : InstallLedger
finished = record (fresh_ledger context) {
  steps = some (map (λ key. (key, entry)) base_install_step_keys);
}

abbrev pub no_faults : Faults
no_faults = record {
  create = false;
  chmod = false;
  write = none;
  sync = false;
  close = false;
  rename = false;
  open_dir = false;
  sync_dir = false;
  close_dir = false;
  remove = false;
}

abbrev disk : Disk
disk = record { file = none; temps = [] }

marks : mark_done "binary.install" version now (fresh_ledger context) ≡ ok first_step
unfolding mark_done trim_space
marks = refl

decides : set_db_cache (pos 512) undecided ≡ ok (fresh_ledger context)
unfolding set_db_cache
decides = refl

completes : mark_complete finished ≡ ok (record finished { status = "complete" })
unfolding mark_complete
completes = refl

done-mark_done_example :
    ((k : String)
      → done first_step k ≡ (done (fresh_ledger context) k || str_eq "binary.install" k))
    × (first_step.status ≡ (fresh_ledger context).status)
    × (first_step.context ≡ (fresh_ledger context).context)
done-mark_done_example =
    done-mark_done "binary.install" version now (fresh_ledger context) first_step marks

mark_complete_sound_example :
    ((key : String) → Member key base_install_step_keys → done finished key ≡ true)
    × (record finished { status = "complete" } ≡ record finished { status = "complete" })
mark_complete_sound_example =
    mark_complete_sound finished (record finished { status = "complete" }) completes

save-SavedAtomically_example :
    SavedAtomically
      (λ l. some (codes "{}"))
      first_step
      disk
      (save (λ l. some (codes "{}")) (record no_faults { write = some 1 }) first_step disk)
save-SavedAtomically_example =
    save-SavedAtomically (λ l. some (codes "{}")) (record no_faults { write = some 1 }) first_step
      disk

-- {"schema": 1, "steps": {"binary.install": {"schema": null}}, "notes": ["a", "a"]}
abbrev sample : JsonValue
sample = object (
    field (codes "schema") leaf (
      field (codes "steps")
        (object
          (field (codes "binary.install") (object (field (codes "schema") leaf no_field)) no_field))
        (field (codes "notes")
          (array (item (quoted (codes "a")) (item (quoted (codes "a")) no_item))) no_field)))

reject_duplicate_json_keys_iff_example :
    (reject_duplicate_json_keys (tokens_of sample []) none ≡ ok tt) ↔ IsUnique sample
reject_duplicate_json_keys_iff_example = reject_duplicate_json_keys_iff sample
