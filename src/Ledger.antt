-- ===== src/Ledger.antt =====
-- The install ledger: its data, its validation and its updates (internal/installer/ledger.go). A Go
-- map is the list of its entries, one for each key; `none` is a nil map.
mod Timestamp
pub mod Marks
pub mod Publish
pub mod Keys
pub mod Value
pub mod Unique
pub mod Parse
pub mod Published
unfoldable pub use Timestamp.{parses_rfc3339}
use virtual_private_node.Base.{
  ℕ, zero, suc, ◌+◌, String, ◌≡◌, Bool, true, false, not, ◌&&◌, ◌||◌, Option, none, some, List, [],
  ◌∷◌, ◌++◌, map, ◌==◌, if◌then◌else◌, str_eq, length, take, Result, ok, err, ◌>>=◌, ◌>>◌, guard,
}
use virtual_private_node.Base.Int.{ℤ, pos, eqb_ℤ, ltb_ℤ}
use virtual_private_node.Base.Text.{Text, is_empty, trim_space}
use virtual_private_node.Network.{validate_network}

abbrev pub base_install_step_keys : List String
base_install_step_keys =
    "binary.install" ∷ "apt.base" ∷ "firewall" ∷ "base.upgrade" ∷ "host.prep" ∷ "identity.access"
    ∷ "service-identities.v1" ∷ "ipv6.disable" ∷ "tor.configure" ∷ "tor.gate" ∷ "apt.torproxy"
    ∷ "btc.download" ∷ "btc.verify" ∷ "btc.install" ∷ "btc.start" ∷ "security" ∷ "lnd.download"
    ∷ "lnd.verify" ∷ "lnd.install" ∷ "tor.lnd" ∷ "lnd.configure" ∷ "lnd.start" ∷ "lnd.tls-san"
    ∷ "lnd.certwatch" ∷ "ssh.harden" ∷ "journal.access" ∷ "helper.enable" ∷ "state.stage"
    ∷ "shellenv" ∷ []

abbrev pub bake_install_step_keys : List String
bake_install_step_keys =
    "binary.install" ∷ "apt.base" ∷ "firewall" ∷ "base.upgrade" ∷ "host.prep"
    ∷ "service-identities.v1" ∷ "ipv6.disable" ∷ "tor.configure" ∷ "tor.gate" ∷ "apt.torproxy"
    ∷ "btc.download" ∷ "btc.verify" ∷ "btc.install" ∷ "btc.start" ∷ "security" ∷ "lnd.download"
    ∷ "lnd.verify" ∷ "lnd.install" ∷ "tor.lnd" ∷ "lnd.configure" ∷ "lnd.start" ∷ "lnd.tls-san"
    ∷ "lnd.certwatch" ∷ "shellenv" ∷ []

pub record LedgerEntry : Type 0 where
  pub completed_at : Text
  pub version : Text

pub record InstallContext : Type 0 where
  pub network : String
  pub initial_p2p_mode : String
  pub db_cache_mb : Option ℤ

abbrev pub Steps : Type 0
Steps = List (String × LedgerEntry)

pub record InstallLedger : Type 0 where
  pub schema : ℤ
  pub status : String
  pub context : InstallContext
  pub steps : Option Steps

-- `nil_map` is the panic of a write into a nil map.
pub data LedgerError : Type 0 where
  newer_schema wrong_schema bad_status bad_network bad_mode no_steps : LedgerError
  bad_cache : ℤ → LedgerError
  unknown_step empty_version bad_time : String → LedgerError
  no_cache_decision unreachable incomplete nil_map : LedgerError
  cache_recorded : ℤ → ℤ → LedgerError

abbrev pub valid_db_cache : ℤ → Bool
valid_db_cache v = eqb_ℤ v (pos 512) || eqb_ℤ v (pos 1024) || eqb_ℤ v (pos 2048)

abbrev pub has_key : List String → String → Bool
has_key [] key = false
has_key (k ∷ keys) key = str_eq k key || has_key keys key

abbrev pub keys_of : Steps → List String
keys_of [] = []
keys_of ((k, e) ∷ steps) = k ∷ keys_of steps

-- Reading a nil map gives no entries.
abbrev pub entries : Option Steps → Steps
entries none = []
entries (some steps) = steps

unfoldable pub done : InstallLedger → String → Bool
done l key = has_key (keys_of (entries l.steps)) key

abbrev pub all_done : InstallLedger → List String → Bool
all_done l [] = true
all_done l (key ∷ keys) = done l key && all_done l keys

unfoldable pub all_base_steps_done : InstallLedger → Bool
unfolding done
all_base_steps_done l =
    (length (entries l.steps) == length base_install_step_keys) && all_done l base_install_step_keys

-- set[key] = true, for each key of a list.
unfoldable pub add_keys : List String → List String → List String
add_keys [] set = set
add_keys (key ∷ keys) set = add_keys keys (if has_key set key then set else key ∷ set)

abbrev pub all_in : List String → List String → Bool
all_in [] b = true
all_in (key ∷ a) b = has_key b key && all_in a b

unfoldable pub same_step_set : List String → List String → Bool
same_step_set a b = (length a == length b) && all_in a b

unfoldable pub candidate : ℕ → ℕ → List String
unfolding add_keys
candidate full bake =
    add_keys (take bake bake_install_step_keys) (add_keys (take full base_install_step_keys) [])

-- `for i := start; i <= start + rounds; i++ { if test(i) { return true } }`
unfoldable pub exists_from : ℕ → ℕ → (ℕ → Bool) → Bool
exists_from zero i test = test i
exists_from (suc rounds) i test = elim (test i) [
  | true ↦ true
  | false ↦ exists_from rounds (i + 1) test
]

unfoldable pub valid_install_progress_subset : List String → Bool
unfolding candidate same_step_set exists_from
valid_install_progress_subset want = exists_from (length base_install_step_keys) 0 λ full.
    exists_from (length bake_install_step_keys) 0 λ bake. same_step_set (candidate full bake) want

-- The loop over the entries.
unfoldable pub validate_entries : Steps → Result LedgerError (Unit {0})
unfolding parses_rfc3339
validate_entries [] = ok tt
validate_entries ((key, entry) ∷ steps) = do
  guard (has_key base_install_step_keys key) (unknown_step key)
  guard (not (is_empty (trim_space entry.version))) (empty_version key)
  guard (parses_rfc3339 entry.completed_at) (bad_time key)
  validate_entries steps

abbrev pub check_schema : ℤ → Result LedgerError (Unit {0})
check_schema schema =
    if eqb_ℤ schema (pos 1)
    then ok tt
    else err (if ltb_ℤ (pos 1) schema then newer_schema else wrong_schema)

abbrev pub check_network : String → Result LedgerError (Unit {0})
check_network network = elim (validate_network network) [ ok u ↦ ok tt | err e ↦ err bad_network ]

abbrev pub check_cache : Option ℤ → Result LedgerError (Unit {0})
check_cache none = ok tt
check_cache (some v) = if valid_db_cache v then ok tt else err (bad_cache v)

abbrev pub check_steps : Option Steps → Result LedgerError Steps
check_steps none = err no_steps
check_steps (some steps) = ok steps

-- No entry may be recorded before the cache is decided.
abbrev pub cache_decided : Steps → Option ℤ → Bool
cache_decided [] cache = true
cache_decided (e ∷ steps) none = false
cache_decided (e ∷ steps) (some v) = true

unfoldable pub validate_ledger : InstallLedger → Result LedgerError (Unit {0})
unfolding validate_entries valid_install_progress_subset all_base_steps_done validate_network
validate_ledger l = do
  check_schema l.schema
  guard (str_eq l.status "in_progress" || str_eq l.status "complete") bad_status
  check_network l.context.network
  guard (str_eq l.context.initial_p2p_mode "tor" || str_eq l.context.initial_p2p_mode "hybrid")
      bad_mode
  check_cache l.context.db_cache_mb
  steps ← check_steps l.steps
  validate_entries steps
  guard (cache_decided steps l.context.db_cache_mb) no_cache_decision
  guard (valid_install_progress_subset (keys_of steps)) unreachable
  guard (not (str_eq l.status "complete") || all_base_steps_done l) incomplete

abbrev pub fresh_ledger : InstallContext → InstallLedger
fresh_ledger context = record {
  schema = pos 1;
  status = "in_progress";
  context = context;
  steps = some [];
}

unfoldable pub new_ledger : InstallContext → Result LedgerError InstallLedger
unfolding validate_ledger
new_ledger context = do validate_ledger (fresh_ledger context); ok (fresh_ledger context)

-- m[key] = entry
unfoldable pub put : String → LedgerEntry → Steps → Steps
put key entry [] = (key, entry) ∷ []
put key entry ((k, e) ∷ steps) =
    if str_eq k key then (k, entry) ∷ steps else (k, e) ∷ put key entry steps

-- m[key] = entry, which panics on a nil map.
unfoldable pub assign : String → LedgerEntry → Option Steps → Result LedgerError Steps
unfolding put
assign key entry none = err nil_map
assign key entry (some steps) = ok (put key entry steps)

-- `now` is the current time in the layout of RFC 3339.
unfoldable pub mark_done : String → Text → Text → InstallLedger → Result LedgerError InstallLedger
unfolding assign
mark_done key version now l = do
  guard (has_key base_install_step_keys key) (unknown_step key)
  guard (not (is_empty (trim_space version))) (empty_version key)
  steps ← assign key (record { completed_at = now; version = version }) l.steps
  ok (record l { steps = some steps })

abbrev pub check_recorded : ℤ → Option ℤ → Result LedgerError (Unit {0})
check_recorded v none = ok tt
check_recorded v (some old) = if eqb_ℤ old v then ok tt else err (cache_recorded old v)

unfoldable pub set_db_cache : ℤ → InstallLedger → Result LedgerError InstallLedger
set_db_cache v l = do
  guard (valid_db_cache v) (bad_cache v)
  check_recorded v l.context.db_cache_mb
  ok (record l { context = record l.context { db_cache_mb = some v } })

unfoldable pub mark_complete : InstallLedger → Result LedgerError InstallLedger
unfolding all_base_steps_done
mark_complete l =
    if all_base_steps_done l then ok (record l { status = "complete" }) else err incomplete
