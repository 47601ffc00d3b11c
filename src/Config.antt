-- ===== src/Config.antt =====
-- The system configuration file (internal/config/config.go): its validation, its decoding, and loading it
-- with the checks of the file's owner and mode. Package encoding/json is the parameter `ConfigJson`.
pub mod Save
pub mod RoundTrip
pub mod Whole
pub mod Preferences
pub mod Kept
use virtual_private_node.Base.{
  ℕ, String, Bool, true, false, not, ◌&&◌, ◌||◌, Option, none, some, List, [], ◌∷◌, Result, ok, err,
  ◌>>=◌, ◌>>◌, guard, str_eq, ◌==◌,
}
use virtual_private_node.Base.Int.{ℤ, pos, eqb_ℤ, leb_ℤ}
use virtual_private_node.Base.Text.{Text}
use virtual_private_node.Network.{validate_network}
use virtual_private_node.Lifecycle.Objects.{
  Object, Node, absent, blocked, present, Kind, regular, directory, symlink, special, is_regular,
  is_directory,
}

pub record AppConfig : Type 0 where
  pub schema : ℤ
  pub network : String
  pub prune_size : ℤ
  pub db_cache : ℤ
  pub p2p_mode : String
  pub auto_unlock : Bool
  pub syncthing_enabled : Bool

pub data ConfigError : Type 0 where
  bad_schema bad_network bad_prune_size bad_cache bad_mode bad_theme : ConfigError

abbrev pub default_config : AppConfig
default_config = record {
  schema = pos 1;
  network = "mainnet";
  prune_size = pos 25;
  db_cache = pos 512;
  p2p_mode = "tor";
  auto_unlock = false;
  syncthing_enabled = false;
}

abbrev pub known_network : String → Result ConfigError (Unit {0})
known_network name = elim (validate_network name) [ ok u ↦ ok tt | err e ↦ err bad_network ]

unfoldable pub validate : AppConfig → Result ConfigError (Unit {0})
validate c = do
  guard (eqb_ℤ c.schema (pos 1)) bad_schema
  known_network c.network
  guard (leb_ℤ (pos 1) c.prune_size && leb_ℤ c.prune_size (pos 10000)) bad_prune_size
  guard (eqb_ℤ c.db_cache (pos 512) || eqb_ℤ c.db_cache (pos 1024) || eqb_ℤ c.db_cache (pos 2048))
      bad_cache
  guard (str_eq c.p2p_mode "tor" || str_eq c.p2p_mode "hybrid") bad_mode

-- What the decoder finds where the next field of the object is to begin: an error, a token that is no
-- name, or a name, and whether a value follows it.
pub data Field : Type 0 where
  broken nameless : Field
  named : String → Bool → Field

-- What stands after the object's fields: an error, nothing, or another value.
pub data Trailer : Type 0 where
  broken_end : Trailer
  at_eof : Trailer
  another_value : Trailer

-- What the store uses of encoding/json: whether the first token opens an object, or fails; the fields;
-- what follows the object; Unmarshal and MarshalIndent.
pub record ConfigJson : Type 0 where
  pub opens : Text → Option Bool
  pub fields : Text → List Field
  pub closes : Text → Bool
  pub trailer : Text → Trailer
  pub unmarshal : Text → Option AppConfig
  pub marshal : AppConfig → Option Text

pub data StoreError : Type 0 where
  token not_object not_name unknown_field duplicate_field no_value not_closed second_value
        missing_field :
      StoreError
  not_unmarshalled : StoreError
  invalid : ConfigError → StoreError
  no_group missing not_inspected is_symlink wrong_kind wrong_mode wrong_owner not_read : StoreError
  not_root not_made not_chowned not_chmodded not_encoded : StoreError
  not_created not_written not_synced not_closed_file not_renamed not_opened_dir not_synced_dir :
      StoreError

abbrev pub system_fields : List String
system_fields =
    "schema" ∷ "network" ∷ "prune_size_gb" ∷ "db_cache_mb" ∷ "p2p_mode" ∷ "auto_unlock_enabled"
    ∷ "syncthing_enabled" ∷ []

abbrev pub has_name : List String → String → Bool
has_name [] name = false
has_name (n ∷ names) name = str_eq n name || has_name names name

-- The loop over the fields, with the names found.
unfoldable pub collect : List String → List String → List Field → Result StoreError (List String)
collect allowed found [] = ok found
collect allowed found (broken ∷ fields) = err token
collect allowed found (nameless ∷ fields) = err not_name
collect allowed found (named name value ∷ fields) =
    guard (has_name allowed name) unknown_field
    >> guard (not (has_name found name)) duplicate_field
    >> guard value no_value
    >> collect allowed (name ∷ found) fields

abbrev pub all_found : List String → List String → Bool
all_found [] found = true
all_found (name ∷ allowed) found = has_name found name && all_found allowed found

abbrev pub opened : Option Bool → Result StoreError (Unit {0})
opened none = err token
opened (some b) = guard b not_object

abbrev pub ended : Trailer → Result StoreError (Unit {0})
ended broken_end = err token
ended at_eof = ok tt
ended another_value = err second_value

unfoldable pub decode_object : ConfigJson → List String → Text → Result StoreError (List String)
decode_object json allowed content = do
  opened (json.opens content)
  found ← collect allowed [] (json.fields content)
  guard (json.closes content) not_closed
  ended (json.trailer content)
  guard (all_found allowed found) missing_field
  ok found

abbrev pub unmarshalled : Option AppConfig → Result StoreError AppConfig
unmarshalled none = err not_unmarshalled
unmarshalled (some c) = ok c

abbrev pub validated : Result ConfigError (Unit {0}) → Result StoreError (Unit {0})
validated (ok u) = ok tt
validated (err e) = err (invalid e)

unfoldable pub decode_system : ConfigJson → Text → Result StoreError AppConfig
decode_system json content = do
  found ← decode_object json system_fields content
  c ← unmarshalled (json.unmarshal content)
  validated (validate c)
  ok c

abbrev pub is_symlink_kind : Kind → Bool
is_symlink_kind symlink = true
is_symlink_kind _ = false

abbrev pub inspected : Object → Result StoreError Node
inspected absent = err missing
inspected blocked = err not_inspected
inspected (present n) = ok n

abbrev pub wanted_kind : Bool → Kind → Bool
wanted_kind true k = is_directory k
wanted_kind false k = is_regular k

abbrev pub owned_by : ℕ → ℕ → Node → Bool
owned_by uid gid n = (n.uid == uid) && (n.gid == gid)

unfoldable pub validate_object : Object → Bool → ℕ → ℕ → ℕ → Result StoreError (Unit {0})
validate_object o want_dir mode uid gid = do
  n ← inspected o
  guard (not (is_symlink_kind n.kind)) is_symlink
  guard (wanted_kind want_dir n.kind) wrong_kind
  guard (n.mode == mode) wrong_mode
  guard (owned_by uid gid n) wrong_owner

-- The group is looked up when its name is set; `group` is the answer of the lookup.
pub record Store : Type 0 where
  pub owner_uid : ℕ
  pub group_gid : ℕ
  pub named_group : Bool
  pub require_root_write : Bool

unfoldable pub ownership : Store → Option ℕ → Result StoreError (ℕ × ℕ)
ownership s group = elim s.named_group [
  | false ↦ ok (s.owner_uid, s.group_gid)
  | true ↦ elim group [ none ↦ err no_group | some gid ↦ ok (s.owner_uid, gid) ]
]

-- The directory and the file, with what a failed save leaves beside it.
pub record Files : Type 0 where
  pub dir : Object
  pub file : Object
  pub temp_left : Bool

-- 0o750 and 0o640.
abbrev pub dir_mode : ℕ
dir_mode = 488

abbrev pub file_mode : ℕ
file_mode = 416

abbrev pub content_of : Object → Result StoreError Text
content_of absent = err not_read
content_of blocked = err not_read
content_of (present n) = ok n.content

-- `readable` is whether the read of the file succeeds.
unfoldable pub load : ConfigJson → Store → Option ℕ → Bool → Files → Result StoreError AppConfig
load json s group readable d = do
  owner ← ownership s group
  validate_object d.dir true dir_mode owner.0 owner.1
  validate_object d.file false file_mode owner.0 owner.1
  guard readable not_read
  content ← content_of d.file
  decode_system json content
