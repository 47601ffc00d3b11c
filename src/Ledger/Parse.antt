-- ===== src/Ledger/Parse.antt =====
-- Reading the install ledger (parseLedger and requireJSONEOF of internal/installer/ledger.go). Package
-- encoding/json is the parameter `Json`.
use virtual_private_node.Base.{
  ◌≡◌, Bool, true, Option, none, some, List, [], ◌∷◌, ◌++◌, Result, ok, err, ◌>>=◌, ◌>>◌, guard,
  length, ◌≤◌, refl,
}
use virtual_private_node.Base.Text.{Text}
use virtual_private_node.Ledger.{
  InstallContext, InstallLedger, LedgerError, fresh_ledger, validate_ledger,
}
use virtual_private_node.Ledger.Keys.{Token, KeyError, reject_duplicate_json_keys}

-- What the ledger uses of encoding/json: the tokens of a text with the error that ends them, the
-- decoder that knows the ledger's fields and no other, whether nothing but blanks follows the value, and
-- MarshalIndent.
pub record Json : Type 0 where
  pub tokens : Text → List Token × Option Text
  pub decode : Text → Option InstallLedger
  pub at_eof : Text → Bool
  pub encode : InstallLedger → Option Text

pub data ParseError : Type 0 where
  repeated : KeyError → ParseError
  not_decoded trailing : ParseError
  invalid : LedgerError → ParseError

abbrev pub no_repeats : Result KeyError (Unit {0}) → Result ParseError (Unit {0})
no_repeats (ok u) = ok tt
no_repeats (err e) = err (repeated e)

abbrev pub decoded : Option InstallLedger → Result ParseError InstallLedger
decoded none = err not_decoded
decoded (some l) = ok l

abbrev pub valid : Result LedgerError (Unit {0}) → Result ParseError (Unit {0})
valid (ok u) = ok tt
valid (err e) = err (invalid e)

unfoldable pub parse_ledger : Json → Text → Result ParseError InstallLedger
parse_ledger json content = do
  no_repeats (reject_duplicate_json_keys (json.tokens content).0 (json.tokens content).1)
  l ← decoded (json.decode content)
  guard (json.at_eof content) trailing
  valid (validate_ledger l)
  ok l

-- What the JSON library does with the ledger of an install that begins: it writes a short text with no
-- repeated name that decodes to the same ledger.
pub record WritesFresh (json : Json) (ctx : InstallContext) : Type 0 where
  pub bytes : Text
  pub encodes : json.encode (fresh_ledger ctx) ≡ some bytes
  pub names :
      reject_duplicate_json_keys
        (json.tokens (bytes ++ (b'\n' ∷ []))).0
        (json.tokens (bytes ++ (b'\n' ∷ []))).1
      ≡ ok tt
  pub decodes : json.decode (bytes ++ (b'\n' ∷ [])) ≡ some (fresh_ledger ctx)
  pub ends : json.at_eof (bytes ++ (b'\n' ∷ [])) ≡ true
  pub short : length (bytes ++ (b'\n' ∷ [])) ≤ 65536

pub parse_ledger-fresh :
    (json : Json) (ctx : InstallContext) (w : WritesFresh json ctx)
    → validate_ledger (fresh_ledger ctx) ≡ ok tt
    → parse_ledger json (w.bytes ++ (b'\n' ∷ [])) ≡ ok (fresh_ledger ctx)
unfolding parse_ledger
parse_ledger-fresh json ctx w v = rw (parse_ledger, w.names, w.decodes, w.ends, v) refl
