-- ===== src/Ledger/Keys.antt =====
-- The scan of the ledger's JSON tokens for repeated names (rejectDuplicateJSONKeys of
-- internal/installer/ledger.go). The tokens are those that json.Decoder returns; a decoding error is the
-- end of the list with its text.
use virtual_private_node.Base.{
  Bool, true, false, Option, none, some, List, [], ◌∷◌, if◌then◌else◌, Result, ok, err,
}
use virtual_private_node.Base.Text.{Text, contains}

pub data Token : Type 0 where
  open_object close_object open_array close_array : Token
  text : Text → Token
  -- A number, a Boolean or null.
  scalar : Token

pub record JsonFrame : Type 0 where
  pub object : Bool
  pub expect_key : Bool
  pub keys : List Text

pub data KeyError : Type 0 where
  bad_key unbalanced : KeyError
  duplicate_field : Text → KeyError
  bad_tokens : Text → KeyError

-- The top of the stack is the head of the list.
abbrev pub finish_json_value : List JsonFrame → List JsonFrame
finish_json_value [] = []
finish_json_value (f ∷ stack) = (if f.object then record f { expect_key = true } else f) ∷ stack

-- The switch on a token that is no name.
unfoldable pub on_value : Token → List JsonFrame → Result KeyError (List JsonFrame)
on_value open_object stack = ok (record { object = true; expect_key = true; keys = [] } ∷ stack)
on_value open_array stack = ok (record { object = false; expect_key = false; keys = [] } ∷ stack)
on_value close_object [] = err unbalanced
on_value close_object (f ∷ stack) = ok (finish_json_value stack)
on_value close_array [] = err unbalanced
on_value close_array (f ∷ stack) = ok (finish_json_value stack)
on_value (text t) stack = ok (finish_json_value stack)
on_value scalar stack = ok (finish_json_value stack)

-- A token where a name is expected in the frame on top.
unfoldable pub on_key : Token → JsonFrame → List JsonFrame → Result KeyError (List JsonFrame)
unfolding on_value
on_key close_object f stack = on_value close_object (f ∷ stack)
on_key (text key) f stack =
    if contains f.keys key
    then err (duplicate_field key)
    else ok (record { object = f.object; expect_key = false; keys = key ∷ f.keys } ∷ stack)
on_key _ f stack = err bad_key

unfoldable pub on_token : Token → List JsonFrame → Result KeyError (List JsonFrame)
unfolding on_value on_key
on_token t [] = on_value t []
on_token t (f ∷ stack) =
    if f.object
    then if f.expect_key then on_key t f stack else on_value t (f ∷ stack)
    else on_value t (f ∷ stack)

unfoldable pub scan : List Token → Option Text → List JsonFrame → Result KeyError (Unit {0})
unfolding on_token
scan [] none stack = ok tt
scan [] (some e) stack = err (bad_tokens e)
scan (t ∷ tokens) failure stack = elim (on_token t stack) [
  | err e ↦ err e
  | ok next ↦ scan tokens failure next
]

unfoldable pub reject_duplicate_json_keys : List Token → Option Text → Result KeyError (Unit {0})
unfolding scan
reject_duplicate_json_keys tokens failure = scan tokens failure []
