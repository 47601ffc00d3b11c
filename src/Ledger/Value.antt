-- ===== src/Ledger/Value.antt =====
-- JSON values, their tokens, and the values in which no object repeats a name: what the scan of
-- Ledger/Keys.antt is to find out.
use virtual_private_node.Base.{◌≡◌, false, List, [], ◌∷◌}
use virtual_private_node.Base.Text.{Text, contains}
use virtual_private_node.Ledger.Keys.{
  Token, open_object, close_object, open_array, close_array, text, scalar,
}

-- A JSON value; a leaf is a number, a Boolean or null.
mutual
  pub data JsonValue : Type 0 where
    leaf : JsonValue
    quoted : Text → JsonValue
    object : Fields → JsonValue
    array : Items → JsonValue

  pub data Fields : Type 0 where
    no_field : Fields
    field : Text → JsonValue → Fields → Fields

  pub data Items : Type 0 where
    no_item : Items
    item : JsonValue → Items → Items

-- The tokens of a value, before those of the rest.
unfoldable mutual
  pub tokens_of : JsonValue → List Token → List Token
  tokens_of leaf rest = scalar ∷ rest
  tokens_of (quoted t) rest = text t ∷ rest
  tokens_of (object fields) rest = open_object ∷ tokens_of_fields fields (close_object ∷ rest)
  tokens_of (array items) rest = open_array ∷ tokens_of_items items (close_array ∷ rest)

  pub tokens_of_fields : Fields → List Token → List Token
  tokens_of_fields no_field rest = rest
  tokens_of_fields (field k v fields) rest = text k ∷ tokens_of v (tokens_of_fields fields rest)

  pub tokens_of_items : Items → List Token → List Token
  tokens_of_items no_item rest = rest
  tokens_of_items (item v items) rest = tokens_of v (tokens_of_items items rest)

-- No object of the value repeats a name.
unfoldable mutual
  pub IsUnique : JsonValue → Type 0
  IsUnique leaf = Unit
  IsUnique (quoted t) = Unit
  IsUnique (object fields) = AreFresh [] fields
  IsUnique (array items) = AreUnique items

  -- Nor a name that was seen before in the same object.
  pub AreFresh : List Text → Fields → Type 0
  AreFresh seen no_field = Unit
  AreFresh seen (field k v fields) =
      (contains seen k ≡ false) × IsUnique v × AreFresh (k ∷ seen) fields

  pub AreUnique : Items → Type 0
  AreUnique no_item = Unit
  AreUnique (item v items) = IsUnique v × AreUnique items
