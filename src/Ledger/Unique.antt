-- ===== src/Ledger/Unique.antt =====
-- The scan for repeated names on the tokens of a JSON value (rejectDuplicateJSONKeys of
-- internal/installer/ledger.go).
use virtual_private_node.Base.{
  ◌≡◌, refl, sym, ◌∙◌, ◌↔◌, ◌⊎◌, inl, inr, Bool, true, false, ◌&&◌, Option, none, List, [], ◌∷◌,
  Result, ok, err, Bool-cases,
}
use virtual_private_node.Base.Text.{Text, contains}
use virtual_private_node.Ledger.Keys.{
  Token, open_object, close_object, open_array, close_array, text, scalar, JsonFrame, KeyError,
  duplicate_field, finish_json_value, on_value, on_key, on_token, scan, reject_duplicate_json_keys,
}
use virtual_private_node.Ledger.Value.{
  JsonValue, leaf, quoted, object, array, Fields, no_field, field, Items, no_item, item, tokens_of,
  tokens_of_fields, tokens_of_items, IsUnique, AreFresh, AreUnique,
}

-- Where a value may stand.
InValue : List JsonFrame → Type 0
InValue [] = Unit
InValue (f ∷ stack) = (f.object && f.expect_key) ≡ false

Fails : Result KeyError (Unit {0}) → Type 0
Fails r = (e : KeyError) × (r ≡ err e)

named : List Text → JsonFrame
named seen = record { object = true; expect_key = true; keys = seen }

listed : JsonFrame
listed = record { object = false; expect_key = false; keys = [] }

-- What the scan does with a value: it goes on after it, or it fails.
Scanned : JsonValue → Type 0
Scanned v =
    (IsUnique v
      × ((rest : List Token) (failure : Option Text) (stack : List JsonFrame)
          → InValue stack
          → scan (tokens_of v rest) failure stack ≡ scan rest failure (finish_json_value stack)))
    ⊎ ((IsUnique v → ⊥)
        × ((rest : List Token) (failure : Option Text) (stack : List JsonFrame)
            → InValue stack
            → Fails (scan (tokens_of v rest) failure stack)))

ScannedFields : List Text → Fields → Type 0
ScannedFields seen fields =
    (AreFresh seen fields
      × ((rest : List Token) (failure : Option Text) (stack : List JsonFrame)
          → scan (tokens_of_fields fields (close_object ∷ rest)) failure (named seen ∷ stack)
            ≡ scan rest failure (finish_json_value stack)))
    ⊎ ((AreFresh seen fields → ⊥)
        × ((rest : List Token) (failure : Option Text) (stack : List JsonFrame)
            → Fails (
                scan (tokens_of_fields fields (close_object ∷ rest)) failure (named seen ∷ stack))))

ScannedItems : Items → Type 0
ScannedItems items =
    (AreUnique items
      × ((rest : List Token) (failure : Option Text) (stack : List JsonFrame)
          → scan (tokens_of_items items (close_array ∷ rest)) failure (listed ∷ stack)
            ≡ scan rest failure (finish_json_value stack)))
    ⊎ ((AreUnique items → ⊥)
        × ((rest : List Token) (failure : Option Text) (stack : List JsonFrame)
            → Fails (scan (tokens_of_items items (close_array ∷ rest)) failure (listed ∷ stack))))

true-false : ◌≡◌ {A = Bool} true false → ⊥
true-false e = cc

ap2_and : (x y : Bool) → x ≡ true → y ≡ true → (x && y) ≡ true
ap2_and x y e d = rw (e, d) refl

-- One token where a value may stand.
on_token-InValue :
    (t : Token) (stack : List JsonFrame) → InValue stack → on_token t stack ≡ on_value t stack
unfolding on_token InValue
on_token-InValue t [] p = refl
on_token-InValue t (f ∷ stack) p = elim (Bool-cases f.object) [
  | inl e ↦ elim (Bool-cases f.expect_key) [
    | inl d ↦ absurd (true-false (sym (ap2_and f.object f.expect_key e d) ∙ p))
    | inr d ↦ rw (e, d) refl
  ]
  | inr e ↦ rw e refl
]

scan-InValue :
    (t : Token) (tokens : List Token) (failure : Option Text) (stack next : List JsonFrame)
    → InValue stack
    → on_value t stack ≡ ok next
    → scan (t ∷ tokens) failure stack ≡ scan tokens failure next
unfolding scan
scan-InValue t tokens failure stack next p e = rw (scan, on_token-InValue t stack p, e) refl

-- A name that is new, or was seen.
scan-new :
    (k : Text) (seen : List Text) (tokens : List Token) (failure : Option Text)
    (stack : List JsonFrame)
    → contains seen k ≡ false
    → scan (text k ∷ tokens) failure (named seen ∷ stack)
      ≡ scan tokens failure (record { object = true; expect_key = false; keys = k ∷ seen } ∷ stack)
unfolding scan on_token on_key named
scan-new k seen tokens failure stack e = rw (scan, e) refl

scan-seen :
    (k : Text) (seen : List Text) (tokens : List Token) (failure : Option Text)
    (stack : List JsonFrame)
    → contains seen k ≡ true
    → Fails (scan (text k ∷ tokens) failure (named seen ∷ stack))
unfolding scan on_token on_key named Fails
scan-seen k seen tokens failure stack e = (duplicate_field k, rw (scan, e) refl)

-- The end of an object and of an array.
scan-close :
    (tokens : List Token) (failure : Option Text) (seen : List Text) (stack : List JsonFrame)
    → scan (close_object ∷ tokens) failure (named seen ∷ stack)
      ≡ scan tokens failure (finish_json_value stack)
unfolding scan on_token on_key on_value named
scan-close tokens failure seen stack = refl

scan-close_array :
    (tokens : List Token) (failure : Option Text) (stack : List JsonFrame)
    → scan (close_array ∷ tokens) failure (listed ∷ stack)
      ≡ scan tokens failure (finish_json_value stack)
unfolding scan on_token on_value listed
scan-close_array tokens failure stack = refl

same_failure : (r r' : Result KeyError (Unit {0})) → r ≡ r' → Fails r' → Fails r
unfolding Fails
same_failure r r' e (f, d) = (f, e ∙ d)

mutual
  unfolding tokens_of IsUnique Scanned ScannedFields ScannedItems InValue named listed on_value

  scanned : (v : JsonValue) → Scanned v
  scanned leaf = inl (
    tt,
    λ rest failure stack p. scan-InValue scalar rest failure stack (finish_json_value stack) p refl,
  )
  scanned (quoted t) = inl (
    tt,
    λ rest failure stack p.
        scan-InValue (text t) rest failure stack (finish_json_value stack) p refl,
  )
  scanned (object fields) = elim (scanned_fields [] fields) [
    | inl (fresh, after) ↦ inl (
      fresh,
      λ rest failure stack p.
          scan-InValue open_object (tokens_of_fields fields (close_object ∷ rest)) failure stack
            (named [] ∷ stack) p refl
          ∙ after rest failure stack,
    )
    | inr (stale, fails) ↦ inr (
      stale,
      λ rest failure stack p.
          same_failure _ _
            (scan-InValue open_object (tokens_of_fields fields (close_object ∷ rest)) failure stack
              (named [] ∷ stack) p refl)
            (fails rest failure stack),
    )
  ]
  scanned (array items) = elim (scanned_items items) [
    | inl (fresh, after) ↦ inl (
      fresh,
      λ rest failure stack p.
          scan-InValue open_array (tokens_of_items items (close_array ∷ rest)) failure stack
            (listed ∷ stack) p refl
          ∙ after rest failure stack,
    )
    | inr (stale, fails) ↦ inr (
      stale,
      λ rest failure stack p.
          same_failure _ _
            (scan-InValue open_array (tokens_of_items items (close_array ∷ rest)) failure stack
              (listed ∷ stack) p refl)
            (fails rest failure stack),
    )
  ]

  scanned_fields : (seen : List Text) (fields : Fields) → ScannedFields seen fields
  scanned_fields seen no_field = inl (tt, λ rest failure stack. scan-close rest failure seen stack)
  scanned_fields seen (field k v fields) =
      let value = scanned v in
      let others = scanned_fields (k ∷ seen) fields in
      elim (Bool-cases (contains seen k)) [
        | inl old ↦ inr (
          (λ fresh. true-false (sym old ∙ fresh.0)),
          λ rest failure stack. scan-seen k seen _ failure stack old,
        )
        | inr new ↦ elim value [
          | inr (stale, fails) ↦ inr (
            (λ fresh. stale fresh.1),
            λ rest failure stack. same_failure _ _ (scan-new k seen _ failure stack new) (
                fails (tokens_of_fields fields (close_object ∷ rest)) failure
                  (record { object = true; expect_key = false; keys = k ∷ seen } ∷ stack) refl),
          )
          | inl (unique, after) ↦ elim others [
            | inr (stale, fails) ↦ inr (
              (λ fresh. stale fresh.2),
              λ rest failure stack.
                  same_failure _ _
                    (scan-new k seen _ failure stack new
                      ∙ after (tokens_of_fields fields (close_object ∷ rest)) failure
                          (record { object = true; expect_key = false; keys = k ∷ seen } ∷ stack)
                          refl)
                    (fails rest failure stack),
            )
            | inl (fresh, then_after) ↦ inl (
              (new, unique, fresh),
              λ rest failure stack.
                  scan-new k seen _ failure stack new
                  ∙ after (tokens_of_fields fields (close_object ∷ rest)) failure
                      (record { object = true; expect_key = false; keys = k ∷ seen } ∷ stack) refl
                  ∙ then_after rest failure stack,
            )
          ]
        ]
      ]

  scanned_items : (items : Items) → ScannedItems items
  scanned_items no_item = inl (tt, λ rest failure stack. scan-close_array rest failure stack)
  scanned_items (item v items) =
      let value = scanned v in
      let others = scanned_items items in
      elim value [
        | inr (stale, fails) ↦ inr (
          (λ fresh. stale fresh.0),
          λ rest failure stack.
              fails (tokens_of_items items (close_array ∷ rest)) failure (listed ∷ stack) refl,
        )
        | inl (unique, after) ↦ elim others [
          | inr (stale, fails) ↦ inr (
            (λ fresh. stale fresh.1),
            λ rest failure stack.
                same_failure _ _
                  (after (tokens_of_items items (close_array ∷ rest)) failure (listed ∷ stack) refl)
                  (fails rest failure stack),
          )
          | inl (fresh, then_after) ↦ inl (
            (unique, fresh),
            λ rest failure stack.
                after (tokens_of_items items (close_array ∷ rest)) failure (listed ∷ stack) refl
                ∙ then_after rest failure stack,
          )
        ]
      ]

failed : (e : KeyError) → ◌≡◌ {A = Result KeyError (Unit {0})} (err e) (ok tt) → ⊥
failed e d = cc

-- The scan accepts the tokens of a JSON value exactly when no object of it, at any depth, repeats a name.
pub reject_duplicate_json_keys_iff :
    (v : JsonValue) → (reject_duplicate_json_keys (tokens_of v []) none ≡ ok tt) ↔ IsUnique v
unfolding reject_duplicate_json_keys Scanned Fails scan InValue
reject_duplicate_json_keys_iff v = elim (scanned v) [
  | inl (unique, after) ↦ ((λ e. unique), λ u. after [] none [] tt)
  | inr (stale, fails) ↦
      let (e, d) = fails [] none [] tt in
      ((λ accepted. absurd (failed e (sym d ∙ accepted))), λ u. absurd (stale u))
]
