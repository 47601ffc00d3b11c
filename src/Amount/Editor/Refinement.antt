-- ===== src/Amount/Editor/Refinement.antt =====
-- The field refines an editor of plain digits (mutate and its callers in
-- internal/tui/amount_input.go): what it shows and where its cursor stands are the digits and the
-- digit position that the edit gives, in the field's normal form.
use Prim.Native.Nat.{min}
use virtual_private_node.Base.{
  ℕ, ◌-◌, ◌≤◌, ◌≡◌, refl, ap, sym, ◌∙◌, ◌∷◌, ◌++◌, arith, ◌==◌, length, take, drop, length-append,
  length-take, length-drop, inl, inr, Bool-cases, All, All-take, All-drop, All-append,
}
use virtual_private_node.Base.Text.{Text}
use virtual_private_node.Base.Decimal.{IsDigit}
use virtual_private_node.Amount.Format.{without_commas, format_digits_with_commas}
use virtual_private_node.Amount.Editor.{
  Mutation, insert_digit, insert_string, delete_left, to_digit_space, from_digit_space, collapse,
  shown, TextInput, edited, mutate,
}
use virtual_private_node.Amount.Editor.Cursor.{to_digit_space-from_digit_space, to_digit_from_parts}
use virtual_private_node.Amount.Editor.Normal.{
  IsTrimmed, collapse_lem, shown_lem, Fits, truncate-Fits,
}

-- An edit of digits with a cursor inside them gives such digits and cursor again.
pub record Keeps (mut : Mutation) : Type 0 where
  pub digits : (raw : Text) (p : ℕ) → All IsDigit raw → p ≤ length raw → All IsDigit (mut raw p).0
  pub cursor :
      (raw : Text) (p : ℕ) → All IsDigit raw → p ≤ length raw → (mut raw p).1 ≤ length (mut raw p).0

pub Keeps-insert_string : (t : Text) → All IsDigit t → Keeps (insert_string t)
unfolding insert_string
Keeps-insert_string t h = record {
  digits = λ raw p hr inside.
      All-append IsDigit (take p raw) (t ++ drop p raw) (All-take IsDigit p raw hr)
        (All-append IsDigit t (drop p raw) h (All-drop IsDigit p raw hr));
  cursor = λ raw p hr inside. omega (
    arith,
    length-append (take p raw) (t ++ drop p raw),
    length-append t (drop p raw),
    length-take p raw,
    length-drop p raw,
  );
}

pub Keeps-insert_digit : (d : ℕ) → IsDigit d → Keeps (insert_digit d)
unfolding insert_digit
Keeps-insert_digit d h = record {
  digits = λ raw p hr inside.
      All-append IsDigit (take p raw) (d ∷ drop p raw) (All-take IsDigit p raw hr)
        (h, All-drop IsDigit p raw hr);
  cursor = λ raw p hr inside.
      omega
        (arith, length-append (take p raw) (d ∷ drop p raw), length-take p raw, length-drop p raw);
}

pub Keeps-delete_left : Keeps delete_left
unfolding delete_left
Keeps-delete_left = record {
  digits = λ raw p hr inside. elim (Bool-cases (p == 0)) [
    | inl e ↦ rw e hr
    | inr e ↦ rw e (
        All-append IsDigit (take (p - 1) raw) (drop p raw) (All-take IsDigit (p - 1) raw hr)
          (All-drop IsDigit p raw hr))
  ];
  cursor = λ raw p hr inside. elim (Bool-cases (p == 0)) [
    | inl e ↦ rw e (omega arith)
    | inr e ↦ rw e (
        ground (
          arith,
          length-append (take (p - 1) raw) (drop p raw),
          length-take (p - 1) raw,
          length-drop p raw,
        ))
  ];
}

module _ (ti : TextInput) where
  open ti use {State, Message, value_of, position, char_limit, set_value, set_cursor, update}

  -- The digits of the field and the number of them left of the cursor.
  abbrev pub view : State → Text × ℕ
  view s = to_digit_space (value_of s) (position s)

  -- What holds of the field between two messages.
  pub record IsValid (s : State) : Type 0 where
    pub limit : char_limit s ≡ 16
    pub digits : All IsDigit (without_commas (value_of s))
    pub trimmed : IsTrimmed (without_commas (value_of s))
    pub canonical : value_of s ≡ shown (without_commas (value_of s))
    pub short : length (format_digits_with_commas (without_commas (value_of s))) ≤ 16

  pub view_parts :
      (s : State)
      → IsValid s
      → All IsDigit (view s).0
        × ((view s).1 ≤ length (view s).0)
        × ((view s).0 ≡ without_commas (value_of s))
  unfolding to_digit_space
  view_parts s v =
      let parts = to_digit_from_parts (value_of s) 0 (position s) in
      rw (parts.0) (v.digits, parts.1, refl)

  edited-Fits :
      (mut : Mutation) (s : State)
      → Keeps mut
      → IsValid s
      → Fits 16
          (collapse (mut (view s).0 (view s).1).0 (mut (view s).0 (view s).1).1).0
          (edited ti mut s)
  unfolding edited
  edited-Fits mut s keeps v =
      let parts = view_parts s v in
      let raw = (mut (view s).0 (view s).1).0 in
      let p = (mut (view s).0 (view s).1).1 in
      let col =
        collapse_lem raw p (keeps.digits _ _ parts.0 parts.1) (keeps.cursor _ _ parts.0 parts.1) in
      rw (v.limit) (
        truncate-Fits (length (collapse raw p).0) 16 (collapse raw p).0 (collapse raw p).1
          (omega arith) col.0 col.3 col.1)

  module _ (mut : Mutation) (s : State) (keeps : Keeps mut) (v : IsValid s) where
    fits :
        Fits 16
          (collapse (mut (view s).0 (view s).1).0 (mut (view s).0 (view s).1).1).0
          (edited ti mut s)
    fits = edited-Fits mut s keeps v

    formatted : Text
    formatted = shown (edited ti mut s).0

    digits-formatted : without_commas formatted ≡ (edited ti mut s).0
    unfolding formatted
    digits-formatted = (shown_lem (edited ti mut s).0 fits.digits).1

    stored : value_of (set_value formatted s) ≡ formatted
    unfolding formatted
    stored =
        let text = shown_lem (edited ti mut s).0 fits.digits in
        ti.value-set_value _ s text.0 (omega (arith, text.2, fits.short, v.limit))

    value-mutate : value_of (mutate ti mut s) ≡ formatted
    unfolding mutate formatted
    value-mutate = ti.value-set_cursor _ _ ∙ stored

    position-mutate :
        position (mutate ti mut s)
        ≡ min (from_digit_space formatted (edited ti mut s).1) (length formatted)
    unfolding mutate formatted
    position-mutate =
        ti.position-set_cursor _ _
        ∙ ap
            (λ t. min (from_digit_space (shown (edited ti mut s).0) (edited ti mut s).1) (length t))
            stored

    limit-mutate : char_limit (mutate ti mut s) ≡ 16
    unfolding mutate
    limit-mutate = ti.limit-set_cursor _ _ ∙ ti.limit-set_value _ _ ∙ v.limit

    -- For an edit that keeps digits and a cursor between them such, on a valid field: mutate
    -- refines the edit of digits, so that the field then shows the edited digits, in normal form,
    -- with the cursor at the edited place.
    pub view-mutate : view (mutate ti mut s) ≡ edited ti mut s
    view-mutate =
        let back =
          to_digit_space-from_digit_space formatted (edited ti mut s).1
            (rw digits-formatted fits.cursor) in
        let placed : position (mutate ti mut s) ≡ from_digit_space formatted (edited ti mut s).1 =
          omega (arith, position-mutate, back.1) in
        rw (value-mutate, placed) (back.0 ∙ ap (λ r. (r, (edited ti mut s).1)) digits-formatted)

    pub mutate-IsValid : IsValid (mutate ti mut s)
    mutate-IsValid =
        let digits_then : without_commas (value_of (mutate ti mut s)) ≡ (edited ti mut s).0 =
          ap without_commas value-mutate ∙ digits-formatted in
        record {
          limit = limit-mutate;
          digits = rw digits_then fits.digits;
          trimmed = rw digits_then fits.trimmed;
          canonical = value-mutate ∙ (unfold formatted in ap shown (sym digits_then));
          short = rw digits_then fits.short;
        }
