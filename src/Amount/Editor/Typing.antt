-- ===== src/Amount/Editor/Typing.antt =====
-- What a key press and a paste do to the sats amount field (handleKey, handlePaste and Sats of
-- internal/tui/amount_input.go), as its user sees it.
use virtual_private_node.Base.{
  ℕ, ◌-◌, ◌≤◌, ◌≡◌, refl, ap, sym, ◌∙◌, true, [], ◌∷◌, ◌++◌, arith, ◌==◌, if◌then◌else◌, length,
  take, drop, length-append, length-take, length-drop, inl, inr, Bool-cases, All,
}
use virtual_private_node.Base.Int.{pos}
use virtual_private_node.Base.Text.{Text, codes}
use virtual_private_node.Base.Decimal.{IsDigit, value, value-lt_ten_to}
use virtual_private_node.Amount.Format.{
  is_digit, without_commas, format_digits_with_commas, filter_digits,
}
use virtual_private_node.Amount.Format.RoundTrip.{parse_sats-digits}
use virtual_private_node.Amount.Editor.{
  delete_left, collapse, truncate, TextInput, edited, mutate, handle_key, sats,
}
use virtual_private_node.Amount.Editor.Normal.{
  collapse_shorter, format_mono, digits_of_short, truncate_fitting,
}
use virtual_private_node.Amount.Editor.Refinement.{
  Keeps-delete_left, view, IsValid, view-mutate, view_parts,
}

-- The normal form of digits and cursor under the field's limit of 16 characters.
unfoldable pub normal : Text × ℕ → Text × ℕ
normal (raw, p) = let (d, q) = collapse raw p in truncate (length d) 16 d q

pub is_digit_sound : (c : ℕ) → is_digit c ≡ true → IsDigit c
is_digit_sound c h = (ground arith, ground arith)

pub filter_digits-IsDigit : (t : Text) → All IsDigit (filter_digits t)
filter_digits-IsDigit [] = tt
filter_digits-IsDigit (c ∷ t) = elim (Bool-cases (is_digit c)) [
  | inl e ↦ rw e (is_digit_sound c e, filter_digits-IsDigit t)
  | inr e ↦ rw e (filter_digits-IsDigit t)
]

-- Digits that are no more than those of a text within the limit are not cut.
normal_fitting :
    (raw d : Text) (p : ℕ)
    → All IsDigit d
    → length d ≤ length raw
    → length (format_digits_with_commas raw) ≤ 16
    → normal (d, p) ≡ collapse d p
unfolding normal
normal_fitting raw d p h fewer limit =
    truncate_fitting _ 16 _ _
      (omega (arith, format_mono (collapse d p).0 raw (omega (arith, collapse_shorter d p h))))

normal-delete_left :
    (raw : Text) (p : ℕ)
    → All IsDigit raw
    → p ≤ length raw
    → length (format_digits_with_commas raw) ≤ 16
    → normal (delete_left raw p)
      ≡ (if p == 0 then collapse raw 0 else collapse (take (p - 1) raw ++ drop p raw) (p - 1))
normal-delete_left raw p h inside limit =
    let kept = Keeps-delete_left.digits raw p h inside in
    elim (Bool-cases (p == 0)) [
      | inl e ↦ unfold delete_left in rw e (normal_fitting raw raw 0 h (omega arith) limit)
      | inr e ↦
          unfold delete_left in
          rw e (
            normal_fitting raw (take (p - 1) raw ++ drop p raw) (p - 1) (rw e at kept)
              (ground (
                arith,
                length-append (take (p - 1) raw) (drop p raw),
                length-take (p - 1) raw,
                length-drop p raw,
              ))
              limit)
    ]

module _ (ti : TextInput) where
  open ti use {State, Message, value_of}

  edited-normal :
      (mut : Text → ℕ → Text × ℕ) (s : State)
      → IsValid ti s
      → edited ti mut s ≡ normal (mut (view ti s).0 (view ti s).1)
  unfolding edited normal
  edited-normal mut s v = rw (v.limit)

  handle_key_backspace :
      (msg : Message) (s : State)
      → handle_key ti (codes "backspace") msg s ≡ mutate ti delete_left s
  unfolding handle_key
  handle_key_backspace msg s = refl

  -- A backspace in a valid field deletes the digit left of the cursor, also where a comma stands
  -- between them, and nothing else but leading zeros: the limit drops no digit.
  pub view-backspace :
      (msg : Message) (s : State)
      → IsValid ti s
      → view ti (handle_key ti (codes "backspace") msg s) ≡ (
          let (raw, p) = view ti s in
          if p == 0 then collapse raw 0 else collapse (take (p - 1) raw ++ drop p raw) (p - 1))
  view-backspace msg s v =
      let parts = view_parts ti s v in
      let limit : length (format_digits_with_commas (view ti s).0) ≤ 16 = rw (parts.2) v.short in
      ap (view ti) (handle_key_backspace msg s)
      ∙ view-mutate ti delete_left s Keeps-delete_left v
      ∙ edited-normal delete_left s v
      ∙ normal-delete_left (view ti s).0 (view ti s).1 parts.0 parts.1 limit

  -- The amount of a valid field is the number that the shown digits spell: nothing wraps around.
  pub sats-view : (s : State) → IsValid ti s → sats ti s ≡ pos (value 0 (view ti s).0)
  unfolding sats
  sats-view s v =
      let parts = view_parts ti s v in
      let few = digits_of_short _ v.short in
      let small = value-lt_ten_to 13 0 (without_commas (value_of s)) v.digits few in
      parse_sats-digits (value_of s) _ refl v.digits (omega arith)
      ∙ ap (λ t. pos (value 0 t)) (sym parts.2)
