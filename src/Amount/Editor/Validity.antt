-- ===== src/Amount/Editor/Validity.antt =====
-- Every message keeps the sats field well formed (Update and SetSats of
-- internal/tui/amount_input.go).
use virtual_private_node.Base.{
  ℕ, ◌≤◌, ◌<◌, ◌≡◌, ap, ◌∙◌, false, [], arith, ◌==◌, length, inl, inr, Bool-cases, All,
}
use virtual_private_node.Base.Int.{pos, leb_ℤ}
use virtual_private_node.Base.Text.{Text}
use virtual_private_node.Base.Decimal.{decimal, ten_to, length-digits, decimal-IsDigit}
use virtual_private_node.Amount.Format.{format_with_commas}
use virtual_private_node.Amount.Format.Grouping.{
  by_thousands, format_digits_with_commas-eq-by_thousands, format_with_commas-eq-decimal,
}
use virtual_private_node.Amount.Format.RoundTrip.{parse_sats-format_with_commas}
use virtual_private_node.Amount.Editor.{
  IsAmountChar, TextInput, Input, key, paste, other, sats, set_sats,
}
use virtual_private_node.Amount.Editor.Normal.{by_thousands-IsAmountChar, length-by_thousands}

module _ (ti : TextInput) where
  open ti use {State, Message, value_of, position, char_limit, update}

  -- What a message that the field hands on leaves alone, if it only moves the cursor or blinks.
  abbrev pub IsQuiet : Message → State → Type 0
  IsQuiet m s = (value_of (update m s) ≡ value_of s) × (char_limit (update m s) ≡ char_limit s)

  -- What a step may hand on to the wrapped input.
  abbrev pub HandsOnQuiet : Input Message → State → Type 0
  HandsOnQuiet (key name m) s = IsQuiet m s
  HandsOnQuiet (paste content) s = Unit
  HandsOnQuiet (other m) s = IsQuiet m s

  decimal_short : (n : ℕ) → n < ten_to 12 → length (decimal n) ≤ 12
  unfolding decimal
  decimal_short n h = elim (Bool-cases (n == 0)) [
    | inl e ↦ rw e (omega arith)
    | inr e ↦ rw e (omega (arith, length-digits 12 n n [] h))
  ]

  -- A positive amount below 10 ^ 12 that SetSats writes into a field with the limit 16 is the
  -- amount that Sats reads.
  pub sats-set_sats :
      (n : ℕ) (s : State)
      → 0 < n
      → n < ten_to 12
      → char_limit s ≡ 16
      → sats ti (set_sats ti (pos n) s) ≡ pos n
  unfolding sats set_sats
  sats-set_sats n s positive bound limit =
      let text = format_with_commas (pos n) in
      let grouped : text ≡ by_thousands (decimal n) =
        format_with_commas-eq-decimal n ∙ format_digits_with_commas-eq-by_thousands (decimal n) in
      let chars : All IsAmountChar text =
        rw grouped (by_thousands-IsAmountChar (decimal n) (decimal-IsDigit n)) in
      let short : length text ≤ 16 =
        omega (arith, ap length grouped, length-by_thousands (decimal n), decimal_short n bound) in
      let several : leb_ℤ (pos n) (pos 0) ≡ false = ground arith in
      rw
        (
          several,
          ti.value-set_cursor,
          ti.value-set_value text s chars (omega (arith, short, limit)),
        )
        (parse_sats-format_with_commas n (omega arith))
