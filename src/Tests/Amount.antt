-- ===== src/Tests/Amount.antt =====
-- The amount field of internal/tui/amount_input.go at concrete inputs, over a text input that stores
-- the first characters of a value.
use Prim.Native.Nat.{min}
use virtual_private_node.Base.{
  ℕ, zero, suc, ◌≡◌, ◌≤◌, refl, ap, [], ◌∷◌, ◌++◌, take, drop, length, arith, ◌==◌, if◌then◌else◌,
  ◌-◌,
}
use virtual_private_node.Base.Int.{pos}
use virtual_private_node.Base.Text.{Text, codes}
use virtual_private_node.Base.Decimal.{value}
use virtual_private_node.Amount.Format.{
  parse_sats, format_with_commas, without_commas, format_digits_with_commas, trim_leading_zeros,
}
use virtual_private_node.Amount.Format.RoundTrip.{parse_sats-format_with_commas}
use virtual_private_node.Amount.Editor.{
  TextInput, sats, set_sats, handle_key, to_digit_space, from_digit_space, mutate, insert_string,
  collapse, shown, edited,
}
use virtual_private_node.Amount.Editor.Cursor.{to_digit_space-from_digit_space}
use virtual_private_node.Amount.Editor.Refinement.{IsValid, view, view-mutate, Keeps-insert_string}
use virtual_private_node.Amount.Editor.Typing.{view-backspace, sats-view}
use virtual_private_node.Amount.Editor.Validity.{sats-set_sats}

take_all : (v : Text) (n : ℕ) → length v ≤ n → take n v ≡ v
take_all [] zero h = refl
take_all [] (suc n) h = refl
take_all (c ∷ v) zero h = absurd (ground arith)
take_all (c ∷ v) (suc n) h = ap (λ r. c ∷ r) (take_all v n (omega arith))

record Field : Type 0 where
  text : Text
  cursor : ℕ
  limit : ℕ

abbrev plain_input : TextInput
plain_input = record {
  State = Field;
  Message = Unit;
  value_of = λ s. s.text;
  position = λ s. s.cursor;
  char_limit = λ s. s.limit;
  set_value = λ v s. record s { text = take s.limit v };
  set_cursor = λ p s. record s { cursor = min p (length s.text) };
  update = λ m s. s;
  value-set_value = λ v s all short. take_all v s.limit short;
  value-set_cursor = λ p s. refl;
  position-set_cursor = λ p s. refl;
  limit-set_value = λ v s. refl;
  limit-set_cursor = λ p s. refl;
}

-- "1,234" with the cursor at its end.
abbrev amount : Field
amount = record { text = codes "1,234"; cursor = 5; limit = 16 }

amount-IsValid : IsValid plain_input amount
unfolding shown format_digits_with_commas trim_leading_zeros
amount-IsValid = record {
  limit = refl;
  digits = ground arith;
  trimmed = λ h. refl;
  canonical = refl;
  short = ground arith;
}

parse_sats-format_with_commas_example : parse_sats (format_with_commas (pos 1234567)) ≡ pos 1234567
parse_sats-format_with_commas_example = parse_sats-format_with_commas 1234567 (ground arith)

to_digit_space-from_digit_space_example :
    (to_digit_space (codes "1,234") (from_digit_space (codes "1,234") 2)
      ≡ (without_commas (codes "1,234"), 2))
    × (from_digit_space (codes "1,234") 2 ≤ length (codes "1,234"))
to_digit_space-from_digit_space_example =
    to_digit_space-from_digit_space (codes "1,234") 2 (ground arith)

view-mutate_example :
    view plain_input (mutate plain_input (insert_string (codes "56")) amount)
    ≡ edited plain_input (insert_string (codes "56")) amount
view-mutate_example =
    view-mutate plain_input (insert_string (codes "56")) amount
      (Keeps-insert_string (codes "56") (ground arith)) amount-IsValid

view-backspace_example : view plain_input (handle_key plain_input (codes "backspace") tt amount) ≡ (
    let (raw, p) = view plain_input amount in
    if p == 0 then collapse raw 0 else collapse (take (p - 1) raw ++ drop p raw) (p - 1))
view-backspace_example = view-backspace plain_input tt amount amount-IsValid

sats-view_example : sats plain_input amount ≡ pos (value 0 (view plain_input amount).0)
sats-view_example = sats-view plain_input amount amount-IsValid

sats-set_sats_example : sats plain_input (set_sats plain_input (pos 250000) amount) ≡ pos 250000
sats-set_sats_example = sats-set_sats plain_input 250000 amount (ground arith) (ground arith) refl
