-- ===== src/Amount/Editor.antt =====
-- The mutation path of internal/tui/amount_input.go: every keystroke, backspace and paste goes
-- through the raw digits. Every text that the field holds is ASCII, so a position counts bytes and
-- characters alike. The wrapped `textinput.Model` is third-party code, the parameter `TextInput`.
pub mod Cursor
pub mod Normal
pub mod Refinement
pub mod Typing
pub mod Validity
use Prim.Native.Nat.{min}
use virtual_private_node.Base.{
  ℕ, zero, suc, ◌+◌, ◌-◌, ◌≤◌, ◌<◌, ◌≡◌, ◌⊎◌, Bool, true, false, ◌&&◌, List, [], ◌∷◌, ◌++◌, leb,
  ltb, ◌==◌, if◌then◌else◌, length, take, drop, All,
}
use virtual_private_node.Base.Int.{ℤ, pos, leb_ℤ}
use virtual_private_node.Base.Text.{Text, codes, same, is_empty, trim_space}
use virtual_private_node.Base.Decimal.{IsDigit}
use virtual_private_node.Amount.Format.{
  is_digit, parse_sats, format_with_commas, format_digits_with_commas, trim_leading_zeros,
  has_non_zero_digit, filter_digits, is_single_rune,
}

-- A transformation of the raw digits and of the cursor between them.
abbrev pub Mutation : Type 0
Mutation = Text → ℕ → Text × ℕ

unfoldable pub insert_digit : ℕ → Mutation
insert_digit d raw at = (take at raw ++ d ∷ drop at raw, at + 1)

unfoldable pub insert_string : Text → Mutation
insert_string s raw at = (take at raw ++ (s ++ drop at raw), at + length s)

unfoldable pub delete_left : Mutation
delete_left raw at = if at == 0 then (raw, 0) else (take (at - 1) raw ++ drop at raw, at - 1)

-- The loop of toDigitSpace from the character at `i` on.
unfoldable pub to_digit_from : Text → ℕ → ℕ → Text × ℕ
to_digit_from [] i display = ([], 0)
to_digit_from (c ∷ val) i display =
    let (raw, count) = to_digit_from val (i + 1) display in
    if c == b',' then (raw, count) else (c ∷ raw, if ltb i display then suc count else count)

unfoldable pub to_digit_space : Text → ℕ → Text × ℕ
unfolding to_digit_from
to_digit_space val display = to_digit_from val 0 display

-- The loop of fromDigitSpace from the character at `i` on, with `count` digits behind it.
unfoldable pub land : Text → ℕ → ℕ → ℕ → ℕ
land [] i count target = i
land (c ∷ s) i count target =
    let skip = land s (i + 1) count target in
    let go_on = land s (i + 1) (count + 1) target in
    if c == b',' then skip else if count + 1 == target then i + 1 else go_on

unfoldable pub from_digit_space : Text → ℕ → ℕ
unfolding land
from_digit_space formatted target = if target == 0 then 0 else land formatted 0 0 target

-- Leading zeros collapse as soon as there is a digit other than 0.
unfoldable pub collapse : Text → ℕ → Text × ℕ
collapse raw at =
    let (trimmed, collapsed) = trim_leading_zeros raw in
    if has_non_zero_digit raw
    then (trimmed, if leb collapsed at then at - collapsed else 0)
    else (raw, at)

-- The CharLimit loop drops digits from the right. It ends when none is left, so the number of
-- digits is enough fuel.
unfoldable pub truncate : ℕ → ℕ → Text → ℕ → Text × ℕ
truncate zero limit digits at = (digits, at)
truncate (suc f) limit digits at =
    let fewer = take (length digits - 1) digits in
    let rest = truncate f limit fewer (if ltb (length fewer) at then length fewer else at) in
    if ltb limit (length (format_digits_with_commas digits)) && ltb 0 (length digits)
    then rest
    else (digits, at)

-- An all-zero text is shown without separators.
unfoldable pub shown : Text → Text
shown digits = if has_non_zero_digit digits then format_digits_with_commas digits else digits

-- What the field holds: digits and separators.
abbrev pub IsAmountChar : ℕ → Type 0
IsAmountChar c = IsDigit c ⊎ (c ≡ b',')

-- The wrapped text input, with what its documentation says of it: a value of digits and commas
-- within the limit is stored as it is, and the cursor is held inside the value.
pub record TextInput : Type 1 where
  pub State : Type 0
  pub Message : Type 0
  pub value_of : State → Text
  pub position : State → ℕ
  pub char_limit : State → ℕ
  pub set_value : Text → State → State
  pub set_cursor : ℕ → State → State
  pub update : Message → State → State
  pub value-set_value :
      (v : Text) (s : State)
      → All IsAmountChar v
      → length v ≤ char_limit s
      → value_of (set_value v s) ≡ v
  pub value-set_cursor : (p : ℕ) (s : State) → value_of (set_cursor p s) ≡ value_of s
  pub position-set_cursor :
      (p : ℕ) (s : State) → position (set_cursor p s) ≡ min p (length (value_of s))
  pub limit-set_value : (v : Text) (s : State) → char_limit (set_value v s) ≡ char_limit s
  pub limit-set_cursor : (p : ℕ) (s : State) → char_limit (set_cursor p s) ≡ char_limit s

-- `msg.String()` of a key press, the content of a paste, and any other message.
pub data Input (M : Type 0) : Type 0 where
  key : Text → M → Input M
  paste : Text → Input M
  other : M → Input M

module _ (ti : TextInput) where
  open ti use {State, Message, value_of, position, char_limit, set_value, set_cursor, update}

  -- Steps 1 and 2 of mutate, in digit space.
  unfoldable pub edited : Mutation → State → Text × ℕ
  unfolding to_digit_space collapse truncate
  edited mut s =
      let (raw, digit_pos) = to_digit_space (value_of s) (position s) in
      let (new_raw, new_pos) = mut raw digit_pos in
      let (trimmed, trimmed_pos) = collapse new_raw new_pos in
      if ltb 0 (char_limit s)
      then truncate (length trimmed) (char_limit s) trimmed trimmed_pos
      else (trimmed, trimmed_pos)

  unfoldable pub mutate : Mutation → State → State
  unfolding edited shown from_digit_space
  mutate mut s =
      let (digits, at) = edited mut s in
      let formatted = shown digits in
      set_cursor (from_digit_space formatted at) (set_value formatted s)

  -- A single-rune key must be a digit.
  unfoldable pub typed : Text → State → State
  unfolding mutate insert_digit
  typed [] s = s
  typed (r ∷ rest) s = if is_digit r then mutate (insert_digit r) s else s

  unfoldable pub handle_key : Text → Message → State → State
  unfolding mutate delete_left typed
  handle_key name msg s =
      if same name (codes "backspace")
      then mutate delete_left s
      else if is_single_rune name
      then typed name s
      else update msg s

  unfoldable pub handle_paste : Text → State → State
  unfolding mutate insert_string
  handle_paste content s =
      let pasted = filter_digits content in
      if is_empty pasted then s else mutate (insert_string pasted) s

  unfoldable pub step : Input Message → State → State
  unfolding handle_key handle_paste
  step (key name msg) s = handle_key name msg s
  step (paste content) s = handle_paste content s
  step (other msg) s = update msg s

  unfoldable pub sats : State → ℤ
  unfolding parse_sats
  sats s = parse_sats (value_of s)

  unfoldable pub set_sats : ℤ → State → State
  unfolding format_with_commas
  set_sats n s =
      let v = format_with_commas n in
      let written = set_value v s in
      if leb_ℤ n (pos 0) then set_value [] s else set_cursor (length (value_of written)) written

  unfoldable pub clear : State → State
  clear s = set_value [] s

  unfoldable pub is_blank : State → Bool
  is_blank s = is_empty (trim_space (value_of s))

  unfoldable pub cursor_at_end : State → Bool
  cursor_at_end s = leb (length (value_of s)) (position s)
