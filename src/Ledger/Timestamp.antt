-- ===== src/Ledger/Timestamp.antt =====
-- Which texts time.Parse(time.RFC3339, …) accepts (validateLedger of
-- internal/installer/ledger.go). Only acceptance is used there, so the parsed time is left out.

use virtual_private_node.Base.{
  ℕ, ◌+◌, ◌-◌, ◌*◌, ◌%◌, Bool, false, not, ◌&&◌, ◌||◌, Option, none, some, [], ◌∷◌, leb, ltb, ◌==◌,
  if◌then◌else◌,
}
use virtual_private_node.Base.Text.{Text, is_empty}

abbrev pub is_digit : ℕ → Bool
is_digit c = leb b'0' c && leb c b'9'

infixl 5 ◌>>=◌
abbrev pub ◌>>=◌ : {A B : Type 0} → Option A → (A → Option B) → Option B
none >>= f = none
some a >>= f = f a

-- Two digits.
abbrev pub two : Text → Option (ℕ × Text)
two (a ∷ b ∷ s) = if is_digit a && is_digit b then some ((a - b'0') * 10 + (b - b'0'), s) else none
two _ = none

-- One digit or two, as the hour may be written.
abbrev pub one_or_two : Text → Option (ℕ × Text)
one_or_two (a ∷ b ∷ s) =
    if is_digit a
    then if is_digit b then some ((a - b'0') * 10 + (b - b'0'), s) else some (a - b'0', b ∷ s)
    else none
one_or_two (a ∷ []) = if is_digit a then some (a - b'0', []) else none
one_or_two [] = none

abbrev pub four : Text → Option (ℕ × Text)
four s = do (a, r) ← two s; (b, t) ← two r; some (a * 100 + b, t)

abbrev pub literal : ℕ → Text → Option Text
literal c [] = none
literal c (d ∷ s) = if d == c then some s else none

abbrev pub skip_digits : Text → Text
skip_digits [] = []
skip_digits (c ∷ s) = let rest = skip_digits s in if is_digit c then rest else c ∷ s

-- A fraction of a second may follow: a point or a comma with a digit behind it.
abbrev pub skip_fraction : Text → Text
skip_fraction (c ∷ d ∷ s) =
    if (c == b'.' || c == b',') && is_digit d then skip_digits s else c ∷ d ∷ s
skip_fraction s = s

-- The offset after its sign.
abbrev pub offset : Text → Bool
offset s =
    elim (do
      (hour, r) ← two s
      t ← literal b':' r
      (minute, u) ← two t
      if leb hour 24 && leb minute 60 then some u else none) [ none ↦ false | some u ↦ is_empty u ]

abbrev pub zone : Text → Bool
zone [] = false
zone (c ∷ s) = if c == b'Z' then is_empty s else (c == b'+' || c == b'-') && offset s

abbrev pub is_leap : ℕ → Bool
is_leap year = (year % 4 == 0) && (not (year % 100 == 0) || (year % 400 == 0))

abbrev pub days_in : ℕ → ℕ → ℕ
days_in month year =
    if month == 2
    then if is_leap year then 29 else 28
    else if month == 4 || month == 6 || month == 9 || month == 11
    then 30
    else 31

abbrev pub in_range : ℕ → ℕ → ℕ → ℕ → ℕ → ℕ → Bool
in_range year month day hour minute second =
    leb 1 month
    && leb month 12
    && leb 1 day
    && leb day (days_in month year)
    && ltb hour 24
    && ltb minute 60
    && ltb second 60

-- The fields up to the seconds, in range, and what follows them.
abbrev pub date_time : Text → Option Text
date_time s0 = do
  (year, s1) ← four s0
  s2 ← literal b'-' s1
  (month, s3) ← two s2
  s4 ← literal b'-' s3
  (day, s5) ← two s4
  s6 ← literal b'T' s5
  (hour, s7) ← one_or_two s6
  s8 ← literal b':' s7
  (minute, s9) ← two s8
  s10 ← literal b':' s9
  (second, s11) ← two s10
  if in_range year month day hour minute second then some s11 else none

unfoldable pub parses_rfc3339 : Text → Bool
parses_rfc3339 s = elim (date_time s) [ none ↦ false | some rest ↦ zone (skip_fraction rest) ]
