-- ===== src/Amount/Editor/Normal.antt =====
-- The normal form of the raw digits: no leading zeros, and no longer than the limit allows
-- (steps 2 and 3 of mutate in internal/tui/amount_input.go).
use mathlib.Core.List.{append-nil, append_assoc}
use virtual_private_node.Base.{
  ℕ, zero, suc, ◌+◌, ◌-◌, ◌/◌, ◌%◌, ◌≤◌, ◌≡◌, refl, ap, sym, ◌∙◌, true, false, ◌&&◌, [], ◌∷◌, ◌++◌,
  arith, ltb, ◌==◌, if◌then◌else◌, length, take, drop, length-take, inl, inr, ◌⊎◌, Bool-cases, All,
  All-take, take-append-drop,
}
use virtual_private_node.Base.Text.{Text}
use virtual_private_node.Base.Decimal.{IsDigit, value}
use virtual_private_node.Amount.Format.{
  without_commas, format_digits_with_commas, trim_leading_zeros, has_non_zero_digit,
}
use virtual_private_node.Amount.Format.Grouping.{
  sep, by_thousands, format_digits_with_commas-eq-by_thousands,
}
use virtual_private_node.Amount.Format.RoundTrip.{
  NoComma, digits-NoComma, without_commas-by_thousands,
}
use virtual_private_node.Amount.Editor.{collapse, truncate, shown, IsAmountChar}

-- A text with a digit other than 0 does not begin with 0.
abbrev pub IsTrimmed : Text → Type 0
IsTrimmed d = has_non_zero_digit d ≡ true → (trim_leading_zeros d).1 ≡ 0

trim_parts :
    (s : Text)
    → All IsDigit s
    → All IsDigit (trim_leading_zeros s).0
      × ((trim_leading_zeros s).1 + length (trim_leading_zeros s).0 ≡ length s)
      × (value 0 (trim_leading_zeros s).0 ≡ value 0 s)
unfolding trim_leading_zeros
trim_parts [] h = (tt, refl, refl)
trim_parts (c ∷ s) h =
    let ih = trim_parts s h.1 in
    elim (Bool-cases (c == b'0')) [
      | inl e ↦ rw e (ih.0, omega (arith, ih.1), ih.2 ∙ ap (λ k. value k s) (ground arith))
      | inr e ↦ rw e (h, omega arith, refl)
    ]

trim_again : (s : Text) → (trim_leading_zeros (trim_leading_zeros s).0).1 ≡ 0
unfolding trim_leading_zeros
trim_again [] = refl
trim_again (c ∷ s) = elim (Bool-cases (c == b'0')) [
  | inl e ↦ rw e (trim_again s)
  | inr e ↦ rw e (rw e)
]

-- collapse keeps digits, the number that they spell and a cursor inside them.
pub collapse_lem :
    (raw : Text) (p : ℕ)
    → All IsDigit raw
    → p ≤ length raw
    → All IsDigit (collapse raw p).0
      × ((collapse raw p).1 ≤ length (collapse raw p).0)
      × (value 0 (collapse raw p).0 ≡ value 0 raw)
      × IsTrimmed (collapse raw p).0
unfolding collapse
collapse_lem raw p h inside =
    let parts = trim_parts raw h in
    elim (Bool-cases (has_non_zero_digit raw)) [
      | inl e ↦ rw e (parts.0, ground (arith, parts.1), parts.2, λ _. trim_again raw)
      | inr e ↦ rw e (h, inside, refl, λ f. cc)
    ]

has_non_zero_digit-take :
    (n : ℕ) (d : Text) → has_non_zero_digit (take n d) ≡ true → has_non_zero_digit d ≡ true
has_non_zero_digit-take zero d h = cc
has_non_zero_digit-take (suc n) [] h = cc
has_non_zero_digit-take (suc n) (c ∷ d) h = ground (arith, has_non_zero_digit-take n d)

trimmed_head :
    (c : ℕ) (d : Text)
    → IsTrimmed (c ∷ d)
    → ((c == b'0') ≡ false) ⊎ (has_non_zero_digit (c ∷ d) ≡ false)
unfolding trim_leading_zeros
trimmed_head c d h = ground (arith, h)

head_trimmed : (c : ℕ) (d : Text) → (c == b'0') ≡ false → (trim_leading_zeros (c ∷ d)).1 ≡ 0
unfolding trim_leading_zeros
head_trimmed c d h = rw h

IsTrimmed-take : (n : ℕ) (d : Text) → IsTrimmed d → IsTrimmed (take n d)
IsTrimmed-take zero d h = λ e. cc
IsTrimmed-take (suc n) [] h = λ e. cc
IsTrimmed-take (suc n) (c ∷ d) h = elim (trimmed_head c d h) [
  | inl other ↦ λ _. head_trimmed c (take n d) other
  | inr zeros ↦ λ e. cc (zeros, has_non_zero_digit-take (suc n) (c ∷ d) e)
]

-- The shown text.
length-sep : (n : ℕ) (rest : Text) → length rest ≤ length (sep n rest)
unfolding sep
length-sep n rest = ground arith

length-le-by_thousands : (d : Text) → length d ≤ length (by_thousands d)
unfolding by_thousands
length-le-by_thousands [] = omega arith
length-le-by_thousands (c ∷ d) =
    omega (arith, length-le-by_thousands d, length-sep (length d) (by_thousands d))

sep-IsAmountChar : (n : ℕ) (rest : Text) → All IsAmountChar rest → All IsAmountChar (sep n rest)
unfolding sep
sep-IsAmountChar n rest h = elim (Bool-cases (ltb 0 n && (n % 3 == 0))) [
  | inl e ↦ rw e (inr refl, h)
  | inr e ↦ rw e h
]

pub by_thousands-IsAmountChar : (d : Text) → All IsDigit d → All IsAmountChar (by_thousands d)
unfolding by_thousands
by_thousands-IsAmountChar [] h = tt
by_thousands-IsAmountChar (c ∷ d) h =
    (inl h.0, sep-IsAmountChar (length d) _ (by_thousands-IsAmountChar d h.1))

plain-IsAmountChar : (d : Text) → All IsDigit d → All IsAmountChar d
plain-IsAmountChar [] h = tt
plain-IsAmountChar (c ∷ d) h = (inl h.0, plain-IsAmountChar d h.1)

without_commas-plain : (d : Text) → NoComma d → without_commas d ≡ d
without_commas-plain [] h = refl
without_commas-plain (c ∷ d) h =
    let other : (c == b',') ≡ false = ground (arith, h.0) in rw (other, without_commas-plain d h.1)

-- The shown text has the digits, holds nothing else but commas, and is no longer than the grouped
-- text.
pub shown_lem :
    (d : Text)
    → All IsDigit d
    → All IsAmountChar (shown d)
      × (without_commas (shown d) ≡ d)
      × (length (shown d) ≤ length (format_digits_with_commas d))
unfolding shown
shown_lem d h = elim (Bool-cases (has_non_zero_digit d)) [
  | inl e ↦
      rw (e, format_digits_with_commas-eq-by_thousands)
        (
          by_thousands-IsAmountChar d h,
          without_commas-by_thousands d (digits-NoComma d h),
          omega arith,
        )
  | inr e ↦
      rw (e, format_digits_with_commas-eq-by_thousands)
        (
          plain-IsAmountChar d h,
          without_commas-plain d (digits-NoComma d h),
          length-le-by_thousands d,
        )
]

-- What is left of the digits `d` under a limit: a beginning of them, with the cursor inside.
pub record Fits (limit : ℕ) (d : Text) (r : Text × ℕ) : Type 0 where
  pub digits : All IsDigit r.0
  pub cursor : r.1 ≤ length r.0
  pub short : length (format_digits_with_commas r.0) ≤ limit
  pub trimmed : IsTrimmed r.0
  pub start : (rest : Text) × (r.0 ++ rest ≡ d)

keep_all :
    (limit : ℕ) (d : Text) (p : ℕ)
    → All IsDigit d
    → IsTrimmed d
    → p ≤ length d
    → length (format_digits_with_commas d) ≤ limit
    → Fits limit d (d, p)
keep_all limit d p h t inside short = record {
  digits = h;
  cursor = inside;
  short = short;
  trimmed = t;
  start = ([], append-nil d);
}

-- Digits that end an ending are an ending.
Fits-longer : (limit n : ℕ) (d : Text) (r : Text × ℕ) → Fits limit (take n d) r → Fits limit d r
Fits-longer limit n d r h = record {
  digits = h.digits;
  cursor = h.cursor;
  short = h.short;
  trimmed = h.trimmed;
  start = (
    h.start.0 ++ drop n d,
    sym (append_assoc r.0 h.start.0 (drop n d))
        ∙ ap (λ k. k ++ drop n d) h.start.1
        ∙ take-append-drop n d,
  );
}

empty_short : (limit : ℕ) (d : Text) → length d ≡ 0 → length (format_digits_with_commas d) ≤ limit
unfolding format_digits_with_commas
empty_short limit [] e = omega arith
empty_short limit (c ∷ d) e = absurd (omega arith)

-- The CharLimit loop ends within the limit when its fuel is the number of digits.
pub truncate-Fits :
    (f limit : ℕ) (d : Text) (p : ℕ)
    → length d ≤ f
    → All IsDigit d
    → IsTrimmed d
    → p ≤ length d
    → Fits limit d (truncate f limit d p)
unfolding truncate
truncate-Fits zero limit d p fuel h t inside =
    keep_all limit d p h t inside (empty_short limit d (omega arith))
truncate-Fits (suc f) limit d p fuel h t inside =
    let test = ltb limit (length (format_digits_with_commas d)) && ltb 0 (length d) in
    let n = length d - 1 in
    let fewer = take n d in
    let moved = if ltb (length fewer) p then length fewer else p in
    elim (Bool-cases test) [
      | inl over ↦ rw over (
          Fits-longer limit n d _ (
            truncate-Fits f limit fewer moved (ground (arith, length-take n d))
              (All-take IsDigit n d h) (IsTrimmed-take n d t) (ground arith)))
      | inr fits ↦ rw fits (
          keep_all limit d p h t inside (elim (Bool-cases (ltb 0 (length d))) [
            | inl some_left ↦ ground arith
            | inr none_left ↦ empty_short limit d (ground arith)
          ]))
    ]

-- Digits that fit stay.
pub truncate_fitting :
    (f limit : ℕ) (d : Text) (p : ℕ)
    → length (format_digits_with_commas d) ≤ limit
    → truncate f limit d p ≡ (d, p)
unfolding truncate
truncate_fitting zero limit d p h = refl
truncate_fitting (suc f) limit d p h =
    let within : ltb limit (length (format_digits_with_commas d)) ≡ false = ground arith in
    rw within

length-sep_exact :
    (n : ℕ) (rest : Text)
    → length (sep n rest) ≡ length rest + (if ltb 0 n && (n % 3 == 0) then 1 else 0)
unfolding sep
length-sep_exact n rest = ground arith

commas_step : (n : ℕ) → (n - 1) / 3 + (if ltb 0 n && (n % 3 == 0) then 1 else 0) ≡ n / 3
commas_step n = ground arith

-- The grouped text has a comma for every three digits behind the first.
pub length-by_thousands : (d : Text) → length (by_thousands d) ≡ length d + (length d - 1) / 3
unfolding by_thousands
length-by_thousands [] = refl
length-by_thousands (c ∷ d) = omega (
  arith,
  length-sep_exact (length d) (by_thousands d),
  length-by_thousands d,
  commas_step (length d),
)

-- Fewer digits make no longer text.
pub format_mono :
    (d e : Text)
    → length d ≤ length e
    → length (format_digits_with_commas d) ≤ length (format_digits_with_commas e)
format_mono d e h = omega (
  arith,
  ap length (format_digits_with_commas-eq-by_thousands d),
  ap length (format_digits_with_commas-eq-by_thousands e),
  length-by_thousands d,
  length-by_thousands e,
)

-- A text of at most 16 characters has at most 13 digits.
pub digits_of_short : (d : Text) → length (format_digits_with_commas d) ≤ 16 → length d ≤ 13
digits_of_short d h =
    let exact = ap length (format_digits_with_commas-eq-by_thousands d) in
    omega (arith, exact, length-by_thousands d)

pub collapse_shorter :
    (raw : Text) (p : ℕ) → All IsDigit raw → length (collapse raw p).0 ≤ length raw
unfolding collapse
collapse_shorter raw p h = elim (Bool-cases (has_non_zero_digit raw)) [
  | inl e ↦ rw e (omega (arith, (trim_parts raw h).1))
  | inr e ↦ rw e (omega arith)
]
