-- ===== src/Amount/Format/RoundTrip.antt =====
-- parseSats reads back what formatWithCommas prints (internal/tui/amount_input.go).
use mathlib.Core.List.{reverse, reverse-reverse, reverse-append}
use virtual_private_node.Base.{
  ℕ, ◌+◌, ◌-◌, ◌*◌, ◌%◌, ◌^◌, ◌≤◌, ◌≡◌, ◌≢◌, refl, ap, ◌∙◌, false, ◌&&◌, ◌||◌, [], ◌∷◌, arith, ltb,
  ◌==◌, if◌then◌else◌, inl, inr, Bool-cases, All, All-append,
}
use virtual_private_node.Base.Int.{pos, max_int64}
use virtual_private_node.Base.Text.{Text, is_empty, is_space, trim_left, trim_space}
use virtual_private_node.Base.Decimal.{decimal, value, IsDigit, value-decimal, decimal-IsDigit}
use virtual_private_node.Amount.Format.{parse_loop, parse_sats, without_commas, format_with_commas}
use virtual_private_node.Amount.Format.Grouping.{
  sep, by_thousands, format_digits_with_commas-eq-by_thousands, format_with_commas-eq-decimal,
}

abbrev pub NoComma : Text → Type 0
NoComma = All (λ c. c ≢ b',')

without_commas-sep : (n : ℕ) (rest : Text) → without_commas (sep n rest) ≡ without_commas rest
unfolding sep
without_commas-sep n rest = elim (Bool-cases (ltb 0 n && (n % 3 == 0))) [
  | inl e ↦ rw e
  | inr e ↦ rw e
]

pub without_commas-by_thousands : (s : Text) → NoComma s → without_commas (by_thousands s) ≡ s
unfolding by_thousands
without_commas-by_thousands [] h = refl
without_commas-by_thousands (c ∷ s) h =
    let other : (c == b',') ≡ false = ground (arith, h.0) in
    rw (other, without_commas-sep, without_commas-by_thousands s h.1)

pub digits-NoComma : (s : Text) → All IsDigit s → NoComma s
digits-NoComma [] h = tt
digits-NoComma (c ∷ s) h = (λ e. omega arith, digits-NoComma s h.1)

digit_space : (c : ℕ) → IsDigit c → is_space c ≡ false
digit_space c h = ground arith

trim_left-digits : (s : Text) → All IsDigit s → trim_left s ≡ s
unfolding trim_left
trim_left-digits [] h = refl
trim_left-digits (c ∷ s) h = rw (digit_space c h.0)

All-reverse : (s : Text) → All IsDigit s → All IsDigit (reverse s)
All-reverse [] h = tt
All-reverse (c ∷ s) h =
    rw (reverse-append (c ∷ []) s)
      (All-append IsDigit (reverse s) (c ∷ []) (All-reverse s h.1) (h.0, tt))

trim_space-digits : (s : Text) → All IsDigit s → trim_space s ≡ s
unfolding trim_space
trim_space-digits s h =
    rw (trim_left-digits s h, trim_left-digits (reverse s) (All-reverse s h)) (reverse-reverse s)

le-value : (s : Text) (n : ℕ) → n ≤ value n s
le-value [] n = omega arith
le-value (c ∷ s) n = omega (arith, le-value s (n * 10 + (c - b'0')))

parse_loop-value :
    (s : Text) (n : ℕ) → All IsDigit s → value n s ≤ max_int64 → parse_loop s n ≡ pos (value n s)
unfolding parse_loop
parse_loop-value [] n h fits = ground arith
parse_loop-value (c ∷ s) n h fits =
    let m = n * 10 + (c - b'0') in
    let small : m % 2 ^ 64 ≡ m = omega (arith, le-value s m) in
    let digit : (ltb c b'0' || ltb b'9' c) ≡ false = ground arith in
    rw (digit, small) (parse_loop-value s m h.1 fits)

parse_digits :
    (s : Text)
    → All IsDigit s
    → value 0 s ≤ max_int64
    → (if is_empty s then pos 0 else parse_loop s 0) ≡ pos (value 0 s)
parse_digits [] h fits = refl
parse_digits (c ∷ s) h fits = parse_loop-value (c ∷ s) 0 h fits

-- parseSats reads a text whose characters other than commas are digits as the number that these
-- spell, if an int64 holds it.
pub parse_sats-digits :
    (v d : Text)
    → without_commas v ≡ d
    → All IsDigit d
    → value 0 d ≤ max_int64
    → parse_sats v ≡ pos (value 0 d)
unfolding parse_sats
parse_sats-digits v d e h fits = rw (e, trim_space-digits d h) (parse_digits d h fits)

-- Printing with separators and parsing gives back every amount that an int64 holds and that is
-- not negative.
pub parse_sats-format_with_commas :
    (n : ℕ) → n ≤ max_int64 → parse_sats (format_with_commas (pos n)) ≡ pos n
parse_sats-format_with_commas n fits =
    let all = decimal-IsDigit n in
    let digits_of : without_commas (format_with_commas (pos n)) ≡ decimal n =
      ap without_commas
        (format_with_commas-eq-decimal n ∙ format_digits_with_commas-eq-by_thousands (decimal n))
      ∙ without_commas-by_thousands (decimal n) (digits-NoComma _ all) in
    parse_sats-digits _ _ digits_of all (omega (arith, value-decimal n)) ∙ ap pos (value-decimal n)
