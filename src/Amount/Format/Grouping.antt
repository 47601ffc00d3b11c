-- ===== src/Amount/Format/Grouping.antt =====
-- The two comma printers of internal/tui/amount_input.go against one description: a comma stands
-- in front of every digit that has a positive multiple of three digits from it to the right end.
use mathlib.Core.List.{reverse, reverse-append}
use virtual_private_node.Base.{
  ℕ, zero, suc, ◌+◌, ◌/◌, ◌%◌, ◌<◌, ◌≡◌, ◌≢◌, refl, ap, sym, ◌∙◌, true, ◌&&◌, [], ◌∷◌, ◌++◌, arith,
  ltb, ◌==◌, if◌then◌else◌, length, take, drop, inl, inr, Bool-cases,
}
use virtual_private_node.Base.Int.{pos}
use virtual_private_node.Base.Text.{Text}
use virtual_private_node.Base.Decimal.{digits, decimal}
use virtual_private_node.Amount.Format.{
  comma_loop, format_with_commas, groups, head_of, format_digits_with_commas,
}

-- A comma in front of what has `n` digits left, if one belongs there.
unfoldable pub sep : ℕ → Text → Text
sep n rest = if ltb 0 n && (n % 3 == 0) then b',' ∷ rest else rest

unfoldable pub by_thousands : Text → Text
by_thousands [] = []
by_thousands (c ∷ s) = c ∷ sep (length s) (by_thousands s)

sep_comma : (n : ℕ) (rest : Text) → 0 < n → n % 3 ≡ 0 → sep n rest ≡ b',' ∷ rest
unfolding sep
sep_comma n rest p h = ground arith

sep_none : (n : ℕ) (rest : Text) → n % 3 ≢ 0 → sep n rest ≡ rest
unfolding sep
sep_none n rest h = ground arith

-- Three digits in front of a positive multiple of three of them.
by_thousands-three :
    (a b c : ℕ) (s : Text)
    → length s % 3 ≡ 0
    → 0 < length s
    → by_thousands (a ∷ b ∷ c ∷ s) ≡ a ∷ b ∷ c ∷ b',' ∷ by_thousands s
unfolding by_thousands
by_thousands-three a b c s h p = rw (
  sep_none (suc (suc (length s))) _ (omega arith),
  sep_none (suc (length s)) _ (omega arith),
  sep_comma (length s) _ p h,
)

groups-by_thousands :
    (s : Text) → length s % 3 ≡ 0 → 0 < length s → groups s ≡ b',' ∷ by_thousands s
unfolding groups
groups-by_thousands [] h p = absurd (omega arith)
groups-by_thousands (a ∷ []) h p = absurd (omega arith)
groups-by_thousands (a ∷ b ∷ []) h p = absurd (omega arith)
groups-by_thousands (a ∷ b ∷ c ∷ []) h p = unfold by_thousands sep in refl
groups-by_thousands (a ∷ b ∷ c ∷ d ∷ s) h p = rw (
  by_thousands-three a b c (d ∷ s) (omega arith) (omega arith),
  groups-by_thousands (d ∷ s) (omega arith) (omega arith),
)

-- The remainders of the length choose the head.
split_head :
    (a b c d : ℕ) (s : Text)
    → format_digits_with_commas (a ∷ b ∷ c ∷ d ∷ s) ≡ (
        let n = suc (suc (suc (suc (length s)))) in
        take (head_of n) (a ∷ b ∷ c ∷ d ∷ s) ++ groups (drop (head_of n) (a ∷ b ∷ c ∷ d ∷ s)))
unfolding format_digits_with_commas
split_head a b c d s = ground arith

long_by_thousands :
    (a b c d : ℕ) (s : Text) (r : ℕ)
    → length s % 3 ≡ r
    → format_digits_with_commas (a ∷ b ∷ c ∷ d ∷ s) ≡ by_thousands (a ∷ b ∷ c ∷ d ∷ s)
long_by_thousands a b c d s zero h =
    let k : head_of (suc (suc (suc (suc (length s))))) ≡ 1 = ground arith in
    rw (split_head, k, groups-by_thousands (b ∷ c ∷ d ∷ s) (omega arith) (omega arith))
      (unfold by_thousands in
        rw (sep_comma (suc (suc (suc (length s)))) _ (omega arith) (omega arith)))
long_by_thousands a b c d s (suc zero) h =
    let k : head_of (suc (suc (suc (suc (length s))))) ≡ 2 = ground arith in
    rw (split_head, k, groups-by_thousands (c ∷ d ∷ s) (omega arith) (omega arith))
      (unfold by_thousands in
        rw (
          sep_none (suc (suc (suc (length s)))) _ (omega arith),
          sep_comma (suc (suc (length s))) _ (omega arith) (omega arith),
        ))
long_by_thousands a b c d s (suc (suc zero)) h =
    let k : head_of (suc (suc (suc (suc (length s))))) ≡ 3 = ground arith in
    rw (
      split_head,
      k,
      groups-by_thousands (d ∷ s) (omega arith) (omega arith),
      by_thousands-three a b c (d ∷ s) (omega arith) (omega arith),
    )
long_by_thousands a b c d s (suc (suc (suc r))) h = absurd (omega arith)

pub format_digits_with_commas-eq-by_thousands :
    (s : Text) → format_digits_with_commas s ≡ by_thousands s
format_digits_with_commas-eq-by_thousands [] = unfold format_digits_with_commas by_thousands in refl
format_digits_with_commas-eq-by_thousands (a ∷ []) =
    unfold format_digits_with_commas by_thousands sep in refl
format_digits_with_commas-eq-by_thousands (a ∷ b ∷ []) =
    unfold format_digits_with_commas by_thousands sep in refl
format_digits_with_commas-eq-by_thousands (a ∷ b ∷ c ∷ []) =
    unfold format_digits_with_commas by_thousands sep in refl
format_digits_with_commas-eq-by_thousands (a ∷ b ∷ c ∷ d ∷ s) =
    long_by_thousands a b c d s (length s % 3) refl

-- formatWithCommas with its buffer reversed.
pub cons_loop : ℕ → ℕ → ℕ → Text → Text
cons_loop zero n k acc = acc
cons_loop (suc f) n k acc =
    let rest = cons_loop f (n / 10) (k + 1) ((b'0' + n % 10) ∷ sep k acc) in
    if ltb 0 n then rest else acc

-- One round of the buffer, reversed.
reverse-round :
    (k d : ℕ) (buf : Text)
    → reverse ((if ltb 0 k && (k % 3 == 0) then buf ++ b',' ∷ [] else buf) ++ d ∷ [])
      ≡ d ∷ sep k (reverse buf)
unfolding sep
reverse-round k d buf =
    rw (reverse-append _ (d ∷ [])) (elim (Bool-cases (ltb 0 k && (k % 3 == 0))) [
      | inl e ↦ rw e (rw (reverse-append buf (b',' ∷ [])))
      | inr e ↦ rw e
    ])

pub reverse-comma_loop :
    (f n k : ℕ) (buf : Text) → reverse (comma_loop f n k buf) ≡ cons_loop f n k (reverse buf)
unfolding comma_loop cons_loop
reverse-comma_loop zero n k buf = refl
reverse-comma_loop (suc f) n k buf = elim (Bool-cases (ltb 0 n)) [
  | inl e ↦ rw e (
      reverse-comma_loop f (n / 10) (k + 1) _
      ∙ ap (cons_loop f (n / 10) (k + 1)) (reverse-round k (b'0' + n % 10) buf))
  | inr e ↦ rw e
]

by_thousands-cons : (c : ℕ) (s : Text) → by_thousands (c ∷ s) ≡ c ∷ sep (length s) (by_thousands s)
unfolding by_thousands
by_thousands-cons c s = refl

decimal-suc : (k : ℕ) → decimal (suc k) ≡ digits (suc k) (suc k) []
unfolding decimal
decimal-suc k = ground arith

cons_loop-by_thousands :
    (f n k : ℕ) (s : Text)
    → k ≡ length s
    → cons_loop f n k (by_thousands s) ≡ by_thousands (digits f n s)
unfolding cons_loop digits
cons_loop-by_thousands zero n k s h = refl
cons_loop-by_thousands (suc f) n k s h = elim (Bool-cases (n == 0)) [
  | inl e ↦ ground arith
  | inr e ↦
      let positive : ltb 0 n ≡ true = ground arith in
      rw (e, positive)
        (ap (λ r. cons_loop f (n / 10) (k + 1) r)
            (ap (λ j. (b'0' + n % 10) ∷ sep j (by_thousands s)) h
              ∙ sym (by_thousands-cons (b'0' + n % 10) s))
          ∙ cons_loop-by_thousands f (n / 10) (k + 1) ((b'0' + n % 10) ∷ s) (omega arith))
]

-- The two printers agree on a number that is not negative: formatWithCommas prints it as
-- formatDigitsWithCommas prints its decimal digits.
pub format_with_commas-eq-decimal :
    (n : ℕ) → format_with_commas (pos n) ≡ format_digits_with_commas (decimal n)
unfolding format_with_commas by_thousands
format_with_commas-eq-decimal zero = unfold format_digits_with_commas decimal in refl
format_with_commas-eq-decimal (suc k) =
    rw (format_digits_with_commas-eq-by_thousands, reverse-comma_loop, decimal-suc)
      (cons_loop-by_thousands (suc k) (suc k) 0 [] refl)
