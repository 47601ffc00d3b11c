-- ===== src/Amount/Format.antt =====
-- The formatting primitives of internal/tui/amount_input.go: parsing, printing, filtering.
pub mod Grouping
pub mod RoundTrip
use mathlib.Core.List.{reverse}
use virtual_private_node.Base.{
  ℕ, zero, suc, ◌+◌, ◌-◌, ◌*◌, ◌/◌, ◌%◌, ◌^◌, ◌≤◌, ◌<◌, ◌≡◌, refl, Bool, true, false, ◌&&◌, ◌||◌,
  Option, none, some, List, [], ◌∷◌, ◌++◌, leb, ltb, ◌==◌, if◌then◌else◌, length, take, drop,
}
use virtual_private_node.Base.Int.{ℤ, pos, negsuc, pos_part, ◌-ℤ◌, wrap64, of_bits64}
use virtual_private_node.Base.Text.{Text, is_empty, trim_space}

abbrev pub is_digit : ℕ → Bool
is_digit c = leb b'0' c && leb c b'9'

-- The loop of parseSats on the 64-bit pattern of `n`; the first other character makes it 0.
unfoldable pub parse_loop : Text → ℕ → ℤ
parse_loop [] n = of_bits64 n
parse_loop (c ∷ s) n =
    let rest = parse_loop s ((n * 10 + (c - b'0')) % 2 ^ 64) in
    if ltb c b'0' || ltb b'9' c then pos 0 else rest

-- strings.ReplaceAll(val, ",", "")
abbrev pub without_commas : Text → Text
without_commas [] = []
without_commas (c ∷ s) = let rest = without_commas s in if c == b',' then rest else c ∷ rest

unfoldable pub parse_sats : Text → ℤ
unfolding parse_loop
parse_sats val =
    let trimmed = trim_space (without_commas val) in
    if is_empty trimmed then pos 0 else parse_loop trimmed 0

-- The loop of formatWithCommas: `buf` holds the characters from the right. As `n / 10 < n`, the
-- fuel `n` is enough.
unfoldable pub comma_loop : ℕ → ℕ → ℕ → Text → Text
comma_loop zero n digits buf = buf
comma_loop (suc f) n digits buf =
    let sep = if ltb 0 digits && (digits % 3 == 0) then buf ++ b',' ∷ [] else buf in
    let rest = comma_loop f (n / 10) (digits + 1) (sep ++ (b'0' + n % 10) ∷ []) in
    if ltb 0 n then rest else buf

-- `n = -n` wraps, and the loop runs while `n > 0`.
unfoldable pub format_with_commas : ℤ → Text
unfolding comma_loop
format_with_commas (pos zero) = b'0' ∷ []
format_with_commas (pos (suc k)) = reverse (comma_loop (suc k) (suc k) 0 [])
format_with_commas (negsuc k) =
    let n = pos_part (wrap64 (pos 0 -ℤ negsuc k)) in b'-' ∷ reverse (comma_loop n n 0 [])

-- The loop of formatDigitsWithCommas: `,` and three digits at a time. Where fewer than three are
-- left the source would panic; the head is chosen so that this does not happen.
unfoldable pub groups : Text → Text
groups [] = []
groups (a ∷ b ∷ c ∷ rest) = b',' ∷ a ∷ b ∷ c ∷ groups rest
groups rest = b',' ∷ rest

abbrev pub head_of : ℕ → ℕ
head_of n = if n % 3 == 0 then 3 else n % 3

unfoldable pub format_digits_with_commas : Text → Text
unfolding groups
format_digits_with_commas digits =
    if leb (length digits) 3
    then digits
    else let head = head_of (length digits) in take head digits ++ groups (drop head digits)

unfoldable pub trim_leading_zeros : Text → Text × ℕ
trim_leading_zeros [] = ([], 0)
trim_leading_zeros (c ∷ s) =
    let (rest, i) = trim_leading_zeros s in if c == b'0' then (rest, suc i) else (c ∷ s, 0)

abbrev pub has_non_zero_digit : Text → Bool
has_non_zero_digit [] = false
has_non_zero_digit (c ∷ s) = (leb b'1' c && leb c b'9') || has_non_zero_digit s

abbrev pub filter_digits : Text → Text
filter_digits [] = []
filter_digits (c ∷ s) = let rest = filter_digits s in if is_digit c then c ∷ rest else rest

abbrev pub is_single_rune : Text → Bool
is_single_rune (c ∷ []) = true
is_single_rune s = false
