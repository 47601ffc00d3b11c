-- ===== src/Base/Decimal.antt =====
-- Decimal print of a number, as `%d` writes it, and the number that digits spell.
use Prim.Native.Nat.{ℕ, zero, suc, ◌+◌, ◌-◌, ◌*◌, ◌/◌, ◌%◌, ◌<◌, ◌≤◌}
use mathlib.Core.Path.{◌≡◌, sym, ap, ◌∙◌}
use mathlib.Core.Logic.{inl, inr}
use mathlib.Core.List.{[], ◌∷◌}
use native.Mathlib.Omega.{arith}
use virtual_private_node.Base.Tests.{◌==◌, if◌then◌else◌, Bool-cases}
use virtual_private_node.Base.Lists.{All, length}
use virtual_private_node.Base.Text.{Text}
use virtual_private_node.Base.Int.{ℤ, pos, negsuc}

-- The digits of `n` in front of `acc`. As `n / 10 < n`, the fuel `n` is enough.
unfoldable pub digits : ℕ → ℕ → Text → Text
digits zero n acc = acc
digits (suc f) n acc =
    let rest = digits f (n / 10) ((b'0' + n % 10) ∷ acc) in if n == 0 then acc else rest

unfoldable pub decimal : ℕ → Text
unfolding digits
decimal n = if n == 0 then b'0' ∷ [] else digits n n []

-- The number that digits spell behind `n`.
abbrev pub value : ℕ → Text → ℕ
value front [] = front
value front (next ∷ rest) = value (front * 10 + (next - b'0')) rest

abbrev pub IsDigit : ℕ → Type 0
IsDigit character = (b'0' ≤ character) × (character ≤ b'9')

value-digits : (f n : ℕ) (acc : Text) → n ≤ f → value 0 (digits f n acc) ≡ value n acc
unfolding digits
value-digits zero n acc h = ap (λ k. value k acc) (omega arith)
value-digits (suc f) n acc h = elim (Bool-cases (n == 0)) [
  | inl e ↦ ground arith
  | inr e ↦ rw e (
      value-digits f (n / 10) ((b'0' + n % 10) ∷ acc) (ground arith)
      ∙ ap (λ k. value k acc) (omega arith))
]

pub All-digits : (f n : ℕ) (acc : Text) → All IsDigit acc → All IsDigit (digits f n acc)
unfolding digits
All-digits zero n acc h = h
All-digits (suc f) n acc h = elim (Bool-cases (n == 0)) [
  | inl e ↦ rw e h
  | inr e ↦ rw e (All-digits f (n / 10) ((b'0' + n % 10) ∷ acc) ((omega arith, omega arith), h))
]

pub value-decimal : (n : ℕ) → value 0 (decimal n) ≡ n
unfolding decimal
value-decimal n = elim (Bool-cases (n == 0)) [
  | inl e ↦ ground arith
  | inr e ↦ rw e (value-digits n n [] (omega arith))
]

pub decimal-IsDigit : (n : ℕ) → All IsDigit (decimal n)
unfolding decimal
decimal-IsDigit n = elim (Bool-cases (n == 0)) [
  | inl e ↦ rw e ((omega arith, omega arith), tt)
  | inr e ↦ rw e (All-digits n n [] tt)
]

pub decimal-injective : (m n : ℕ) → decimal m ≡ decimal n → m ≡ n
decimal-injective m n e = sym (value-decimal m) ∙ ap (value 0) e ∙ value-decimal n

abbrev pub ten_to : ℕ → ℕ
ten_to zero = 1
ten_to (suc k) = 10 * ten_to k

ten_to-pos : (k : ℕ) → 1 ≤ ten_to k
ten_to-pos zero = omega arith
ten_to-pos (suc k) = omega (arith, ten_to-pos k)

shift_bound : (n x t : ℕ) → x ≤ 9 → (n * 10 + x + 1) * t ≤ (n + 1) * (10 * t)
shift_bound n x t h = grind arith

-- At most `k` digits behind `n` spell a number below (n + 1) * 10 ^ k.
pub value-lt_ten_to :
    (k n : ℕ) (s : Text) → All IsDigit s → length s ≤ k → value n s + 1 ≤ (n + 1) * ten_to k
value-lt_ten_to k n [] h fits = grind (arith, ten_to-pos k)
value-lt_ten_to zero n (c ∷ s) h fits = absurd (omega arith)
value-lt_ten_to (suc k) n (c ∷ s) h fits = omega (
  arith,
  value-lt_ten_to k (n * 10 + (c - b'0')) s h.1 (omega arith),
  shift_bound n (c - b'0') (ten_to k) (omega arith),
)

-- A number below 10 ^ k is printed with at most `k` digits.
pub length-digits :
    (k f n : ℕ) (acc : Text) → n < ten_to k → length (digits f n acc) ≤ k + length acc
unfolding digits
length-digits k zero n acc h = omega arith
length-digits zero (suc f) n acc h = ground arith
length-digits (suc k) (suc f) n acc h = elim (Bool-cases (n == 0)) [
  | inl e ↦ rw e (omega arith)
  | inr e ↦ rw e (omega (arith, length-digits k f (n / 10) ((b'0' + n % 10) ∷ acc) (omega arith)))
]

-- `%d` of an `int`.
abbrev pub decimal_int : ℤ → Text
decimal_int (pos n) = decimal n
decimal_int (negsuc n) = b'-' ∷ decimal (suc n)

-- A print of digits does not begin with a minus sign.
decimal_head : (n : ℕ) (s : Text) → All IsDigit s → s ≡ b'-' ∷ decimal n → ⊥
decimal_head n [] h e = cc
decimal_head n (c ∷ s) h e = omega (arith, h.0.0, ap head_or e)
  where
    head_or : Text → ℕ
    head_or [] = 0
    head_or (c ∷ s) = c

pub decimal_int-injective : (a b : ℤ) → decimal_int a ≡ decimal_int b → a ≡ b
decimal_int-injective (pos m) (pos n) e = ap pos (decimal-injective m n e)
decimal_int-injective (pos m) (negsuc n) e =
    absurd (decimal_head (suc n) (decimal m) (decimal-IsDigit m) e)
decimal_int-injective (negsuc m) (pos n) e =
    absurd (decimal_head (suc m) (decimal n) (decimal-IsDigit n) (sym e))
decimal_int-injective (negsuc m) (negsuc n) e =
    let p : suc m ≡ suc n = decimal-injective (suc m) (suc n) (cc) in ap negsuc (omega arith)
