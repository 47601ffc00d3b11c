-- ===== src/Amount/Editor/Cursor.antt =====
-- toDigitSpace and fromDigitSpace of internal/tui/amount_input.go undo one another.
use virtual_private_node.Base.{
  ℕ, zero, suc, ◌+◌, ◌-◌, ◌≤◌, ◌<◌, ◌≡◌, refl, ap, ◌∙◌, true, false, [], ◌∷◌, arith, ltb, ◌==◌,
  length, inl, inr, Bool-cases,
}
use virtual_private_node.Base.Text.{Text}
use virtual_private_node.Amount.Format.{without_commas}
use virtual_private_node.Amount.Editor.{to_digit_from, to_digit_space, land, from_digit_space}

-- A cursor at or before the first character has no digit on its left.
to_digit_before :
    (v : Text) (i display : ℕ) → display ≤ i → to_digit_from v i display ≡ (without_commas v, 0)
unfolding to_digit_from
to_digit_before [] i display h = refl
to_digit_before (c ∷ v) i display h =
    let right : ltb i display ≡ false = ground arith in
    rw (to_digit_before v (i + 1) display (omega arith), right)
      (elim (Bool-cases (c == b',')) [ inl e ↦ rw e | inr e ↦ rw e ])

-- The display position of the digit number `target`, and what toDigitSpace makes of it.
land_lem :
    (v : Text) (i count target : ℕ)
    → count < target
    → target ≤ count + length (without_commas v)
    → (i < land v i count target)
      × (land v i count target ≤ i + length v)
      × (to_digit_from v i (land v i count target) ≡ (without_commas v, target - count))
unfolding land to_digit_from
land_lem [] i count target h fits = absurd (omega arith)
land_lem (c ∷ v) i count target h fits = elim (Bool-cases (c == b',')) [
  | inl comma ↦
      let ih = land_lem v (i + 1) count target h (rw comma at fits) in
      rw comma (omega (arith, ih.0), omega (arith, ih.1), rw (ih.2))
  | inr digit ↦ elim (Bool-cases (count + 1 == target)) [
    | inl last ↦
        let left : ltb i (i + 1) ≡ true = ground arith in
        rw (digit, last, left, to_digit_before v (i + 1) (i + 1) (omega arith))
          (omega arith, omega arith, ap (λ k. (c ∷ without_commas v, k)) (ground arith))
    | inr more ↦
        let room : target ≤ count + suc (length (without_commas v)) = rw digit at fits in
        let ih = land_lem v (i + 1) (count + 1) target (ground arith) (omega arith) in
        let left : ltb i (land v (i + 1) (count + 1) target) ≡ true = ground (arith, ih.0) in
        rw (digit, more, left, ih.2)
          (
            omega (arith, ih.0),
            omega (arith, ih.1),
            ap (λ k. (c ∷ without_commas v, k)) (ground arith),
          )
  ]
]

-- Reading a field whose cursor was set at the digit position `p` gives the digits and `p` back, and
-- the cursor is inside the field.
pub to_digit_space-from_digit_space :
    (v : Text) (p : ℕ)
    → p ≤ length (without_commas v)
    → (to_digit_space v (from_digit_space v p) ≡ (without_commas v, p))
      × (from_digit_space v p ≤ length v)
unfolding to_digit_space from_digit_space
to_digit_space-from_digit_space v zero h = (to_digit_before v 0 0 (omega arith), omega arith)
to_digit_space-from_digit_space v (suc p) h =
    let found = land_lem v 0 0 (suc p) (omega arith) (omega arith) in
    let ahead : (suc p == 0) ≡ false = ground arith in
    rw ahead (found.2 ∙ ap (λ k. (without_commas v, k)) (omega arith), omega (arith, found.1))

-- What toDigitSpace reads: the text without its commas, and a position inside it.
pub to_digit_from_parts :
    (v : Text) (i display : ℕ)
    → ((to_digit_from v i display).0 ≡ without_commas v)
      × ((to_digit_from v i display).1 ≤ length (without_commas v))
unfolding to_digit_from
to_digit_from_parts [] i display = (refl, omega arith)
to_digit_from_parts (c ∷ v) i display =
    let ih = to_digit_from_parts v (i + 1) display in
    elim (Bool-cases (c == b',')) [
      | inl e ↦ rw e ih
      | inr e ↦ rw e (ap (λ r. c ∷ r) ih.0, ground (arith, ih.1))
    ]
