-- ===== src/Coins/Canonical.antt =====
-- Toggle, Outpoints and Total of internal/app/coin_selection.go: what a selection means does not
-- depend on the order in which its map lists the coins.
use virtual_private_node.Base.{
  ℕ, ◌+◌, ◌≤◌, ◌≡◌, ◌↔◌, refl, ap, sym, ◌∙◌, true, false, not, ◌||◌, List, [], ◌∷◌, arith, inl, inr,
  Bool-cases, if◌then◌else◌, All, Member, Distinct,
}
use virtual_private_node.Base.Int.{ℤ, pos, max_int64, ◌+ℤ◌, wrap64, negsuc, pos_part, neg_part}
use virtual_private_node.Base.Text.{Text, same, same_sound, before, contains}
use virtual_private_node.Coins.{
  Utxo, coin_outpoint, CoinSelection, without, toggle, selects, sort, sorted_outpoints, sum_from,
  total,
}
use virtual_private_node.Coins.Resolve.{contains_complete}
use virtual_private_node.Coins.Selection.{
  IsSorted, before_trans, before_irrefl, Member-before, Member-sort, sort-IsSorted, not-before_self,
}

both_before : (s t : Text) → before s t ≡ true → before t s ≡ true → ⊥
both_before s t p q = cc (before_trans s t s p q, before_irrefl s)

-- The heads of two sorted lists with the same members are equal.
same_head :
    (x y : Text) (xs ys : List Text)
    → IsSorted (x ∷ xs)
    → IsSorted (y ∷ ys)
    → Member x (y ∷ ys)
    → Member y (x ∷ xs)
    → x ≡ y
same_head x y xs ys hx hy (inl e) m = sym e
same_head x y xs ys hx hy (inr l) (inl e) = e
same_head x y xs ys hx hy (inr l) (inr r) =
    absurd (both_before x y (Member-before x y xs hx.0 r) (Member-before y x ys hy.0 l))

tail_Member :
    (x t : Text) (xs ys : List Text)
    → IsSorted (x ∷ xs)
    → Member t xs
    → Member t (x ∷ ys)
    → Member t ys
tail_Member x t xs ys hx m (inl e) =
    absurd (not-before_self x t (Member-before x t xs hx.0 m) (sym e))
tail_Member x t xs ys hx m (inr l) = l

-- Two sorted lists with the same members are equal.
sorted_unique :
    (xs ys : List Text)
    → IsSorted xs
    → IsSorted ys
    → ((t : Text) → Member t xs → Member t ys)
    → ((t : Text) → Member t ys → Member t xs)
    → xs ≡ ys
sorted_unique [] [] hx hy f g = refl
sorted_unique [] (y ∷ ys) hx hy f g = absurd (g y (inl refl))
sorted_unique (x ∷ xs) [] hx hy f g = absurd (f x (inl refl))
sorted_unique (x ∷ xs) (y ∷ ys) hx hy f g =
    let e = same_head x y xs ys hx hy (f x (inl refl)) (g y (inl refl)) in
    let ih =
      sorted_unique xs ys hx.1 hy.1 (λ t m. tail_Member x t xs ys hx m (rw e (f t (inr m))))
        (λ t m. tail_Member y t ys xs hy m (rw (← e) (g t (inr m)))) in
    cc (e, ih)

-- Two selections without repetition that hold the same outpoints list them the same way.
pub sorted_outpoints_canonical :
    (s t : CoinSelection)
    → Distinct s.outpoints
    → Distinct t.outpoints
    → ((op : Text) → Member op s.outpoints ↔ Member op t.outpoints)
    → sorted_outpoints s ≡ sorted_outpoints t
unfolding sorted_outpoints
sorted_outpoints_canonical s t ds dt h =
    sorted_unique (sort s.outpoints) (sort t.outpoints) (sort-IsSorted s.outpoints ds)
      (sort-IsSorted t.outpoints dt)
      (λ op m. (Member-sort op t.outpoints).1 ((h op).0 ((Member-sort op s.outpoints).0 m)))
      (λ op m. (Member-sort op s.outpoints).1 ((h op).1 ((Member-sort op t.outpoints).0 m)))

-- The list of a selection without repetition is sorted, and holds the selected outpoints.
pub sorted_outpoints_lem :
    (s : CoinSelection)
    → Distinct s.outpoints
    → IsSorted (sorted_outpoints s)
      × ((op : Text) → Member op (sorted_outpoints s) ↔ Member op s.outpoints)
unfolding sorted_outpoints
sorted_outpoints_lem s d = (sort-IsSorted s.outpoints d, λ op. Member-sort op s.outpoints)

contains-without :
    (op t : Text) (keys : List Text)
    → contains (without op keys) t ≡ (if same op t then false else contains keys t)
unfolding without
contains-without op t [] = ground arith
contains-without op t (k ∷ keys) = elim (Bool-cases (same k op)) [
  | inl e ↦
      let this = same_sound k op e in rw (e, contains-without op t keys, ← this) (ground arith)
  | inr e ↦ elim (Bool-cases (same op t)) [
    | inl f ↦
        let here : same k t ≡ false = cc (e, ap (same k) (same_sound op t f)) in
        rw (e, f, here) (contains-without op t keys ∙ (rw f))
    | inr f ↦ rw (e, f) (ap (λ b. same k t || b) (contains-without op t keys ∙ (rw f)))
  ]
]

contains-flip :
    (op t : Text) (keys : List Text)
    → contains (if contains keys op then without op keys else op ∷ keys) t
      ≡ (if same op t then not (contains keys t) else contains keys t)
contains-flip op t keys = elim (Bool-cases (contains keys op)) [
  | inl e ↦
      rw (e, contains-without op t keys)
        (elim (Bool-cases (same op t)) [
          | inl f ↦
              let chosen : contains keys t ≡ true = cc (e, same_sound op t f) in rw (f, chosen)
          | inr f ↦ rw f
        ])
  | inr e ↦ rw e (elim (Bool-cases (same op t)) [
    | inl f ↦ let free : contains keys t ≡ false = cc (e, same_sound op t f) in rw (f, free)
    | inr f ↦ rw f
  ])
]

toggle_outpoints :
    (s : CoinSelection) (coin : Utxo)
    → (toggle coin s).outpoints ≡ (
        if contains s.outpoints (coin_outpoint coin)
        then without (coin_outpoint coin) s.outpoints
        else coin_outpoint coin ∷ s.outpoints)
unfolding toggle
toggle_outpoints s coin = elim (Bool-cases (contains s.outpoints (coin_outpoint coin))) [
  | inl e ↦ rw e
  | inr e ↦ rw e
]

-- Toggling a coin flips the choice of the coins with its outpoint and of no other coin.
pub selects-toggle :
    (s : CoinSelection) (coin other : Utxo)
    → selects (toggle coin s) other ≡ (
        if same (coin_outpoint coin) (coin_outpoint other)
        then not (selects s other)
        else selects s other)
unfolding selects
selects-toggle s coin other =
    ap (λ keys. contains keys (coin_outpoint other)) (toggle_outpoints s coin)
    ∙ contains-flip (coin_outpoint coin) (coin_outpoint other) s.outpoints

without-Member : (op t : Text) (keys : List Text) → Member t (without op keys) → Member t keys
unfolding without
without-Member op t [] m = m
without-Member op t (k ∷ keys) m = elim (Bool-cases (same k op)) [
  | inl e ↦ inr (without-Member op t keys (rw e at m))
  | inr e ↦ elim (let m' : Member t (k ∷ without op keys) = rw e at m in m') [
    | inl this ↦ inl this
    | inr later ↦ inr (without-Member op t keys later)
  ]
]

without-Distinct : (op : Text) (keys : List Text) → Distinct keys → Distinct (without op keys)
unfolding without
without-Distinct op [] d = tt
without-Distinct op (k ∷ keys) d = elim (Bool-cases (same k op)) [
  | inl e ↦ rw e (without-Distinct op keys d.1)
  | inr e ↦ rw e (λ m. d.0 (without-Member op k keys m), without-Distinct op keys d.1)
]

-- Toggling keeps a selection free of repetitions.
pub toggle-Distinct :
    (s : CoinSelection) (coin : Utxo) → Distinct s.outpoints → Distinct (toggle coin s).outpoints
unfolding toggle
toggle-Distinct s coin d = elim (Bool-cases (contains s.outpoints (coin_outpoint coin))) [
  | inl e ↦ rw e (without-Distinct (coin_outpoint coin) s.outpoints d)
  | inr e ↦ rw e (λ m. cc (e, contains_complete s.outpoints (coin_outpoint coin) m), d)
]

-- The sum of amounts that are not negative, as a number.
abbrev pub plain_sum : List Utxo → ℕ
plain_sum [] = 0
plain_sum (coin ∷ coins) = pos_part coin.amount_sats + plain_sum coins

abbrev pub IsCredit : Utxo → Type 0
IsCredit coin = neg_part coin.amount_sats ≡ 0

add_credit :
    (n : ℕ) (z : ℤ)
    → neg_part z ≡ 0
    → n + pos_part z ≤ max_int64
    → wrap64 (pos n +ℤ z) ≡ pos (n + pos_part z)
add_credit n (pos a) h fits = ground arith
add_credit n (negsuc a) h fits = absurd (omega arith)

-- Where the amounts are not negative and their sum fits an int64, the loop computes the sum.
pub sum_from-plain_sum :
    (n : ℕ) (coins : List Utxo)
    → All IsCredit coins
    → n + plain_sum coins ≤ max_int64
    → sum_from (pos n) coins ≡ pos (n + plain_sum coins)
unfolding sum_from
sum_from-plain_sum n [] h fits = ap pos (omega arith)
sum_from-plain_sum n (coin ∷ coins) h fits = rw (add_credit n coin.amount_sats h.0 (omega arith)) (
    sum_from-plain_sum (n + pos_part coin.amount_sats) coins h.1 (omega arith)
    ∙ ap pos (omega arith))

-- The total of a selection does not depend on the order of its map: it is the total of every
-- selection without repetition that holds the same outpoints.
pub total_canonical :
    (s t : CoinSelection) (available : List Utxo)
    → Distinct s.outpoints
    → Distinct t.outpoints
    → ((op : Text) → Member op s.outpoints ↔ Member op t.outpoints)
    → total s available ≡ total t available
unfolding total
total_canonical s t available ds dt h = rw (sorted_outpoints_canonical s t ds dt h)
