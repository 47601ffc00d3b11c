-- ===== src/Coins/Selection.antt =====
-- The coin selection of internal/app/coin_selection.go: Toggle and Contains, and the sorted list of
-- outpoints, which does not depend on the order of a map's entries.
use virtual_private_node.Base.{
  ◌≡◌, ◌≢◌, ◌↔◌, ◌⊎◌, refl, ap, true, false, List, [], ◌∷◌, arith, inl, inr, Bool-cases, All,
  Member, Distinct,
}
use virtual_private_node.Base.Text.{Text, same, same_sound, same_refl, before}
use virtual_private_node.Coins.{insert, sort}

pub before_irrefl : (s : Text) → before s s ≡ false
before_irrefl [] = refl
before_irrefl (c ∷ s) = ground (arith, before_irrefl s)

pub before_trans : (s t u : Text) → before s t ≡ true → before t u ≡ true → before s u ≡ true
before_trans [] [] u p q = cc
before_trans [] (b ∷ t) [] p q = cc
before_trans [] (b ∷ t) (c ∷ u) p q = refl
before_trans (a ∷ s) [] u p q = cc
before_trans (a ∷ s) (b ∷ t) [] p q = cc
before_trans (a ∷ s) (b ∷ t) (c ∷ u) p q = ground (arith, before_trans s t u)

before_total : (s t : Text) → before s t ≡ false → s ≢ t → before t s ≡ true
before_total [] [] h n = absurd (n refl)
before_total [] (b ∷ t) h n = absurd (cc h)
before_total (a ∷ s) [] h n = refl
before_total (a ∷ s) (b ∷ t) h n = elim (Bool-cases (same s t)) [
  | inl e ↦
      let tails = same_sound s t e in
      let heads : a ≢ b = λ p. n (cc (p, tails)) in ground (arith, heads)
  | inr e ↦ let tails : s ≢ t = λ p. cc (e, p, same_refl t) in ground (arith, before_total s t)
]

-- Every name is before the names that follow it.
abbrev pub IsSorted : List Text → Type 0
IsSorted [] = Unit
IsSorted (k ∷ keys) = All (λ j. before k j ≡ true) keys × IsSorted keys

Member-of_insert :
    (op t : Text) (keys : List Text) → Member t (insert op keys) → (op ≡ t) ⊎ Member t keys
unfolding insert
Member-of_insert op t [] m = m
Member-of_insert op t (k ∷ keys) m = elim (Bool-cases (before k op)) [
  | inl e ↦ elim (let m' : Member t (k ∷ insert op keys) = rw e at m in m') [
    | inl this ↦ inr (inl this)
    | inr later ↦ elim (Member-of_insert op t keys later) [
      | inl this ↦ inl this
      | inr old ↦ inr (inr old)
    ]
  ]
  | inr e ↦ rw e at m
]

Member-insert :
    (op t : Text) (keys : List Text) → (op ≡ t) ⊎ Member t keys → Member t (insert op keys)
unfolding insert
Member-insert op t [] m = m
Member-insert op t (k ∷ keys) m = elim (Bool-cases (before k op)) [
  | inl e ↦ rw e (elim m [
    | inl this ↦ inr (Member-insert op t keys (inl this))
    | inr (inl head) ↦ inl head
    | inr (inr old) ↦ inr (Member-insert op t keys (inr old))
  ])
  | inr e ↦ rw e m
]

pub Member-sort : (t : Text) (keys : List Text) → Member t (sort keys) ↔ Member t keys
unfolding sort
Member-sort t [] = (λ m. m, λ m. m)
Member-sort t (k ∷ keys) =
    let ih = Member-sort t keys in
    (
      λ m. elim (Member-of_insert k t (sort keys) m) [ inl e ↦ inl e | inr o ↦ inr (ih.0 o) ],
      λ m. Member-insert k t (sort keys) (elim m [ inl e ↦ inl e | inr o ↦ inr (ih.1 o) ]),
    )

All-insert :
    (P : Text → Type 0) (op : Text) (keys : List Text) → P op → All P keys → All P (insert op keys)
unfolding insert
All-insert P op [] p h = (p, tt)
All-insert P op (k ∷ keys) p h = elim (Bool-cases (before k op)) [
  | inl e ↦ rw e (h.0, All-insert P op keys p h.1)
  | inr e ↦ rw e (p, h)
]

All-before :
    (s k : Text) (keys : List Text)
    → before s k ≡ true
    → All (λ j. before k j ≡ true) keys
    → All (λ j. before s j ≡ true) keys
All-before s k [] b h = tt
All-before s k (j ∷ keys) b h = (before_trans s k j b h.0, All-before s k keys b h.1)

insert-IsSorted :
    (op : Text) (keys : List Text) → IsSorted keys → ¬ (Member op keys) → IsSorted (insert op keys)
unfolding insert
insert-IsSorted op [] h n = (tt, tt)
insert-IsSorted op (k ∷ keys) h n = elim (Bool-cases (before k op)) [
  | inl e ↦ rw e (All-insert _ op keys e h.0, insert-IsSorted op keys h.1 (λ m. n (inr m)))
  | inr e ↦
      let first = before_total k op e (λ p. n (inl p)) in
      rw e ((first, All-before op k keys first h.0), h)
]

pub sort-IsSorted : (keys : List Text) → Distinct keys → IsSorted (sort keys)
unfolding sort
sort-IsSorted [] d = tt
sort-IsSorted (k ∷ keys) d =
    insert-IsSorted k (sort keys) (sort-IsSorted keys d.1) (λ m. d.0 ((Member-sort k keys).0 m))

pub Member-before :
    (k t : Text) (keys : List Text)
    → All (λ j. before k j ≡ true) keys
    → Member t keys
    → before k t ≡ true
Member-before k t [] h m = absurd m
Member-before k t (j ∷ keys) h (inl e) = rw (← e) h.0
Member-before k t (j ∷ keys) h (inr m) = Member-before k t keys h.1 m

pub not-before_self : (k t : Text) → before k t ≡ true → t ≢ k
not-before_self k t b e = cc (b, ap (before k) e, before_irrefl k)
