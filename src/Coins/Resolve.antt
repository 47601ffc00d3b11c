-- ===== src/Coins/Resolve.antt =====
-- resolveCoins of internal/app/coin_selection.go: which selections it accepts, and what it returns.
use virtual_private_node.Base.{
  ◌≡◌, ◌⊎◌, refl, ap, sym, ◌∙◌, true, false, none, some, List, [], ◌∷◌, ◌++◌, map, arith, inl, inr,
  Bool-cases, Option-cases, Result, ok, err, All, Member, Distinct,
}
use mathlib.Core.List.{append-nil, append_assoc}
use virtual_private_node.Base.Text.{Text, same, same_sound, same_refl, contains}
use virtual_private_node.Coins.{
  Utxo, coin_outpoint, CoinError, duplicate, unavailable, lookup, by_outpoint, resolve_loop,
}

pub contains_sound : (l : List Text) (t : Text) → contains l t ≡ true → Member t l
contains_sound [] t h = cc
contains_sound (s ∷ l) t h = elim (Bool-cases (same s t)) [
  | inl e ↦ inl (same_sound s t e)
  | inr e ↦ inr (contains_sound l t (rw e at h))
]

pub contains_complete : (l : List Text) (t : Text) → Member t l → contains l t ≡ true
contains_complete [] t m = absurd m
contains_complete (s ∷ l) t (inl e) = rw (e, same_refl t)
contains_complete (s ∷ l) t (inr m) = ground (arith, contains_complete l t m)

-- Where a looked-up coin comes from.
pub lookup-by_outpoint_sound :
    (available : List Utxo) (table : List (Text × Utxo)) (op : Text) (coin : Utxo)
    → lookup op (by_outpoint available table) ≡ some coin
    → ((coin_outpoint coin ≡ op) × Member coin available) ⊎ (lookup op table ≡ some coin)
unfolding by_outpoint
lookup-by_outpoint_sound [] table op coin h = inr h
lookup-by_outpoint_sound (c ∷ available) table op coin h =
    elim (lookup-by_outpoint_sound available ((coin_outpoint c, c) ∷ table) op coin h) [
      | inl found ↦ inl (found.0, inr found.1)
      | inr older ↦ elim (Bool-cases (same (coin_outpoint c) op)) [
        | inl e ↦
            let this : c ≡ coin = ground (arith, older) in
            inl (rw (sym this) (same_sound (coin_outpoint c) op e), inl this)
        | inr e ↦ inr (rw e at older)
      ]
    ]

-- A name that the table has, or that an available coin has, is found.
pub lookup-by_outpoint_complete :
    (available : List Utxo) (table : List (Text × Utxo)) (op : Text)
    → ((coin : Utxo) × (lookup op table ≡ some coin)) ⊎ Member op (map coin_outpoint available)
    → (coin : Utxo) × (lookup op (by_outpoint available table) ≡ some coin)
unfolding by_outpoint
lookup-by_outpoint_complete [] table op (inl found) = found
lookup-by_outpoint_complete [] table op (inr m) = absurd m
lookup-by_outpoint_complete (c ∷ available) table op h =
    lookup-by_outpoint_complete available ((coin_outpoint c, c) ∷ table) op
      (elim (Bool-cases (same (coin_outpoint c) op)) [
        | inl e ↦ inl (c, rw e)
        | inr e ↦ elim h [
          | inl found ↦ inl (found.0, rw e (found.1))
          | inr (inl this) ↦ absurd (cc (e, ap (λ k. same k op) this, same_refl op))
          | inr (inr m) ↦ inr m
        ]
      ])

-- What the loop over the outpoints finds.
pub record Resolves (table : List (Text × Utxo)) (ops seen : List Text) (found : List Utxo)
    : Type 0 where
  pub picked : map (λ op. lookup op table) ops ≡ map some found
  pub distinct : Distinct ops
  pub fresh : All (λ op. contains seen op ≡ false) ops

fresh-Member :
    (op : Text) (seen ops : List Text)
    → All (λ o. contains (op ∷ seen) o ≡ false) ops
    → ¬ (Member op ops) × All (λ o. contains seen o ≡ false) ops
fresh-Member op seen [] h = (λ m. m, tt)
fresh-Member op seen (o ∷ ops) h =
    let ih = fresh-Member op seen ops h.1 in
    (elim [ inl e ↦ cc (h.0, e, same_refl op) | inr m ↦ ih.0 m ], (ground arith, ih.1))

-- One round of the loop, by its two tests.
module _ (table : List (Text × Utxo)) (op : Text) (ops seen : List Text) (coins : List Utxo) where
  loop_seen :
      contains seen op ≡ true → resolve_loop table (op ∷ ops) seen coins ≡ err (duplicate op)
  unfolding resolve_loop
  loop_seen s = rw s

  loop_missing :
      contains seen op ≡ false
      → lookup op table ≡ none
      → resolve_loop table (op ∷ ops) seen coins ≡ err (unavailable op)
  unfolding resolve_loop
  loop_missing s l = rw (s, l)

  loop_found :
      (coin : Utxo)
      → contains seen op ≡ false
      → lookup op table ≡ some coin
      → resolve_loop table (op ∷ ops) seen coins
        ≡ resolve_loop table ops (op ∷ seen) (coins ++ coin ∷ [])
  unfolding resolve_loop
  loop_found coin s l = rw (s, l)

loop_end :
    (table : List (Text × Utxo)) (seen : List Text) (coins : List Utxo)
    → resolve_loop table [] seen coins ≡ ok coins
unfolding resolve_loop
loop_end table seen coins = refl

ok-ne-err :
    {r : Result CoinError (List Utxo)} {l : List Utxo} {e : CoinError} → r ≡ ok l → r ≡ err e → ⊥
ok-ne-err p q = cc

pub resolve_loop_sound :
    (table : List (Text × Utxo)) (ops seen : List Text) (coins r : List Utxo)
    → resolve_loop table ops seen coins ≡ ok r
    → (found : List Utxo) × (r ≡ coins ++ found) × Resolves table ops seen found
resolve_loop_sound table [] seen coins r h = (
  [],
  cc (h, loop_end table seen coins, append-nil coins),
  record { picked = refl; distinct = tt; fresh = tt },
)
resolve_loop_sound table (op ∷ ops) seen coins r h = elim (Bool-cases (contains seen op)) [
  | inl s ↦ absurd (ok-ne-err h (loop_seen table op ops seen coins s))
  | inr s ↦ elim (Option-cases (lookup op table)) [
    | inl l ↦ absurd (ok-ne-err h (loop_missing table op ops seen coins s l))
    | inr (coin, l) ↦
        let ih =
          resolve_loop_sound table ops (op ∷ seen) (coins ++ coin ∷ []) r
            (sym (loop_found table op ops seen coins coin s l) ∙ h) in
        let rest = fresh-Member op seen ops ih.2.fresh in
        (
          coin ∷ ih.0,
          ih.1 ∙ append_assoc coins (coin ∷ []) ih.0,
          record {
            picked = cc (l, ih.2.picked);
            distinct = (rest.0, ih.2.distinct);
            fresh = (s, rest.1);
          },
        )
  ]
]

fresh-after :
    (op : Text) (seen ops : List Text)
    → ¬ (Member op ops)
    → All (λ o. contains seen o ≡ false) ops
    → All (λ o. contains (op ∷ seen) o ≡ false) ops
fresh-after op seen [] n h = tt
fresh-after op seen (o ∷ ops) n h = (
  elim (Bool-cases (same op o)) [
    | inl e ↦ absurd (n (inl (sym (same_sound op o e))))
    | inr e ↦ rw e h.0
  ],
  fresh-after op seen ops (λ m. n (inr m)) h.1,
)

pub resolve_loop_complete :
    (table : List (Text × Utxo)) (ops seen : List Text) (coins found : List Utxo)
    → Resolves table ops seen found
    → resolve_loop table ops seen coins ≡ ok (coins ++ found)
resolve_loop_complete table [] seen coins [] h =
    loop_end table seen coins ∙ ap ok (sym (append-nil coins))
resolve_loop_complete table [] seen coins (c ∷ found) h = cc (h.picked)
resolve_loop_complete table (op ∷ ops) seen coins [] h = cc (h.picked)
resolve_loop_complete table (op ∷ ops) seen coins (c ∷ found) h =
    loop_found table op ops seen coins c (h.fresh.0) (cc (h.picked))
    ∙ resolve_loop_complete table ops (op ∷ seen) (coins ++ c ∷ []) found (record {
      picked = cc (h.picked);
      distinct = h.distinct.1;
      fresh = fresh-after op seen ops h.distinct.0 h.fresh.1;
    })
    ∙ ap ok (append_assoc coins (c ∷ []) found)
