-- ===== src/Coins/Accepts.antt =====
-- Exactly which selections resolveCoins of internal/app/coin_selection.go accepts.
use virtual_private_node.Base.{
  ◌≡◌, ◌↔◌, refl, ap, false, some, List, [], ◌∷◌, map, inl, inr, ok, All, Member, Distinct,
}
use virtual_private_node.Base.Text.{Text, contains}
use virtual_private_node.Coins.{Utxo, coin_outpoint, lookup, by_outpoint, resolve_coins}
use virtual_private_node.Coins.Resolve.{
  resolve_loop_sound, resolve_loop_complete, lookup-by_outpoint_sound, lookup-by_outpoint_complete,
}

not-none-some : (op : Text) (coin : Utxo) → lookup op [] ≡ some coin → ⊥
not-none-some op coin h = cc

-- The coins behind the picked names.
picked_coins :
    (available : List Utxo) (ops : List Text) (found : List Utxo)
    → map (λ op. lookup op (by_outpoint available [])) ops ≡ map some found
    → (map coin_outpoint found ≡ ops) × All (λ c. Member c available) found
picked_coins available [] [] h = (refl, tt)
picked_coins available [] (c ∷ found) h = absurd (cc h)
picked_coins available (op ∷ ops) [] h = absurd (cc h)
picked_coins available (op ∷ ops) (c ∷ found) h =
    let ih = picked_coins available ops found (cc h) in
    elim (lookup-by_outpoint_sound available [] op c (cc h)) [
      | inl this ↦ (cc (this.0, ih.0), (this.1, ih.1))
      | inr older ↦ absurd (not-none-some op c older)
    ]

-- Accepted coins are available coins, one for each selected outpoint and in that order, and no
-- outpoint is selected twice.
pub resolve_coins_sound :
    (ops : List Text) (available coins : List Utxo)
    → resolve_coins ops available ≡ ok coins
    → (map coin_outpoint coins ≡ ops) × All (λ c. Member c available) coins × Distinct ops
unfolding resolve_coins
resolve_coins_sound ops available coins h =
    let (found, e, res) = resolve_loop_sound (by_outpoint available []) ops [] [] coins h in
    let all = picked_coins available ops found (res.picked) in rw e (all.0, all.1, res.distinct)

pick_each :
    (available : List Utxo) (ops : List Text)
    → All (λ op. Member op (map coin_outpoint available)) ops
    → (found : List Utxo) × (map (λ op. lookup op (by_outpoint available [])) ops ≡ map some found)
pick_each available [] h = ([], refl)
pick_each available (op ∷ ops) h =
    let (found, e) = pick_each available ops h.1 in
    let (coin, l) = lookup-by_outpoint_complete available [] op (inr h.0) in
    (coin ∷ found, cc (e, l))

none-seen : (ops : List Text) → All (λ op. contains [] op ≡ false) ops
none-seen [] = tt
none-seen (op ∷ ops) = (refl, none-seen ops)

-- A selection with no outpoint twice, every one of them available, is accepted.
pub resolve_coins_complete :
    (ops : List Text) (available : List Utxo)
    → Distinct ops
    → All (λ op. Member op (map coin_outpoint available)) ops
    → (coins : List Utxo) × (resolve_coins ops available ≡ ok coins)
unfolding resolve_coins
resolve_coins_complete ops available d a =
    let (found, e) = pick_each available ops a in
    (
      found,
      resolve_loop_complete (by_outpoint available []) ops [] [] found
          (record { picked = e; distinct = d; fresh = none-seen ops }),
    )

all_available :
    (available : List Utxo) (coins : List Utxo)
    → All (λ c. Member c available) coins
    → All (λ op. Member op (map coin_outpoint available)) (map coin_outpoint coins)
all_available available [] h = tt
all_available available (c ∷ coins) h = (go available h.0, all_available available coins h.1)
  where
    go : (l : List Utxo) → Member c l → Member (coin_outpoint c) (map coin_outpoint l)
    go [] m = absurd m
    go (x ∷ l) (inl e) = inl (ap coin_outpoint e)
    go (x ∷ l) (inr m) = inr (go l m)

-- resolveCoins succeeds exactly on the selections that name no outpoint twice and only available
-- ones.
pub resolve_coins_iff :
    (ops : List Text) (available : List Utxo)
    → ((coins : List Utxo) × (resolve_coins ops available ≡ ok coins))
      ↔ (Distinct ops × All (λ op. Member op (map coin_outpoint available)) ops)
resolve_coins_iff ops available = (
  λ (coins, h).
      let parts = resolve_coins_sound ops available coins h in
      (parts.2, rw (← parts.0) (all_available available coins parts.1)),
  λ (d, a). resolve_coins_complete ops available d a,
)
