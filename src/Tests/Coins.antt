-- ===== src/Tests/Coins.antt =====
-- Coin selection of internal/app/coin_selection.go at concrete coins.
use virtual_private_node.Base.{
  ◌≡◌, ◌≢◌, ◌↔◌, refl, sym, ap, true, false, List, [], ◌∷◌, map, ok, All, Member, Distinct, inl,
  inr,
}
use virtual_private_node.Base.Int.{pos}
use virtual_private_node.Base.Text.{Text, codes, same}
use virtual_private_node.Base.Decimal.{decimal}
use virtual_private_node.Coins.{
  Utxo, coin_outpoint, CoinSelection, sorted_outpoints, resolve_coins, total,
}
use virtual_private_node.Coins.Outpoint.{coin_outpoint-injective}
use virtual_private_node.Coins.Accepts.{resolve_coins_iff}
use virtual_private_node.Coins.Selection.{IsSorted}
use virtual_private_node.Coins.Canonical.{sorted_outpoints_lem, total_canonical}

abbrev a_coin : Utxo
a_coin = record {
  txid = codes "aa";
  vout = pos 0;
  amount_sats = pos 700;
  confirmations = pos 3;
  address = [];
  pk_script = [];
}

abbrev b_coin : Utxo
b_coin = record a_coin { txid = codes "bb"; vout = pos 1; amount_sats = pos 900 }

abbrev coins : List Utxo
coins = a_coin ∷ b_coin ∷ []

abbrev names : List Text
names = codes "bb:1" ∷ codes "aa:0" ∷ []

abbrev both : CoinSelection
both = record { outpoints = names }

abbrev swapped : CoinSelection
swapped = record { outpoints = codes "aa:0" ∷ codes "bb:1" ∷ [] }

names-differ : codes "aa:0" ≢ codes "bb:1"
names-differ h = let clash : true ≡ false = ap (same (codes "aa:0")) h in cc

names-Distinct : Distinct names
names-Distinct = (λ m. elim m [ inl e ↦ names-differ e | inr n ↦ n ], (λ m. m, tt))

swapped-Distinct : Distinct swapped.outpoints
swapped-Distinct = (λ m. elim m [ inl e ↦ names-differ (sym e) | inr n ↦ n ], (λ m. m, tt))

swap : (op : Text) → Member op both.outpoints ↔ Member op swapped.outpoints
swap op = (
  λ m. elim m [
    | inl e ↦ inr (inl e)
    | inr n ↦ elim n [ inl e ↦ inl e | inr none_left ↦ absurd none_left ]
  ],
  λ m. elim m [
    | inl e ↦ inr (inl e)
    | inr n ↦ elim n [ inl e ↦ inl e | inr none_left ↦ absurd none_left ]
  ],
)

accepted : resolve_coins names coins ≡ ok (b_coin ∷ a_coin ∷ [])
unfolding resolve_coins coin_outpoint decimal
accepted = refl

coin_outpoint-injective_example : (a_coin.txid ≡ a_coin.txid) × (a_coin.vout ≡ a_coin.vout)
coin_outpoint-injective_example = coin_outpoint-injective a_coin a_coin refl

resolve_coins_iff_example :
    ((found : List Utxo) × (resolve_coins names coins ≡ ok found))
    ↔ (Distinct names × All (λ op. Member op (map coin_outpoint coins)) names)
resolve_coins_iff_example = resolve_coins_iff names coins

sorted_outpoints_lem_example :
    IsSorted (sorted_outpoints both)
    × ((op : Text) → Member op (sorted_outpoints both) ↔ Member op both.outpoints)
sorted_outpoints_lem_example = sorted_outpoints_lem both names-Distinct

total_canonical_example : total both coins ≡ total swapped coins
total_canonical_example = total_canonical both swapped coins names-Distinct swapped-Distinct swap
