-- ===== src/Coins.antt =====
-- Coin identity and coin selection (internal/app/coin_selection.go, UTXO of
-- internal/lndrpc/onchain.go). A Go map is the list of its entries, the newest first.
pub mod Outpoint
pub mod Resolve
pub mod Accepts
pub mod Selection
pub mod Canonical
use virtual_private_node.Base.{
  ℕ, zero, suc, ◌+◌, ◌≡◌, Bool, true, false, ◌||◌, Option, none, some, List, [], ◌∷◌, ◌++◌,
  if◌then◌else◌, Result, ok, err, ◌>>=◌, length,
}
use virtual_private_node.Base.Int.{ℤ, pos, ◌+ℤ◌, wrap64}
use virtual_private_node.Base.Text.{Text, same, before, contains}
use virtual_private_node.Base.Decimal.{decimal_int}

pub record Utxo : Type 0 where
  pub txid : Text
  pub vout : ℤ
  pub amount_sats : ℤ
  pub confirmations : ℤ
  pub address : Text
  pub pk_script : Text

-- fmt.Sprintf("%s:%d", coin.Txid, coin.Vout)
unfoldable pub coin_outpoint : Utxo → Text
coin_outpoint coin = coin.txid ++ b':' ∷ decimal_int coin.vout

pub data CoinError : Type 0 where
  duplicate : Text → CoinError
  unavailable : Text → CoinError

abbrev pub lookup : Text → List (Text × Utxo) → Option Utxo
lookup k [] = none
lookup k ((j, v) ∷ m) = if same j k then some v else lookup k m

-- The loop that fills `byOutpoint`: a later coin replaces an earlier one of the same outpoint.
unfoldable pub by_outpoint : List Utxo → List (Text × Utxo) → List (Text × Utxo)
by_outpoint [] table = table
by_outpoint (coin ∷ available) table = by_outpoint available ((coin_outpoint coin, coin) ∷ table)

-- The loop over the outpoints, with the names seen and the coins found so far.
unfoldable pub resolve_loop :
    List (Text × Utxo) → List Text → List Text → List Utxo → Result CoinError (List Utxo)
resolve_loop table [] seen coins = ok coins
resolve_loop table (op ∷ outpoints) seen coins =
    if contains seen op then err (duplicate op) else elim (lookup op table) [
      | none ↦ err (unavailable op)
      | some coin ↦ resolve_loop table outpoints (op ∷ seen) (coins ++ coin ∷ [])
    ]

unfoldable pub resolve_coins : List Text → List Utxo → Result CoinError (List Utxo)
unfolding resolve_loop by_outpoint
resolve_coins outpoints available = resolve_loop (by_outpoint available []) outpoints [] []

-- The keys of the map `outpoints`. Only `true` is ever stored, so a key stands for a selected coin,
-- and a nil map has the same keys as an empty one.
pub record CoinSelection : Type 0 where
  pub outpoints : List Text

-- delete(m, op)
unfoldable pub without : Text → List Text → List Text
without op [] = []
without op (k ∷ keys) = let rest = without op keys in if same k op then rest else k ∷ rest

unfoldable pub toggle : Utxo → CoinSelection → CoinSelection
unfolding without coin_outpoint
toggle coin s =
    let op = coin_outpoint coin in
    if contains s.outpoints op
    then record { outpoints = without op s.outpoints }
    else record { outpoints = op ∷ s.outpoints }

unfoldable pub selects : CoinSelection → Utxo → Bool
unfolding coin_outpoint
selects s coin = contains s.outpoints (coin_outpoint coin)

-- sort.Strings
unfoldable pub insert : Text → List Text → List Text
insert op [] = op ∷ []
insert op (k ∷ keys) = let rest = insert op keys in if before k op then k ∷ rest else op ∷ k ∷ keys

unfoldable pub sort : List Text → List Text
unfolding insert
sort [] = []
sort (op ∷ keys) = insert op (sort keys)

unfoldable pub sorted_outpoints : CoinSelection → List Text
unfolding sort
sorted_outpoints s = sort s.outpoints

unfoldable pub count : CoinSelection → ℕ
count s = length s.outpoints

unfoldable pub clear : CoinSelection → CoinSelection
clear s = record { outpoints = [] }

-- `total += coin.AmountSats` in int64.
unfoldable pub sum_from : ℤ → List Utxo → ℤ
sum_from total [] = total
sum_from total (coin ∷ coins) = sum_from (wrap64 (total +ℤ coin.amount_sats)) coins

unfoldable pub total : CoinSelection → List Utxo → Result CoinError ℤ
unfolding sorted_outpoints resolve_coins sum_from
total s available = do
  coins ← resolve_coins (sorted_outpoints s) available
  ok (sum_from (pos 0) coins)
