-- ===== src/Send.antt =====
-- On-chain sends: preparing a reviewed request and submitting it once
-- (internal/app/onchain_send.go, SendCoinsRequest and SendCoinsResult of
-- internal/lndrpc/onchain.go). Package btcutil is the parameter `Btcutil`.
pub mod Prepare
pub mod Submit
use virtual_private_node.Base.{
  ℕ, String, ◌≤◌, ◌≡◌, ◌≢◌, Bool, true, false, not, ◌&&◌, ◌||◌, Option, none, some, List, [], ◌∷◌,
  ◌++◌, leb, ltb, ◌==◌, if◌then◌else◌, str_eq, Result, ok, err, ◌>>=◌, ◌>>◌, guard,
}
use virtual_private_node.Base.Int.{ℤ, pos, ltb_ℤ, leb_ℤ, max_int64}
use virtual_private_node.Base.Text.{Text, is_empty, byte_len, trim_space}
use virtual_private_node.Coins.{Utxo, CoinError, resolve_coins}

pub data ChainParams : Type 0 where
  main_net test_net4 sig_net : ChainParams

-- What the sends use of package btcutil.
pub record Btcutil : Type 1 where
  pub Address : Type 0
  pub decode_address : Text → ChainParams → Option Address
  pub is_for_net : Address → ChainParams → Bool
  pub is_bare_key : Address → Bool
  pub encode_address : Address → Text
  pub max_satoshi : ℕ
  pub max_satoshi_fits : max_satoshi ≤ max_int64

pub record OnChainSendInput : Type 0 where
  pub address : Text
  pub amount_sats : ℤ
  pub send_all : Bool
  pub sat_per_vbyte : ℤ
  pub label : Text
  pub outpoints : List Text

pub record SendCoinsRequest : Type 0 where
  pub address : Text
  pub amount_sats : ℤ
  pub sat_per_vbyte : ℤ
  pub send_all : Bool
  pub label : Text
  pub outpoints : List Text
  pub min_confs : ℤ
  pub spend_unconfirmed : Bool

pub record PreparedOnChainSend : Type 0 where
  pub request : SendCoinsRequest
  pub coins : List Utxo

-- The error texts of the file; `service` is an error that the LND client returned.
pub data SendError : Type 0 where
  unsupported_network bad_address bare_key bad_amount bad_fee long_label : SendError
  review_first not_connected no_txid : SendError
  coin : CoinError → SendError
  service : Text → SendError

abbrev pub chain_params : String → Result SendError ChainParams
chain_params network =
    if str_eq network "mainnet"
    then ok main_net
    else if str_eq network "testnet4"
    then ok test_net4
    else if str_eq network "public-signet"
    then ok sig_net
    else err unsupported_network

abbrev pub coins_or : Result CoinError (List Utxo) → Result SendError (List Utxo)
coins_or (ok coins) = ok coins
coins_or (err e) = err (coin e)

module _ (lib : Btcutil) where
  open lib use {Address, decode_address, is_for_net, is_bare_key, encode_address, max_satoshi}

  -- An address that decodes and belongs to the network.
  abbrev pub own_address : Text → ChainParams → Result SendError Address
  own_address address params = elim (decode_address address params) [
    | none ↦ err bad_address
    | some decoded ↦ if is_for_net decoded params then ok decoded else err bad_address
  ]

  abbrev pub amount_allowed : OnChainSendInput → Bool
  amount_allowed input =
      input.send_all
      || (leb_ℤ (pos 546) input.amount_sats && leb_ℤ input.amount_sats (pos max_satoshi))

  -- The request that was reviewed, and its coins.
  unfoldable pub reviewed : OnChainSendInput → Address → List Utxo → PreparedOnChainSend
  reviewed input decoded coins = record {
    request = record {
      address = encode_address decoded;
      amount_sats = if input.send_all then pos 0 else input.amount_sats;
      sat_per_vbyte = input.sat_per_vbyte;
      send_all = input.send_all;
      label = trim_space input.label;
      outpoints = input.outpoints;
      min_confs = pos 0;
      spend_unconfirmed = true;
    };
    coins = coins;
  }

  unfoldable pub prepare_on_chain_send :
      String → OnChainSendInput → List Utxo → Result SendError PreparedOnChainSend
  unfolding resolve_coins
  prepare_on_chain_send network input available = do
    params ← chain_params network
    decoded ← own_address (trim_space input.address) params
    guard (not (is_bare_key decoded)) bare_key
    guard (amount_allowed input) bad_amount
    guard (leb_ℤ (pos 1) input.sat_per_vbyte) bad_fee
    guard (leb (byte_len (trim_space input.label)) 500) long_label
    coins ← coins_or (resolve_coins input.outpoints available)
    ok (reviewed input decoded coins)

pub data OnChainSendState : Type 0 where
  not_submitted broadcast outcome_unknown : OnChainSendState

pub record OnChainSendResult : Type 0 where
  pub state : OnChainSendState
  pub txid : Text
  pub error : Option SendError

-- The client's answers. Each of its methods is called at most once in a send, so a function of the
-- arguments is as general as a stateful service. `none` is a nil result.
pub record OnChainSendClient : Type 0 where
  pub list_unspent : ℤ → ℤ → Result Text (List Utxo)
  pub send_coins : SendCoinsRequest → Result Text (Option Text)

-- The calls that a send makes, in order.
pub data SendCall : Type 0 where
  called_list_unspent : ℤ → ℤ → SendCall
  called_send_coins : SendCoinsRequest → SendCall

abbrev pub max_int32 : ℤ
max_int32 = pos 2147483647

abbrev pub refused : SendError → OnChainSendResult
refused e = record { state = not_submitted; txid = []; error = some e }

-- The answer of SendCoins.
unfoldable pub sent : Result Text (Option Text) → OnChainSendResult
sent (err e) = record { state = outcome_unknown; txid = []; error = some (service e) }
sent (ok none) = record { state = outcome_unknown; txid = []; error = some no_txid }
sent (ok (some [])) = record { state = outcome_unknown; txid = []; error = some no_txid }
sent (ok (some (c ∷ txid))) = record { state = broadcast; txid = c ∷ txid; error = none }

-- The check of explicit inputs: the error that it finds.
unfoldable pub recheck : Result Text (List Utxo) → List Text → Option SendError
unfolding resolve_coins
recheck (err e) outpoints = some (service e)
recheck (ok available) outpoints = elim (resolve_coins outpoints available) [
  | ok coins ↦ none
  | err e ↦ some (coin e)
]

unfoldable pub submit :
    OnChainSendClient → SendCoinsRequest → List SendCall → OnChainSendResult × List SendCall
unfolding sent
submit client req before = (sent (client.send_coins req), before ++ called_send_coins req ∷ [])

unfoldable pub submit_checked :
    OnChainSendClient
    → SendCoinsRequest
    → Option SendError
    → List SendCall
    → OnChainSendResult × List SendCall
unfolding submit
submit_checked client req none before = submit client req before
submit_checked client req (some e) before = (refused e, before)

unfoldable pub send_on_chain :
    Option OnChainSendClient → PreparedOnChainSend → OnChainSendResult × List SendCall
unfolding submit submit_checked recheck
send_on_chain none prepared =
    (if is_empty prepared.request.address then refused review_first else refused not_connected, [])
send_on_chain (some client) prepared =
    let req = prepared.request in
    if is_empty req.address then (refused review_first, []) else elim req.outpoints [
      | [] ↦ submit client req []
      | op ∷ ops ↦
          submit_checked client req
            (recheck (client.list_unspent req.min_confs max_int32) (op ∷ ops))
            (called_list_unspent req.min_confs max_int32 ∷ [])
    ]
