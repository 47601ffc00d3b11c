-- ===== src/Tests/Send.antt =====
-- On-chain sends of internal/app/onchain_send.go at a concrete request, with an address library that takes
-- every text for an address.
use virtual_private_node.Base.{◌≤◌, ◌≡◌, ◌↔◌, refl, true, false, some, List, [], ◌∷◌, ok, arith}
use virtual_private_node.Base.Int.{pos, max_int64}
use virtual_private_node.Base.Text.{Text, codes, trim_space}
use virtual_private_node.Base.Decimal.{decimal}
use virtual_private_node.Coins.{Utxo, coin_outpoint}
use virtual_private_node.Send.{
  Btcutil, OnChainSendInput, PreparedOnChainSend, OnChainSendClient, prepare_on_chain_send,
  reviewed, send_on_chain, not_submitted,
}
use virtual_private_node.Send.Prepare.{IsApproved, prepare_on_chain_send-IsApproved}
use virtual_private_node.Send.Submit.{
  Outcome, submissions, send_on_chain-Outcome, not_submitted_iff,
}

fits : 2100000000000000 ≤ max_int64
fits = ground arith

abbrev any_text : Btcutil
any_text = record {
  Address = Text;
  decode_address = λ t params. some t;
  is_for_net = λ a params. true;
  is_bare_key = λ a. false;
  encode_address = λ a. a;
  max_satoshi = 2100000000000000;
  max_satoshi_fits = fits;
}

abbrev wanted : OnChainSendInput
wanted = record {
  address = codes "bc1qexample";
  amount_sats = pos 25000;
  send_all = false;
  sat_per_vbyte = pos 4;
  label = codes "rent";
  outpoints = codes "aa:0" ∷ [];
}

abbrev unspent : List Utxo
unspent =
    record {
      txid = codes "aa";
      vout = pos 0;
      amount_sats = pos 90000;
      confirmations = pos 6;
      address = [];
      pk_script = [];
    }
    ∷ []

abbrev prepared : PreparedOnChainSend
prepared = reviewed any_text wanted (codes "bc1qexample") unspent

prepares : prepare_on_chain_send any_text "mainnet" wanted unspent ≡ ok prepared
unfolding prepare_on_chain_send coin_outpoint decimal trim_space
prepares = refl

abbrev client : OnChainSendClient
client = record { list_unspent = λ lo hi. ok unspent; send_coins = λ req. ok (some (codes "ff00")) }

prepare_on_chain_send-IsApproved_example : IsApproved any_text "mainnet" wanted unspent prepared
prepare_on_chain_send-IsApproved_example =
    prepare_on_chain_send-IsApproved any_text "mainnet" wanted unspent prepared prepares

send_on_chain-Outcome_example :
    Outcome client prepared.request (send_on_chain (some client) prepared)
send_on_chain-Outcome_example = send_on_chain-Outcome client prepared

not_submitted_iff_example :
    ((send_on_chain (some client) prepared).0.state ≡ not_submitted)
    ↔ (submissions (send_on_chain (some client) prepared).1 ≡ [])
not_submitted_iff_example = not_submitted_iff client prepared
