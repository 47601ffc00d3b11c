-- ===== src/Tests/Open.antt =====
-- Channel opens of internal/app/channel_open.go at a concrete request, with a key library that takes every
-- text of 33 bytes for a key.
use virtual_private_node.Base.{ℕ, ◌≤◌, ◌≡◌, refl, true, false, none, some, List, [], ◌∷◌, ok, arith}
use virtual_private_node.Base.Int.{pos, max_int64}
use virtual_private_node.Base.Text.{Text, codes, trim_space}
use virtual_private_node.Base.Decimal.{decimal}
use virtual_private_node.Coins.{Utxo, coin_outpoint}
use virtual_private_node.Open.{
  ChannelLib, ChannelOpenInput, PreparedChannelOpen, prepare_channel_open, reviewed,
}
use virtual_private_node.Open.Workflow.{ChannelOpenClient, open_channel, not_submitted}
use virtual_private_node.Open.Prepare.{IsApproved, prepare_channel_open-IsApproved}
use virtual_private_node.Open.Submit.{Outcome, open_channel-Outcome}

fits : 2100000000000000 ≤ max_int64
fits = ground arith

abbrev any_key : ChannelLib
any_key = record {
  Key = List ℕ;
  parse_pub_key = λ raw. some raw;
  serialize_compressed = λ key. key;
  max_satoshi = 2100000000000000;
  max_satoshi_fits = fits;
}

abbrev key_text : Text
key_text = codes "02aaaaaaaaaaaaaaaaaaaaaaaaaaaaaaaaaaaaaaaaaaaaaaaaaaaaaaaaaaaaaaaa"

abbrev wanted : ChannelOpenInput
wanted = record {
  pubkey = key_text;
  host = codes "a.onion:9735";
  amount_sats = pos 25000;
  fund_max = false;
  private = true;
  taproot = true;
  sat_per_vbyte = pos 4;
  outpoints = codes "aa:0" ∷ [];
}

abbrev unspent : List Utxo
unspent =
    record {
      txid = codes "aa";
      vout = pos 0;
      amount_sats = pos 90000;
      confirmations = pos 6;
      address = [];
      pk_script = [];
    }
    ∷ []

abbrev prepared : PreparedChannelOpen
prepared = reviewed any_key wanted (key_text, codes "a.onion:9735") (pos 25000) (pos 90000)

prepares : prepare_channel_open any_key wanted unspent ≡ ok prepared
unfolding prepare_channel_open coin_outpoint decimal reviewed trim_space
prepares = refl

abbrev client : ChannelOpenClient
client = record {
  connect_peer = λ key host. none;
  wait_for_peer = λ key seconds. none;
  list_unspent = λ lo hi. ok unspent;
  open_channel = λ req. record {
    funding_txid = [];
    output_index = 0;
    submitted = false;
    error = some (codes "busy");
  };
}

-- The client refuses this request without an attempt.
stays : (open_channel (some client) prepared).0.state ≡ not_submitted
unfolding open_channel reviewed coin_outpoint decimal
stays = refl

prepare_channel_open-IsApproved_example : IsApproved any_key wanted unspent prepared
prepare_channel_open-IsApproved_example =
    prepare_channel_open-IsApproved any_key wanted unspent prepared prepares

open_channel-Outcome_example : Outcome client prepared.request (open_channel (some client) prepared)
open_channel-Outcome_example = open_channel-Outcome client prepared
