-- ===== src/Open/Workflow.antt =====
-- OpenChannel of internal/app/channel_open.go: connecting, checking and one submission.
use virtual_private_node.Base.{
  ℕ, Bool, true, false, ◌||◌, Option, none, some, List, [], ◌∷◌, ◌++◌, if◌then◌else◌, Result, ok,
  err,
}
use virtual_private_node.Base.Int.{ℤ, pos}
use virtual_private_node.Base.Text.{Text, is_empty}
use virtual_private_node.Coins.{Utxo, resolve_coins}
use virtual_private_node.Open.{
  ChannelOpenRequest, PreparedChannelOpen, OpenError, coin, service, peer, review_first,
  not_connected, no_txid,
}

pub data ChannelOpenState : Type 0 where
  not_submitted broadcast outcome_unknown : ChannelOpenState

pub record ChannelOpenResult : Type 0 where
  pub state : ChannelOpenState
  pub txid : Text
  pub output_index : ℕ
  pub error : Option OpenError

-- lndrpc.ChannelOpenResult
pub record RpcResult : Type 0 where
  pub funding_txid : Text
  pub output_index : ℕ
  pub submitted : Bool
  pub error : Option Text

-- The client's answers. Each of its methods is called at most once in a run, so a function of the
-- arguments is as general as a stateful service. Times are in seconds.
pub record ChannelOpenClient : Type 0 where
  pub connect_peer : Text → Text → Option Text
  pub wait_for_peer : Text → ℕ → Option Text
  pub list_unspent : ℤ → ℤ → Result Text (List Utxo)
  pub open_channel : ChannelOpenRequest → RpcResult

pub data OpenCall : Type 0 where
  called_connect_peer : Text → Text → OpenCall
  called_wait_for_peer : Text → ℕ → OpenCall
  called_list_unspent : ℤ → ℤ → OpenCall
  called_open_channel : ChannelOpenRequest → OpenCall

abbrev pub max_int32 : ℤ
max_int32 = pos 2147483647

abbrev pub refused : Option OpenError → ChannelOpenResult
refused e = record { state = not_submitted; txid = []; output_index = 0; error = e }

abbrev pub unknown : OpenError → ChannelOpenResult
unknown e = record { state = outcome_unknown; txid = []; output_index = 0; error = some e }

-- The answer of the funding call that was attempted.
unfoldable pub attempted : Option Text → Text → ℕ → ChannelOpenResult
attempted (some e) txid index = unknown (service e)
attempted none [] index = unknown no_txid
attempted none (c ∷ txid) index = record {
  state = broadcast;
  txid = c ∷ txid;
  output_index = index;
  error = none;
}

abbrev pub as_service : Option Text → Option OpenError
as_service none = none
as_service (some e) = some (service e)

unfoldable pub opened : RpcResult → ChannelOpenResult
unfolding attempted
opened r =
    if r.submitted
    then attempted r.error r.funding_txid r.output_index
    else refused (as_service r.error)

-- The coins are listed again, and must all be there.
unfoldable pub recheck : Result Text (List Utxo) → List Text → Option OpenError
unfolding resolve_coins
recheck (err e) outpoints = some (service e)
recheck (ok available) outpoints = elim (resolve_coins outpoints available) [
  | ok coins ↦ none
  | err e ↦ some (coin e)
]

module _ (client : ChannelOpenClient) (prepared : PreparedChannelOpen) where
  abbrev pub preflight : List OpenCall
  preflight =
      let req = prepared.request in
      called_connect_peer req.pubkey prepared.host ∷ called_wait_for_peer req.pubkey 60 ∷ []

  -- Behind the check of the coins.
  unfoldable pub fund : Option OpenError → ChannelOpenResult × List OpenCall
  unfolding opened
  fund (some e) =
      (refused (some e), preflight ++ called_list_unspent prepared.request.min_confs max_int32 ∷ [])
  fund none = (
    opened (client.open_channel prepared.request),
    preflight
        ++ called_list_unspent prepared.request.min_confs max_int32
          ∷ called_open_channel prepared.request
          ∷ [],
  )

  -- Behind the wait for the peer. A failed connection request alone stops nothing.
  unfoldable pub with_peer : Option Text → Option Text → ChannelOpenResult × List OpenCall
  unfolding fund recheck
  with_peer connect_error (some e) = (refused (some (peer connect_error e)), preflight)
  with_peer connect_error none = fund (
      recheck (client.list_unspent prepared.request.min_confs max_int32) prepared.request.outpoints)

abbrev pub no_outpoint : List Text → Bool
no_outpoint [] = true
no_outpoint (op ∷ ops) = false

unfoldable pub open_channel :
    Option ChannelOpenClient → PreparedChannelOpen → ChannelOpenResult × List OpenCall
unfolding with_peer
open_channel client prepared =
    if is_empty prepared.request.pubkey || no_outpoint prepared.request.outpoints
    then (refused (some review_first), [])
    else elim client [
      | none ↦ (refused (some not_connected), [])
      | some c ↦
          with_peer c prepared (c.connect_peer prepared.request.pubkey prepared.host)
            (c.wait_for_peer prepared.request.pubkey 60)
    ]
