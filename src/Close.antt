-- ===== src/Close.antt =====
-- Closing a channel: preparation and the single submission (internal/app/channel_close.go), with the
-- channel point of internal/lndrpc/close.go and internal/lndrpc/queries.go.
pub mod Submit
use virtual_private_node.Base.{
  ℕ, String, Bool, true, false, not, ◌&&◌, ◌||◌, Option, none, some, List, [], ◌∷◌, ◌++◌, map, ◌==◌,
  ◌+◌, ◌^◌, ltb, length, take, drop, if◌then◌else◌, str_eq, Result, ok, err, ◌>>=◌, ◌>>◌, guard,
}
use virtual_private_node.Base.Int.{ℤ, pos, pos_part, leb_ℤ, eqb_ℤ}
use virtual_private_node.Base.Text.{Text, is_empty}
use virtual_private_node.Base.Decimal.{decimal}
use virtual_private_node.Base.Hex.{hex_decode}
use virtual_private_node.Base.HostPort.{index_of, atoi_unsigned}
use virtual_private_node.Network.{to_lower}
use virtual_private_node.Open.{max_fee_rate}

pub data CloseError : Type 0 where
  bad_outpoint bad_txid bad_index bad_fee review_first not_connected : CloseError
  unavailable not_cooperative no_txid : CloseError
  service : Text → CloseError

pub record ChannelCloseRequest : Type 0 where
  pub channel_point : Text
  pub force : Bool
  pub sat_per_vbyte : ℕ

-- lndrpc.ChannelCloseResult
pub record RpcClose : Type 0 where
  pub submitted : Bool
  pub confirmed : Bool
  pub closing_txid : Text
  pub error : Option Text

pub record ChannelCloseState : Type 0 where
  pub found : Bool
  pub active : Bool
  pub status_flags : String
  pub pending_htlcs : ℤ
  pub closing : Bool

pub record ChannelCloseInput : Type 0 where
  pub channel_point : Text
  pub force : Bool
  pub sat_per_vbyte : ℤ

pub data ChannelCloseOutcome : Type 0 where
  close_not_submitted close_pending close_confirmed close_outcome_unknown : ChannelCloseOutcome

pub record ChannelCloseResult : Type 0 where
  pub state : ChannelCloseOutcome
  pub txid : Text
  pub error : Option CloseError

abbrev pub txid_allowed : Option (List ℕ) → Bool
txid_allowed none = false
txid_allowed (some raw) = length raw == 32

-- strconv.ParseUint with 32 bits.
abbrev pub index_value : Option ℕ → Result CloseError ℕ
index_value none = err bad_index
index_value (some n) = if ltb n (2 ^ 32) then ok n else err bad_index

abbrev pub outpoint_at : Text → Option ℕ → Result CloseError (Text × ℕ)
outpoint_at op none = err bad_outpoint
outpoint_at op (some i) = do
  guard (txid_allowed (hex_decode (take i op))) bad_txid
  n ← index_value (atoi_unsigned (drop (i + 1) op))
  ok (take i op, n)

-- The text before the first colon, and the number behind it.
unfoldable pub parse_outpoint : Text → Result CloseError (Text × ℕ)
unfolding index_of hex_decode
parse_outpoint op = outpoint_at op (index_of b':' op)

unfoldable pub normalize_channel_point : Text → Result CloseError Text
normalize_channel_point point = do
  (txid, n) ← parse_outpoint point
  ok (map to_lower txid ++ b':' ∷ decimal n)

abbrev pub fee_allowed : ChannelCloseInput → Bool
fee_allowed input =
    leb_ℤ (pos 0) input.sat_per_vbyte
    && leb_ℤ input.sat_per_vbyte (pos max_fee_rate)
    && (not input.force || eqb_ℤ input.sat_per_vbyte (pos 0))

unfoldable pub prepare_channel_close : ChannelCloseInput → Result CloseError ChannelCloseRequest
prepare_channel_close input = do
  point ← normalize_channel_point input.channel_point
  guard (fee_allowed input) bad_fee
  ok (record {
    channel_point = point;
    force = input.force;
    sat_per_vbyte = pos_part input.sat_per_vbyte;
  })

-- The client's answers; each of its methods is called at most once.
pub record ChannelCloseClient : Type 0 where
  pub channel_close_state : Text → Result Text ChannelCloseState
  pub close_channel : ChannelCloseRequest → RpcClose

pub data CloseCall : Type 0 where
  called_channel_close_state : Text → CloseCall
  called_close_channel : ChannelCloseRequest → CloseCall

abbrev pub refused : Option CloseError → ChannelCloseResult
refused e = record { state = close_not_submitted; txid = []; error = e }

-- The checks on the state that was just read: the error that they find.
unfoldable pub check_state : Bool → ChannelCloseState → Option CloseError
check_state force s =
    if s.closing || not s.found || not (str_eq s.status_flags "ChanStatusDefault")
    then some unavailable
    else if not force && (not s.active || not (eqb_ℤ s.pending_htlcs (pos 0)))
    then some not_cooperative
    else none

abbrev pub state_error : Bool → Result Text ChannelCloseState → Option CloseError
state_error force (err e) = some (service e)
state_error force (ok s) = check_state force s

abbrev pub as_service : Option Text → Option CloseError
as_service none = none
as_service (some e) = some (service e)

abbrev pub attempted : Option Text → Bool → Text → ChannelCloseResult
attempted (some e) confirmed txid = record {
  state = close_outcome_unknown;
  txid = [];
  error = some (service e);
}
attempted none confirmed [] = record {
  state = close_outcome_unknown;
  txid = [];
  error = some no_txid;
}
attempted none confirmed (c ∷ txid) = record {
  state = if confirmed then close_confirmed else close_pending;
  txid = c ∷ txid;
  error = none;
}

-- The answer of the call that closes.
unfoldable pub answered : RpcClose → ChannelCloseResult
answered r =
    if r.submitted
    then attempted r.error r.confirmed r.closing_txid
    else refused (as_service r.error)

unfoldable pub submit :
    ChannelCloseClient
    → ChannelCloseRequest
    → Option CloseError
    → ChannelCloseResult × List CloseCall
submit client req (some e) = (refused (some e), called_channel_close_state req.channel_point ∷ [])
submit client req none = (
  answered (client.close_channel req),
  called_channel_close_state req.channel_point ∷ called_close_channel req ∷ [],
)

unfoldable pub close_channel :
    Option ChannelCloseClient → ChannelCloseRequest → ChannelCloseResult × List CloseCall
close_channel client req =
    if is_empty req.channel_point then (refused (some review_first), []) else elim client [
      | none ↦ (refused (some not_connected), [])
      | some c ↦ submit c req (state_error req.force (c.channel_close_state req.channel_point))
    ]
