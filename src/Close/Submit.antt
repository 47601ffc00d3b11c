-- ===== src/Close/Submit.antt =====
-- How CloseChannel of internal/app/channel_close.go ends.
use virtual_private_node.Base.{
  ◌≡◌, ◌⊎◌, refl, Bool, true, false, none, some, List, [], ◌∷◌, Result, ok, err, inl, inr,
  Bool-cases, Option-cases, arith, str_eq,
}
use virtual_private_node.Base.Int.{pos, eqb_ℤ}
use virtual_private_node.Base.Text.{Text, is_empty}
use virtual_private_node.Close.{
  ChannelCloseRequest, ChannelCloseState, ChannelCloseResult, ChannelCloseClient, CloseCall,
  called_channel_close_state, called_close_channel, close_not_submitted, check_state, state_error,
  submit, close_channel, answered,
}

-- The closing calls of a run.
abbrev pub submissions : List CloseCall → List ChannelCloseRequest
submissions [] = []
submissions (called_channel_close_state point ∷ calls) = submissions calls
submissions (called_close_channel req ∷ calls) = req ∷ submissions calls

-- The channel is open and in its default state; a cooperative close has an active peer and no pending
-- HTLC.
abbrev pub IsClosable : Bool → ChannelCloseState → Type 0
IsClosable force s =
    (s.closing ≡ false)
    × (s.found ≡ true)
    × (str_eq s.status_flags "ChanStatusDefault" ≡ true)
    × ((force ≡ true) ⊎ ((s.active ≡ true) × (eqb_ℤ s.pending_htlcs (pos 0) ≡ true)))

-- Nothing was submitted, and that is reported; or the request was submitted once, for a channel whose
-- state was just read as closable, and the report is read from the answer.
abbrev pub Outcome :
    ChannelCloseClient → ChannelCloseRequest → ChannelCloseResult × List CloseCall → Type 0
Outcome client req r =
    ((submissions r.1 ≡ []) × (r.0.state ≡ close_not_submitted))
    ⊎ ((submissions r.1 ≡ req ∷ [])
        × (r.0 ≡ answered (client.close_channel req))
        × ((s : ChannelCloseState) × (client.channel_close_state req.channel_point ≡ ok s)
            × IsClosable req.force s))

check_state_sound :
    (force : Bool) (s : ChannelCloseState) → check_state force s ≡ none → IsClosable force s
unfolding check_state
check_state_sound force s h = ground arith

submit-Outcome :
    (client : ChannelCloseClient) (req : ChannelCloseRequest) (q : Result Text ChannelCloseState)
    → client.channel_close_state req.channel_point ≡ q
    → Outcome client req (submit client req (state_error req.force q))
unfolding submit
submit-Outcome client req (err e) h = inl (refl, refl)
submit-Outcome client req (ok s) h = elim (Option-cases (check_state req.force s)) [
  | inl e ↦ rw e (inr (refl, refl, (s, h, check_state_sound req.force s e)))
  | inr (e, w) ↦ rw w (inl (refl, refl))
]

-- With a client, closing submits the reviewed request at most once and no other, and only after the
-- channel was read as open, in its default state and, for a cooperative close, with an active peer and
-- no pending HTLC; the report is then read from the answer, and in every other case it says that
-- nothing was submitted.
pub close_channel-Outcome :
    (client : ChannelCloseClient) (req : ChannelCloseRequest)
    → Outcome client req (close_channel (some client) req)
unfolding close_channel
close_channel-Outcome client req = elim (Bool-cases (is_empty req.channel_point)) [
  | inl e ↦ rw (close_channel, e) (inl (refl, refl))
  | inr e ↦
      rw (close_channel, e)
        (submit-Outcome client req (client.channel_close_state req.channel_point) refl)
]
