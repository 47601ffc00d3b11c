-- ===== src/Open/Submit.antt =====
-- What OpenChannel of internal/app/channel_open.go calls and reports.
use virtual_private_node.Base.{
  ℕ, ◌≡◌, ◌≢◌, ◌⊎◌, refl, ap, sym, ◌∙◌, Bool, false, ◌||◌, Option, none, some, List, [], ◌∷◌, map,
  arith, inl, inr, Bool-cases, Result, ok, err, All, Member, Distinct,
}
use virtual_private_node.Base.Text.{Text, is_empty}
use virtual_private_node.Coins.{Utxo, coin_outpoint, CoinError, resolve_coins}
use virtual_private_node.Coins.Accepts.{resolve_coins_iff}
use virtual_private_node.Open.{ChannelOpenRequest, PreparedChannelOpen, OpenError, coin}
use virtual_private_node.Open.Workflow.{
  not_submitted, ChannelOpenResult, RpcResult, ChannelOpenClient, OpenCall, called_connect_peer,
  called_wait_for_peer, called_list_unspent, called_open_channel, max_int32, attempted, opened,
  recheck, fund, with_peer, no_outpoint, open_channel,
}

-- The funding requests that a run submits.
abbrev pub submissions : List OpenCall → List ChannelOpenRequest
submissions [] = []
submissions (called_connect_peer a b ∷ calls) = submissions calls
submissions (called_wait_for_peer a b ∷ calls) = submissions calls
submissions (called_list_unspent a b ∷ calls) = submissions calls
submissions (called_open_channel req ∷ calls) = req ∷ submissions calls

-- How a run ends: no funding call, or one with the reviewed request, for a peer that is connected
-- and coins that were just listed.
pub data Outcome (client : ChannelOpenClient) (req : ChannelOpenRequest)
    : ChannelOpenResult × List OpenCall → Type 0 where
  stopped :
      (r : ChannelOpenResult × List OpenCall)
      → r.0.state ≡ not_submitted
      → submissions r.1 ≡ []
      → Outcome client req r
  went :
      (r : ChannelOpenResult × List OpenCall) (available : List Utxo)
      → r.0 ≡ opened (client.open_channel req)
      → submissions r.1 ≡ req ∷ []
      → client.wait_for_peer req.pubkey 60 ≡ none
      → client.list_unspent req.min_confs max_int32 ≡ ok available
      → req.outpoints ≢ []
      → Distinct req.outpoints
      → All (λ op. Member op (map coin_outpoint available)) req.outpoints
      → Outcome client req r

recheck_sound :
    (r : Result Text (List Utxo)) (ops : List Text)
    → recheck r ops ≡ none
    → (available : List Utxo) × (r ≡ ok available)
      × Distinct ops
      × All (λ op. Member op (map coin_outpoint available)) ops
unfolding recheck
recheck_sound (err e) ops h = cc
recheck_sound (ok available) ops h = go (resolve_coins ops available) refl h
  where
    go :
        (q : Result CoinError (List Utxo))
        → resolve_coins ops available ≡ q
        → ◌≡◌ {A = Option OpenError} (elim q [ ok coins ↦ none | err e ↦ some (coin e) ]) none
        → (a : List Utxo) × (◌≡◌ {A = Result Text (List Utxo)} (ok available) (ok a))
          × Distinct ops
          × All (λ op. Member op (map coin_outpoint a)) ops
    go (ok coins) e k =
        let both = (resolve_coins_iff ops available).0 (coins, e) in
        (available, refl, both.0, both.1)
    go (err e') e k = cc

module _ (client : ChannelOpenClient) (prepared : PreparedChannelOpen) where
  fund-Outcome :
      (o : Option OpenError)
      → client.wait_for_peer prepared.request.pubkey 60 ≡ none
      → prepared.request.outpoints ≢ []
      → recheck
          (client.list_unspent prepared.request.min_confs max_int32)
          prepared.request.outpoints
        ≡ o
      → Outcome client prepared.request (fund client prepared o)
  unfolding fund
  fund-Outcome (some e) ready given check = stopped _ refl refl
  fund-Outcome none ready given check =
      let (available, listed, d, a) = recheck_sound _ _ check in
      went _ available refl refl ready listed given d a

  with_peer-Outcome :
      (connect_error waited : Option Text)
      → client.wait_for_peer prepared.request.pubkey 60 ≡ waited
      → prepared.request.outpoints ≢ []
      → Outcome client prepared.request (with_peer client prepared connect_error waited)
  unfolding with_peer
  with_peer-Outcome connect_error (some e) ready given = stopped _ refl refl
  with_peer-Outcome connect_error none ready given = fund-Outcome _ ready given refl

  some_given :
      (b : Bool)
      → (b || no_outpoint prepared.request.outpoints) ≡ false
      → prepared.request.outpoints ≢ []
  some_given b h e = cc (ap no_outpoint e, both b _ h)
    where
      both : (b c : Bool) → (b || c) ≡ false → c ≡ false
      both b c h = ground arith

  -- With a client, opening a channel makes at most one funding call, with the reviewed request,
  -- and only after the peer was found ready and every selected coin was listed as unspent, none of
  -- them twice.
  pub open_channel-Outcome : Outcome client prepared.request (open_channel (some client) prepared)
  unfolding open_channel
  open_channel-Outcome =
      elim (Bool-cases
        (is_empty prepared.request.pubkey || no_outpoint prepared.request.outpoints)) [
          | inl e ↦ rw e (stopped _ refl refl)
          | inr e ↦ rw e (with_peer-Outcome _ _ refl (some_given _ e))
        ]

opened_state : (r : RpcResult) → (opened r).state ≡ not_submitted → r.submitted ≡ false
unfolding opened
opened_state r h = elim (Bool-cases r.submitted) [
  | inl e ↦ absurd (attempted_state r.error r.funding_txid r.output_index (rw e at h))
  | inr e ↦ e
]
  where
    attempted_state :
        (e : Option Text) (t : Text) (i : ℕ) → (attempted e t i).state ≡ not_submitted → ⊥
    attempted_state (some e) t i h = cc
    attempted_state none [] i h = cc
    attempted_state none (c ∷ t) i h = cc

Outcome-not_submitted :
    (client : ChannelOpenClient) (req : ChannelOpenRequest) (r : ChannelOpenResult × List OpenCall)
    → Outcome client req r
    → r.0.state ≡ not_submitted
    → (submissions r.1 ≡ []) ⊎ ((client.open_channel req).submitted ≡ false)
Outcome-not_submitted client req r (stopped _ s n) h = inl n
Outcome-not_submitted client req r (went _ available e n w l g d a) h =
    inr
      (opened_state (client.open_channel req) (ap (λ (x : ChannelOpenResult). x.state) (sym e) ∙ h))

-- With a client, `not_submitted` is reported only if no funding call was made or the client says
-- that its call was never attempted.
pub not_submitted_sound :
    (client : ChannelOpenClient) (prepared : PreparedChannelOpen)
    → let r = open_channel (some client) prepared in
      r.0.state ≡ not_submitted
      → (submissions r.1 ≡ []) ⊎ ((client.open_channel prepared.request).submitted ≡ false)
not_submitted_sound client prepared h =
    Outcome-not_submitted client prepared.request _ (open_channel-Outcome client prepared) h
