-- ===== src/Send/Submit.antt =====
-- What SendOnChain of internal/app/onchain_send.go calls and reports.
use virtual_private_node.Base.{
  ◌≡◌, ◌≢◌, ◌↔◌, ◌⊎◌, refl, ap, sym, ◌∙◌, Option, none, some, List, [], ◌∷◌, map, inl, inr,
  Bool-cases, Result, ok, err, All, Member, Distinct,
}
use virtual_private_node.Base.Text.{Text, is_empty}
use virtual_private_node.Coins.{Utxo, coin_outpoint, CoinError, resolve_coins}
use virtual_private_node.Coins.Accepts.{resolve_coins_iff}
use virtual_private_node.Send.{
  SendCoinsRequest, PreparedOnChainSend, SendError, not_submitted, OnChainSendResult,
  OnChainSendClient, SendCall, called_list_unspent, called_send_coins, max_int32, sent, recheck,
  submit, submit_checked, send_on_chain,
}

-- The requests that a run submits.
abbrev pub submissions : List SendCall → List SendCoinsRequest
submissions [] = []
submissions (called_list_unspent a b ∷ calls) = submissions calls
submissions (called_send_coins req ∷ calls) = req ∷ submissions calls

sent_state : (r : Result Text (Option Text)) → (sent r).state ≢ not_submitted
unfolding sent
sent_state (err e) h = cc
sent_state (ok none) h = cc
sent_state (ok (some [])) h = cc
sent_state (ok (some (c ∷ t))) h = cc

-- How a run ends: nothing submitted, or the reviewed request submitted once, behind the checks.
pub data Outcome (client : OnChainSendClient) (req : SendCoinsRequest)
    : OnChainSendResult × List SendCall → Type 0 where
  stopped :
      (r : OnChainSendResult × List SendCall)
      → r.0.state ≡ not_submitted
      → submissions r.1 ≡ []
      → Outcome client req r
  went :
      (r : OnChainSendResult × List SendCall)
      → r.0 ≡ sent (client.send_coins req)
      → submissions r.1 ≡ req ∷ []
      → (req.outpoints ≡ [])
        ⊎ ((available : List Utxo) × (client.list_unspent req.min_confs max_int32 ≡ ok available)
            × Distinct req.outpoints
            × All (λ op. Member op (map coin_outpoint available)) req.outpoints)
      → Outcome client req r

recheck_sound :
    (r : Result Text (List Utxo)) (ops : List Text)
    → recheck r ops ≡ none
    → (available : List Utxo) × (r ≡ ok available)
      × Distinct ops
      × All (λ op. Member op (map coin_outpoint available)) ops
unfolding recheck
recheck_sound (err e) ops h = cc
recheck_sound (ok available) ops h = go (resolve_coins ops available) refl h
  where
    go :
        (q : Result CoinError (List Utxo))
        → resolve_coins ops available ≡ q
        → ◌≡◌ {A = Option SendError}
            (elim q [ ok coins ↦ none | err e ↦ some (SendError.coin e) ])
            none
        → (a : List Utxo) × (◌≡◌ {A = Result Text (List Utxo)} (ok available) (ok a))
          × Distinct ops
          × All (λ op. Member op (map coin_outpoint a)) ops
    go (ok coins) e k =
        let both = (resolve_coins_iff ops available).0 (coins, e) in
        (available, refl, both.0, both.1)
    go (err e') e k = cc

submit_checked-Outcome :
    (client : OnChainSendClient) (req : SendCoinsRequest) (o : Option SendError)
    → ((o ≡ none)
        → (available : List Utxo) × (client.list_unspent req.min_confs max_int32 ≡ ok available)
          × Distinct req.outpoints
          × All (λ op. Member op (map coin_outpoint available)) req.outpoints)
    → Outcome client req
        (submit_checked client req o (called_list_unspent req.min_confs max_int32 ∷ []))
unfolding submit_checked submit
submit_checked-Outcome client req none checked = went _ refl refl (inr (checked refl))
submit_checked-Outcome client req (some e) checked = stopped _ refl refl

start :
    (client : OnChainSendClient) (req : SendCoinsRequest) (ops : List Text)
    → req.outpoints ≡ ops
    → Outcome client req (elim ops [
      | [] ↦ submit client req []
      | op ∷ rest ↦
          submit_checked client req
            (recheck (client.list_unspent req.min_confs max_int32) (op ∷ rest))
            (called_list_unspent req.min_confs max_int32 ∷ [])
    ])
unfolding submit
start client req [] e = went _ refl refl (inl e)
start client req (op ∷ ops) e = submit_checked-Outcome client req _ λ h.
    let (available, found, d, a) =
      recheck_sound (client.list_unspent req.min_confs max_int32) (op ∷ ops) h in
    (available, found, rw e d, rw e a)

-- With a client, a send submits the reviewed request at most once and no other; explicit inputs
-- are submitted only if none is repeated and all were just listed as unspent; what it then reports
-- is read from LND's answer, and in every other case it reports that nothing was submitted.
pub send_on_chain-Outcome :
    (client : OnChainSendClient) (prepared : PreparedOnChainSend)
    → Outcome client prepared.request (send_on_chain (some client) prepared)
unfolding send_on_chain
send_on_chain-Outcome client prepared = elim (Bool-cases (is_empty prepared.request.address)) [
  | inl e ↦ rw e (stopped _ refl refl)
  | inr e ↦ rw e (start client prepared.request prepared.request.outpoints refl)
]

Outcome-not_submitted :
    (client : OnChainSendClient) (req : SendCoinsRequest) (r : OnChainSendResult × List SendCall)
    → Outcome client req r
    → (r.0.state ≡ not_submitted) ↔ (submissions r.1 ≡ [])
Outcome-not_submitted client req r (stopped _ s n) = (λ _. n, λ _. s)
Outcome-not_submitted client req r (went _ e n c) = (
  λ s.
      absurd
        (sent_state (client.send_coins req) (ap (λ (x : OnChainSendResult). x.state) (sym e) ∙ s)),
  λ k. cc (n, k),
)

-- With a client, a send reports `not_submitted` exactly if it made no SendCoins call.
pub not_submitted_iff :
    (client : OnChainSendClient) (prepared : PreparedOnChainSend)
    → let r = send_on_chain (some client) prepared in
      (r.0.state ≡ not_submitted) ↔ (submissions r.1 ≡ [])
not_submitted_iff client prepared =
    Outcome-not_submitted client prepared.request _ (send_on_chain-Outcome client prepared)
