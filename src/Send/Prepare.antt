-- ===== src/Send/Prepare.antt =====
-- What PrepareOnChainSend of internal/app/onchain_send.go approves.
use mathlib.Core.Path.{subst}
use virtual_private_node.Base.{
  String, ◌≤◌, ◌≡◌, ◌⊎◌, refl, ap, sym, ◌∙◌, true, false, not, ◌&&◌, Option, none, some, List, map,
  arith, leb, leb→le, if◌then◌else◌, inl, inr, Bool-cases, Result, ok, err, >>=-eq-ok, guard-eq-ok,
  ok-injective, All, Member, Distinct,
}
use virtual_private_node.Base.Int.{ℤ, pos, ◌≤ℤ◌, leb_ℤ}
use virtual_private_node.Base.Text.{Text, byte_len, trim_space}
use virtual_private_node.Coins.{Utxo, coin_outpoint, CoinError, resolve_coins}
use virtual_private_node.Coins.Accepts.{resolve_coins_sound}
use virtual_private_node.Send.{
  ChainParams, Btcutil, OnChainSendInput, PreparedOnChainSend, SendError, chain_params, coins_or,
  own_address, amount_allowed, reviewed, prepare_on_chain_send,
}

coins_or-eq-ok :
    (r : Result CoinError (List Utxo)) (coins : List Utxo) → coins_or r ≡ ok coins → r ≡ ok coins
coins_or-eq-ok (ok l) coins h = cc
coins_or-eq-ok (err e) coins h = cc

module _ (lib : Btcutil) where
  open lib use {Address, decode_address, is_for_net, is_bare_key, encode_address, max_satoshi}

  own_address_sound :
      (address : Text) (params : ChainParams) (decoded : Address)
      → own_address lib address params ≡ ok decoded
      → (decode_address address params ≡ some decoded) × (is_for_net decoded params ≡ true)
  own_address_sound address params decoded h = go (decode_address address params) refl h
    where
      go :
          (o : Option Address)
          → decode_address address params ≡ o
          → ◌≡◌ {A = Result SendError Address}
              (elim o [
                | none ↦ err SendError.bad_address
                | some d ↦ if is_for_net d params then ok d else err SendError.bad_address
              ])
              (ok decoded)
          → (decode_address address params ≡ some decoded) × (is_for_net decoded params ≡ true)
      go none e h = cc
      go (some d) e h = elim (Bool-cases (is_for_net d params)) [
        | inl own ↦
            let this : d ≡ decoded = ground arith in
            (e ∙ ap some this, ap (λ a. is_for_net a params) (sym this) ∙ own)
        | inr foreign ↦ ground arith
      ]

  -- What a reviewed request has been checked for.
  pub record IsApproved (network : String) (input : OnChainSendInput) (available : List Utxo)
      (p : PreparedOnChainSend) : Type 0 where
    -- The address decodes for the node's own network, and is not a bare key.
    pub params : ChainParams
    pub on_network : chain_params network ≡ ok params
    pub decoded : lib.Address
    pub decodes : decode_address (trim_space input.address) params ≡ some decoded
    pub own : is_for_net decoded params ≡ true
    pub no_bare_key : is_bare_key decoded ≡ false
    pub address : p.request.address ≡ encode_address decoded
    pub amount :
        ((input.send_all ≡ true) × (p.request.amount_sats ≡ pos 0))
        ⊎ ((input.send_all ≡ false)
            × (p.request.amount_sats ≡ input.amount_sats)
            × (pos 546 ≤ℤ input.amount_sats)
            × (input.amount_sats ≤ℤ pos max_satoshi))
    pub all : p.request.send_all ≡ input.send_all
    pub fee : pos 1 ≤ℤ input.sat_per_vbyte
    pub same_fee : p.request.sat_per_vbyte ≡ input.sat_per_vbyte
    pub label : p.request.label ≡ trim_space input.label
    pub short_label : byte_len p.request.label ≤ 500
    -- The coins are available ones, one for each outpoint of the request.
    pub outpoints : p.request.outpoints ≡ input.outpoints
    pub coins : map coin_outpoint p.coins ≡ input.outpoints
    pub available_coins : All (λ c. Member c available) p.coins
    pub distinct : Distinct input.outpoints

  amount_cases :
      (input : OnChainSendInput) (a : ℤ)
      → amount_allowed lib input ≡ true
      → a ≡ (if input.send_all then pos 0 else input.amount_sats)
      → ((input.send_all ≡ true) × (a ≡ pos 0))
        ⊎ ((input.send_all ≡ false)
            × (a ≡ input.amount_sats)
            × (pos 546 ≤ℤ input.amount_sats)
            × (input.amount_sats ≤ℤ pos max_satoshi))
  amount_cases input a h e = elim (Bool-cases input.send_all) [
    | inl b ↦ inl (b, e ∙ (rw b))
    | inr b ↦
        let bounds : (leb_ℤ (pos 546) input.amount_sats
              && leb_ℤ input.amount_sats (pos max_satoshi))
            ≡ true =
          rw b at h in
        inr (b, e ∙ (rw b), ground arith, ground arith)
  ]

  approve :
      (network : String) (input : OnChainSendInput) (available : List Utxo)
      (p : PreparedOnChainSend) (params : ChainParams) (decoded : Address) (coins : List Utxo)
      → chain_params network ≡ ok params
      → own_address lib (trim_space input.address) params ≡ ok decoded
      → not (is_bare_key decoded) ≡ true
      → amount_allowed lib input ≡ true
      → leb_ℤ (pos 1) input.sat_per_vbyte ≡ true
      → leb (byte_len (trim_space input.label)) 500 ≡ true
      → coins_or (resolve_coins input.outpoints available) ≡ ok coins
      → reviewed lib input decoded coins ≡ p
      → IsApproved network input available p
  unfolding reviewed
  approve network input available p params decoded coins e1 e2 e3 e4 e5 e6 e7 e8 =
      let own = own_address_sound (trim_space input.address) params decoded e2 in
      let found = resolve_coins_sound input.outpoints available coins (coins_or-eq-ok _ coins e7) in
      subst (λ q. IsApproved network input available q) e8
        (record {
          params = params;
          on_network = e1;
          decoded = decoded;
          decodes = own.0;
          own = own.1;
          no_bare_key = ground (arith, e3);
          address = refl;
          amount = amount_cases input _ e4 refl;
          all = refl;
          fee = leb→le _ _ e5;
          same_fee = refl;
          label = refl;
          short_label = leb→le _ _ e6;
          outpoints = refl;
          coins = found.0;
          available_coins = found.1;
          distinct = found.2;
        })

  -- A prepared send has passed every check, and holds what the input asked for: the address of the
  -- node's own network, the amount within its bounds or the whole wallet, the fee rate, the label
  -- and the selected coins.
  pub prepare_on_chain_send-IsApproved :
      (network : String) (input : OnChainSendInput) (available : List Utxo)
      (p : PreparedOnChainSend)
      → prepare_on_chain_send lib network input available ≡ ok p
      → IsApproved network input available p
  unfolding prepare_on_chain_send
  prepare_on_chain_send-IsApproved network input available p h =
      let (params, e1, h1) = >>=-eq-ok (chain_params network) _ h in
      let (decoded, e2, h2) = >>=-eq-ok (own_address lib (trim_space input.address) params) _ h1 in
      let (e3, h3) = guard-eq-ok (not (is_bare_key decoded)) _ _ h2 in
      let (e4, h4) = guard-eq-ok (amount_allowed lib input) _ _ h3 in
      let (e5, h5) = guard-eq-ok (leb_ℤ (pos 1) input.sat_per_vbyte) _ _ h4 in
      let (e6, h6) = guard-eq-ok (leb (byte_len (trim_space input.label)) 500) _ _ h5 in
      let (coins, e7, h7) = >>=-eq-ok (coins_or (resolve_coins input.outpoints available)) _ h6 in
      approve network input available p params decoded coins e1 e2 e3 e4 e5 e6 e7 (ok-injective h7)
