-- ===== src/Open/Prepare.antt =====
-- What PrepareChannelOpen of internal/app/channel_open.go approves.
use mathlib.Core.Path.{subst}
use virtual_private_node.Base.{
  ℕ, ◌+◌, ◌-◌, ◌≤◌, ◌≡◌, ◌≢◌, ◌⊎◌, refl, ap, sym, ◌∙◌, Bool, true, false, not, ◌&&◌, ◌||◌, List, [],
  ◌∷◌, map, arith, if◌then◌else◌, inl, inr, Bool-cases, Result, ok, err, ◌>>◌, >>=-eq-ok,
  guard-eq-ok, ok-injective, All, Member, Distinct,
}
use virtual_private_node.Base.Int.{
  ℤ, pos, negsuc, pos_part, ◌≤ℤ◌, ◌<ℤ◌, leb_ℤ, ltb_ℤ, ◌+ℤ◌, ◌-ℤ◌, wrap64, max_int64,
}
use virtual_private_node.Base.Text.{Text}
use virtual_private_node.Coins.{Utxo, coin_outpoint, CoinError, resolve_coins}
use virtual_private_node.Coins.Accepts.{resolve_coins_sound}
use virtual_private_node.Coins.Canonical.{plain_sum}
use virtual_private_node.Open.{
  ChannelLib, ChannelOpenInput, PreparedChannelOpen, OpenError, validate_channel_amount,
  max_fee_rate, coins_or, validate_channel_peer, add_coins, funded_amount, fee_allowed,
  some_outpoint, reviewed, prepare_channel_open,
}

abbrev pub IsPositive : Utxo → Type 0
IsPositive c = pos 1 ≤ℤ c.amount_sats

coins_or-eq-ok :
    (r : Result CoinError (List Utxo)) (coins : List Utxo) → coins_or r ≡ ok coins → r ≡ ok coins
coins_or-eq-ok (ok l) coins h = cc
coins_or-eq-ok (err e) coins h = cc

-- One round of the sum: the tests leave room for the coin.
coin_fits :
    (m t : ℕ) (z : ℤ)
    → m ≤ max_int64
    → t ≤ m
    → (leb_ℤ z (pos 0) || ltb_ℤ (wrap64 (pos m -ℤ pos t)) z) ≡ false
    → (pos 1 ≤ℤ z) × (wrap64 (pos t +ℤ z) ≡ pos (t + pos_part z)) × (t + pos_part z ≤ m)
coin_fits m t (negsuc n) fits low h = ground arith
coin_fits m t (pos n) fits low h =
    let room : wrap64 (pos m -ℤ pos t) ≡ pos (m - t) = ground arith in
    let test : (leb_ℤ (pos n) (pos 0) || ltb_ℤ (pos (m - t)) (pos n)) ≡ false = rw room at h in
    let within : n ≤ m - t = ground arith in (ground arith, ground arith, omega arith)

module _ (lib : ChannelLib) where
  open lib use {max_satoshi}

  add_coins_sound :
      (coins : List Utxo) (t : ℕ) (total : ℤ)
      → t ≤ max_satoshi
      → add_coins lib coins (pos t) ≡ ok total
      → All IsPositive coins
        × (total ≡ pos (t + plain_sum coins))
        × (t + plain_sum coins ≤ max_satoshi)
  unfolding add_coins
  add_coins_sound [] t total low h = (tt, sym (ok-injective h) ∙ ap pos (omega arith), omega arith)
  add_coins_sound (c ∷ coins) t total low h =
      let test =
        leb_ℤ c.amount_sats (pos 0) || ltb_ℤ (wrap64 (pos max_satoshi -ℤ pos t)) c.amount_sats in
      elim (Bool-cases test) [
        | inl bad ↦
            let stop : ◌≡◌ {A = Result OpenError ℤ} (err OpenError.bad_coin) (ok total) =
              rw bad at h in
            cc
        | inr good ↦
            let (positive, exact, within) =
              coin_fits max_satoshi t c.amount_sats (lib.max_satoshi_fits) low good in
            let go_on : add_coins lib coins (pos (t + pos_part c.amount_sats)) ≡ ok total =
              rw (good, exact) at h in
            let ih = add_coins_sound coins (t + pos_part c.amount_sats) total within go_on in
            ((positive, ih.0), ih.1 ∙ ap pos (omega arith), omega (arith, ih.2))
      ]

  max_amount :
      (total amount : ℤ)
      → ◌≡◌ {A = Result OpenError ℤ}
          (if ltb_ℤ total (pos 20000) then err OpenError.max_too_small else ok (pos 0))
          (ok amount)
      → (amount ≡ pos 0) × (pos 20000 ≤ℤ total)
  max_amount total amount h = elim (Bool-cases (ltb_ℤ total (pos 20000))) [
    | inl e ↦ ground arith
    | inr e ↦ (ground arith, ground arith)
  ]

  given_amount :
      (given total amount : ℤ)
      → (validate_channel_amount given
          >> (if leb_ℤ total given then err OpenError.not_covered else ok given))
        ≡ ok amount
      → (amount ≡ given) × (pos 20000 ≤ℤ given) × (given ≤ℤ pos 1000000000) × (given <ℤ total)
  unfolding validate_channel_amount
  given_amount given total amount h =
      elim (Bool-cases (ltb_ℤ given (pos 20000) || ltb_ℤ (pos 1000000000) given)) [
        | inl e ↦ ground arith
        | inr e ↦ elim (Bool-cases (leb_ℤ total given)) [
          | inl f ↦ ground arith
          | inr f ↦ (ground arith, ground arith, ground arith, ground arith)
        ]
      ]

  -- What the amount of a request may be.
  abbrev pub AmountIsAllowed : ChannelOpenInput → ℤ → ℤ → Type 0
  AmountIsAllowed input total amount =
      ((input.fund_max ≡ true) × (amount ≡ pos 0) × (pos 20000 ≤ℤ total))
      ⊎ ((input.fund_max ≡ false)
          × (amount ≡ input.amount_sats)
          × (pos 20000 ≤ℤ input.amount_sats)
          × (input.amount_sats ≤ℤ pos 1000000000)
          × (input.amount_sats <ℤ total))

  funded_amount_sound :
      (input : ChannelOpenInput) (total amount : ℤ)
      → funded_amount lib input total ≡ ok amount
      → AmountIsAllowed input total amount
  unfolding funded_amount
  funded_amount_sound input total amount h = elim (Bool-cases input.fund_max) [
    | inl b ↦ let parts = max_amount total amount (rw b at h) in inl (b, parts.0, parts.1)
    | inr b ↦
        let parts = given_amount input.amount_sats total amount (rw b at h) in
        inr (b, parts.0, parts.1, parts.2, parts.3)
  ]

  -- What a reviewed request has been checked for.
  pub record IsApproved (input : ChannelOpenInput) (available : List Utxo) (p : PreparedChannelOpen)
      : Type 0 where
    pub peer : validate_channel_peer lib input.pubkey input.host ≡ ok (p.request.pubkey, p.host)
    pub private_taproot : p.request.taproot ≡ true → p.request.private ≡ true
    pub fee : (pos 0 ≤ℤ input.sat_per_vbyte) × (p.request.sat_per_vbyte ≤ max_fee_rate)
    pub same_fee : pos p.request.sat_per_vbyte ≡ input.sat_per_vbyte
    pub some_coin : input.outpoints ≢ []
    pub outpoints : p.request.outpoints ≡ input.outpoints
    pub distinct : Distinct input.outpoints
    -- The total is the sum of the selected coins: each is positive, and nothing wraps.
    pub coins : List Utxo
    pub coins_of : map coin_outpoint coins ≡ input.outpoints
    pub available_coins : All (λ c. Member c available) coins
    pub positive : All IsPositive coins
    pub total : p.total ≡ pos (plain_sum coins)
    pub supply : plain_sum coins ≤ max_satoshi
    pub max_funding : p.request.fund_max ≡ input.fund_max
    pub amount : AmountIsAllowed input p.total p.request.amount_sats

  taproot_private : (t q : Bool) → not (t && not q) ≡ true → t ≡ true → q ≡ true
  taproot_private t q h e = ground arith

  fee_exact :
      (fee : ℤ)
      → fee_allowed lib fee ≡ true
      → (pos 0 ≤ℤ fee) × (pos_part fee ≤ max_fee_rate) × (pos (pos_part fee) ≡ fee)
  fee_exact (pos n) h = (omega arith, ground arith, refl)
  fee_exact (negsuc n) h = ground arith

  some_outpoint_sound : (ops : List Text) → some_outpoint lib ops ≡ true → ops ≢ []
  some_outpoint_sound [] h = cc
  some_outpoint_sound (op ∷ ops) h = λ e. cc

  approve :
      (input : ChannelOpenInput) (available : List Utxo) (p : PreparedChannelOpen)
      (who : Text × Text) (coins : List Utxo) (total amount : ℤ)
      → validate_channel_peer lib input.pubkey input.host ≡ ok who
      → not (input.taproot && not input.private) ≡ true
      → fee_allowed lib input.sat_per_vbyte ≡ true
      → some_outpoint lib input.outpoints ≡ true
      → coins_or (resolve_coins input.outpoints available) ≡ ok coins
      → add_coins lib coins (pos 0) ≡ ok total
      → funded_amount lib input total ≡ ok amount
      → reviewed lib input who amount total ≡ p
      → IsApproved input available p
  unfolding reviewed
  approve input available p who coins total amount e1 e2 e3 e4 e5 e6 e7 e8 =
      let found = resolve_coins_sound input.outpoints available coins (coins_or-eq-ok _ coins e5) in
      let sum = add_coins_sound coins 0 total (omega arith) e6 in
      let fee = fee_exact input.sat_per_vbyte e3 in
      subst (λ q. IsApproved input available q) e8
        (record {
          peer = e1;
          private_taproot = taproot_private input.taproot input.private e2;
          fee = (fee.0, fee.1);
          same_fee = fee.2;
          some_coin = some_outpoint_sound input.outpoints e4;
          outpoints = refl;
          distinct = found.2;
          coins = coins;
          coins_of = found.0;
          available_coins = found.1;
          positive = sum.0;
          total = sum.1 ∙ ap pos (omega arith);
          supply = omega (arith, sum.2);
          max_funding = refl;
          amount = funded_amount_sound input total amount e7;
        })

  -- A prepared channel has passed every check and holds what the input asked for: a valid peer, a
  -- Taproot channel only if private, a fee rate that can be converted, distinct available coins,
  -- their exact sum within the supply, and an amount that the sum exceeds, or 0 where LND
  -- determines the capacity.
  pub prepare_channel_open-IsApproved :
      (input : ChannelOpenInput) (available : List Utxo) (p : PreparedChannelOpen)
      → prepare_channel_open lib input available ≡ ok p
      → IsApproved input available p
  unfolding prepare_channel_open
  prepare_channel_open-IsApproved input available p h =
      let (who, e1, h1) = >>=-eq-ok (validate_channel_peer lib input.pubkey input.host) _ h in
      let (e2, h2) = guard-eq-ok (not (input.taproot && not input.private)) _ _ h1 in
      let (e3, h3) = guard-eq-ok (fee_allowed lib input.sat_per_vbyte) _ _ h2 in
      let (e4, h4) = guard-eq-ok (some_outpoint lib input.outpoints) _ _ h3 in
      let (coins, e5, h5) = >>=-eq-ok (coins_or (resolve_coins input.outpoints available)) _ h4 in
      let (total, e6, h6) = >>=-eq-ok (add_coins lib coins (pos 0)) _ h5 in
      let (amount, e7, h7) = >>=-eq-ok (funded_amount lib input total) _ h6 in
      approve input available p who coins total amount e1 e2 e3 e4 e5 e6 e7 (ok-injective h7)
