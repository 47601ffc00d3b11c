-- ===== src/Payment/Pipeline.antt =====
-- From the pasted text to the payment (internal/app/lightning_payment.go).
use virtual_private_node.Base.{
  String, ◌≡◌, refl, ap, true, false, not, Option, none, some, [], ◌∷◌, Result, ok, err, arith,
  >>=-eq-ok, guard-eq-ok, ok-injective, Member,
}
use virtual_private_node.Base.Text.{Text, is_empty, trim_space}
use virtual_private_node.Network.{
  NetworkConfig, UnknownNetwork, network_configs, network_config_from_name, accepts_invoice_prefix,
}
use virtual_private_node.Network.Prefixes.{network_config_from_name_sound}
use virtual_private_node.Payment.{
  PaymentRequest, DecodedPayReq, PreparedPayment, LightningPaymentClient, parse_lightning_payment,
  prepare_lightning_payment, send_lightning_payment, profile_of, decoded, cleaned, nothing_pasted,
  wrong_network, expired, outcome,
}

profile_of-eq-ok :
    (r : Result UnknownNetwork NetworkConfig) (n : NetworkConfig) → profile_of r ≡ ok n → r ≡ ok n
profile_of-eq-ok (ok m) n h = cc
profile_of-eq-ok (err e) n h = cc

decoded-eq-ok :
    (r : Result Text (Option DecodedPayReq)) (d : DecodedPayReq)
    → decoded r ≡ ok d
    → r ≡ ok (some d)
decoded-eq-ok (ok none) d h = cc
decoded-eq-ok (ok (some e)) d h = cc
decoded-eq-ok (err e) d h = cc

parsed :
    (network : String) (raw : Text) (request : PaymentRequest)
    → parse_lightning_payment network raw ≡ ok request
    → (n : NetworkConfig) × Member n network_configs
      × (n.name ≡ network)
      × (accepts_invoice_prefix n request.invoice ≡ true)
unfolding parse_lightning_payment
parsed network raw request h =
    let some_text = guard-eq-ok (not (is_empty (trim_space raw))) nothing_pasted _ h in
    let (n, found, next) =
      >>=-eq-ok (profile_of (network_config_from_name network)) _ some_text.1 in
    let fits =
      guard-eq-ok (accepts_invoice_prefix n (cleaned raw)) (wrong_network n.display_name) _ next in
    let same : cleaned raw ≡ request.invoice = ap (λ q. q.invoice) (ok-injective fits.1) in
    let profile =
      network_config_from_name_sound network n
        (profile_of-eq-ok (network_config_from_name network) n found) in
    (n, profile.0, profile.1, rw (← same) fits.0)

module _ {R : Type 0} (client : LightningPaymentClient R) where
  prepared :
      (request : PaymentRequest) (p : PreparedPayment)
      → prepare_lightning_payment (some client) request ≡ ok p
      → (is_empty request.invoice ≡ false)
        × (p.request ≡ request)
        × (client.decode_pay_req request.invoice ≡ ok (some p.details))
        × (p.details.is_expired ≡ false)
  unfolding prepare_lightning_payment
  prepared request p h =
      let full = guard-eq-ok (not (is_empty request.invoice)) nothing_pasted _ h in
      let (d, e, next) = >>=-eq-ok (decoded (client.decode_pay_req request.invoice)) _ full.1 in
      let fresh = guard-eq-ok (not d.is_expired) expired _ next in
      let same : record { request = request; details = d } ≡ p = ok-injective fresh.1 in
      let named : is_empty request.invoice ≡ false = ground (arith, full.0) in
      let lasting : d.is_expired ≡ false = ground (arith, fresh.0) in
      rw (← same) (named, refl, decoded-eq-ok (client.decode_pay_req request.invoice) d e, lasting)

  sends :
      (p : PreparedPayment)
      → is_empty p.request.invoice ≡ false
      → send_lightning_payment (some client) p
        ≡ (outcome (client.send_payment p.request.invoice), p.request.invoice ∷ [])
  unfolding send_lightning_payment
  sends p h = rw (send_lightning_payment, h) refl

  -- A payment that was parsed and prepared: its invoice passed the prefix test of the node's own
  -- network, LND decoded exactly that invoice to the details shown, which were not expired, and sending
  -- submits that invoice once and no other, and reports the answer.
  pub lightning_payment_bound :
      (network : String) (raw : Text) (request : PaymentRequest) (p : PreparedPayment)
      → parse_lightning_payment network raw ≡ ok request
      → prepare_lightning_payment (some client) request ≡ ok p
      → ((n : NetworkConfig) × Member n network_configs
          × (n.name ≡ network)
          × (accepts_invoice_prefix n p.request.invoice ≡ true))
        × (client.decode_pay_req p.request.invoice ≡ ok (some p.details))
        × (p.details.is_expired ≡ false)
        × (send_lightning_payment (some client) p
            ≡ (outcome (client.send_payment p.request.invoice), p.request.invoice ∷ []))
  lightning_payment_bound network raw request p h k =
      let (full, same, found, fresh) = prepared request p k in
      let (n, m, name, fits) = parsed network raw request h in
      rw same ((n, m, name, fits), found, fresh, rw same at (sends p (rw same full)))
