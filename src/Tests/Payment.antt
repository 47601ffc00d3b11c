-- ===== src/Tests/Payment.antt =====
-- A payment of internal/app/lightning_payment.go at a concrete invoice.
use virtual_private_node.Base.{◌≡◌, refl, true, false, none, some, ok, [], ◌∷◌, Member}
use virtual_private_node.Base.Int.{pos}
use virtual_private_node.Base.Text.{Text, codes, trim_space}
use virtual_private_node.Network.{
  NetworkConfig, network_configs, accepts_invoice_prefix, network_config_from_name,
}
use virtual_private_node.Payment.{
  PaymentRequest, DecodedPayReq, PreparedPayment, LightningPaymentClient, parse_lightning_payment,
  prepare_lightning_payment, send_lightning_payment, outcome,
}
use virtual_private_node.Payment.Pipeline.{lightning_payment_bound}

abbrev details : DecodedPayReq
details = record {
  destination = codes "02aa";
  amount_sats = pos 1000;
  description = [];
  payment_hash = codes "bb";
  expiry = pos 3600;
  timestamp = pos 1;
  is_expired = false;
}

abbrev client : LightningPaymentClient Text
client = record {
  decode_pay_req = λ invoice. ok (some details);
  send_payment = λ invoice. (some (codes "preimage"), none);
}

abbrev request : PaymentRequest
request = record { invoice = codes "lnbc10u1p" }

abbrev prepared : PreparedPayment
prepared = record { request = request; details = details }

parses : parse_lightning_payment "mainnet" (codes " lightning:[lnbc10u1p] ") ≡ ok request
unfolding parse_lightning_payment trim_space network_config_from_name accepts_invoice_prefix
parses = refl

prepares : prepare_lightning_payment (some client) request ≡ ok prepared
unfolding prepare_lightning_payment
prepares = refl

lightning_payment_bound_example :
    ((n : NetworkConfig) × Member n network_configs
      × (n.name ≡ "mainnet")
      × (accepts_invoice_prefix n prepared.request.invoice ≡ true))
    × (client.decode_pay_req prepared.request.invoice ≡ ok (some prepared.details))
    × (prepared.details.is_expired ≡ false)
    × (send_lightning_payment (some client) prepared
        ≡ (outcome (client.send_payment prepared.request.invoice), prepared.request.invoice ∷ []))
lightning_payment_bound_example =
    lightning_payment_bound client "mainnet" (codes " lightning:[lnbc10u1p] ") request prepared
      parses prepares
