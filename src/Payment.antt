-- ===== src/Payment.antt =====
-- Paying a Lightning invoice (internal/app/lightning_payment.go).
pub mod Pipeline
use virtual_private_node.Base.{
  ℕ, String, Bool, true, false, not, ◌||◌, Option, none, some, List, [], ◌∷◌, ◌==◌, drop, length,
  if◌then◌else◌, Result, ok, err, ◌>>=◌, ◌>>◌, guard,
}
use virtual_private_node.Base.Int.{ℤ}
use virtual_private_node.Base.Text.{Text, codes, is_empty, trim_space, has_prefix}
use virtual_private_node.Network.{
  NetworkConfig, UnknownNetwork, network_config_from_name, accepts_invoice_prefix,
}

pub record PaymentRequest : Type 0 where
  pub invoice : Text

pub record DecodedPayReq : Type 0 where
  pub destination : Text
  pub amount_sats : ℤ
  pub description : Text
  pub payment_hash : Text
  pub expiry : ℤ
  pub timestamp : ℤ
  pub is_expired : Bool

pub record PreparedPayment : Type 0 where
  pub request : PaymentRequest
  pub details : DecodedPayReq

pub data PaymentError : Type 0 where
  nothing_pasted unsupported_network not_connected no_details expired prepare_first no_outcome :
      PaymentError
  wrong_network : String → PaymentError
  service : Text → PaymentError

-- The replacer that drops brackets and quotes.
abbrev pub unquoted : Text → Text
unquoted [] = []
unquoted (c ∷ s) =
    let rest = unquoted s in if c == b'[' || c == b']' || c == 34 || c == 39 then rest else c ∷ rest

-- strings.TrimPrefix
abbrev pub without_prefix : Text → Text → Text
without_prefix prefix s = if has_prefix s prefix then drop (length prefix) s else s

abbrev pub cleaned : Text → Text
cleaned raw =
    without_prefix (codes "LIGHTNING:")
      (without_prefix (codes "lightning:") (trim_space (unquoted raw)))

abbrev pub profile_of : Result UnknownNetwork NetworkConfig → Result PaymentError NetworkConfig
profile_of (ok n) = ok n
profile_of (err e) = err unsupported_network

unfoldable pub parse_lightning_payment : String → Text → Result PaymentError PaymentRequest
parse_lightning_payment network raw = do
  guard (not (is_empty (trim_space raw))) nothing_pasted
  profile ← profile_of (network_config_from_name network)
  guard (accepts_invoice_prefix profile (cleaned raw)) (wrong_network profile.display_name)
  ok (record { invoice = cleaned raw })

-- The client's answers, `none` for a nil result; `R` is what LND says of a payment.
pub record LightningPaymentClient (R : Type 0) : Type 0 where
  pub decode_pay_req : Text → Result Text (Option DecodedPayReq)
  pub send_payment : Text → Option R × Option Text

abbrev pub decoded : Result Text (Option DecodedPayReq) → Result PaymentError DecodedPayReq
decoded (err e) = err (service e)
decoded (ok none) = err no_details
decoded (ok (some details)) = ok details

module _ {R : Type 0} where
  abbrev pub connected :
      Option (LightningPaymentClient R) → Result PaymentError (LightningPaymentClient R)
  connected none = err not_connected
  connected (some client) = ok client

  unfoldable pub prepare_lightning_payment :
      Option (LightningPaymentClient R) → PaymentRequest → Result PaymentError PreparedPayment
  prepare_lightning_payment client request = do
    guard (not (is_empty request.invoice)) nothing_pasted
    c ← connected client
    details ← decoded (c.decode_pay_req request.invoice)
    guard (not details.is_expired) expired
    ok (record { request = request; details = details })

  -- The result and the error that the call returned; no outcome without an error is an error.
  abbrev pub outcome : Option R × Option Text → Option R × Option PaymentError
  outcome (r, some e) = (r, some (service e))
  outcome (none, none) = (none, some no_outcome)
  outcome (some r, none) = (some r, none)

  -- The result, the error, and the invoices that were submitted.
  unfoldable pub send_lightning_payment :
      Option (LightningPaymentClient R)
      → PreparedPayment
      → (Option R × Option PaymentError) × List Text
  send_lightning_payment client payment =
      if is_empty payment.request.invoice then ((none, some prepare_first), []) else elim client [
        | none ↦ ((none, some not_connected), [])
        | some c ↦ (outcome (c.send_payment payment.request.invoice), payment.request.invoice ∷ [])
      ]
