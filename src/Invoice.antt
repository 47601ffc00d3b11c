-- ===== src/Invoice.antt =====
-- Creating a Lightning invoice and checking it (internal/app/lightning_invoice.go).
pub mod Binding
use virtual_private_node.Base.{
  ℕ, Bool, true, false, not, Option, none, some, List, [], ◌∷◌, ◌==◌, length, if◌then◌else◌, Result,
  ok, err, ◌>>=◌, ◌>>◌, guard,
}
use virtual_private_node.Base.Int.{ℤ, pos, leb_ℤ}
use virtual_private_node.Base.Text.{Text, is_empty}
use virtual_private_node.Base.Hex.{hex_decode}

-- lndrpc.Invoice
pub record RpcInvoice : Type 0 where
  pub payment_request : Text
  pub payment_hash : Text
  pub amount_sats : ℤ
  pub memo : Text
  pub settled : Bool
  pub creation_date : ℤ
  pub settle_date : ℤ
  pub expiry : ℤ
  pub is_expired : Bool

pub record InvoiceRequest : Type 0 where
  pub amount_sats : ℤ
  pub memo : Text
  pub blinded : Bool

pub record LightningInvoice : Type 0 where
  pub payment_request : Text
  pub payment_hash : List ℕ
  pub amount_sats : ℤ

pub data InvoiceState : Type 0 where
  invoice_pending invoice_paid invoice_expired : InvoiceState

pub data InvoiceError : Type 0 where
  minimum not_connected no_invoice bad_hash create_first no_status : InvoiceError
  service : Text → InvoiceError

-- The client's answers, `none` for a nil result.
pub record LightningInvoiceClient : Type 0 where
  pub add_invoice : ℤ → Text → Bool → Result Text (Option RpcInvoice)
  pub lookup_invoice : List ℕ → Result Text (Option RpcInvoice)

abbrev pub connected : Option LightningInvoiceClient → Result InvoiceError LightningInvoiceClient
connected none = err not_connected
connected (some client) = ok client

abbrev pub added : Result Text (Option RpcInvoice) → Result InvoiceError RpcInvoice
added (err e) = err (service e)
added (ok none) = err no_invoice
added (ok (some invoice)) = if is_empty invoice.payment_request then err no_invoice else ok invoice

abbrev pub hash_of : Option (List ℕ) → Result InvoiceError (List ℕ)
hash_of none = err bad_hash
hash_of (some hash) = if length hash == 32 then ok hash else err bad_hash

unfoldable pub create_lightning_invoice :
    Option LightningInvoiceClient → InvoiceRequest → Result InvoiceError LightningInvoice
create_lightning_invoice client request = do
  guard (leb_ℤ (pos 1) request.amount_sats) minimum
  c ← connected client
  invoice ← added (c.add_invoice request.amount_sats request.memo request.blinded)
  hash ← hash_of (hex_decode invoice.payment_hash)
  ok (record {
    payment_request = invoice.payment_request;
    payment_hash = hash;
    amount_sats = invoice.amount_sats;
  })

-- The state and the error that a lookup gives.
unfoldable pub looked_up : Result Text (Option RpcInvoice) → InvoiceState × Option InvoiceError
looked_up (err e) = (invoice_pending, some (service e))
looked_up (ok none) = (invoice_pending, some no_status)
looked_up (ok (some status)) =
    if status.settled
    then (invoice_paid, none)
    else if status.is_expired
    then (invoice_expired, none)
    else (invoice_pending, none)

unfoldable pub check_lightning_invoice :
    Option LightningInvoiceClient → LightningInvoice → InvoiceState × Option InvoiceError
check_lightning_invoice client invoice =
    if is_empty invoice.payment_request then (invoice_pending, some create_first) else elim client [
      | none ↦ (invoice_pending, some not_connected)
      | some c ↦ looked_up (c.lookup_invoice invoice.payment_hash)
    ]
