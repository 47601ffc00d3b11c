-- ===== src/Tests/Invoice.antt =====
-- An invoice of internal/app/lightning_invoice.go with a hash of 32 bytes.
use virtual_private_node.Base.{ℕ, ◌≡◌, refl, false, some, ok, List, [], ◌∷◌}
use virtual_private_node.Base.Int.{pos}
use virtual_private_node.Base.Text.{codes}
use virtual_private_node.Base.Hex.{hex_decode}
use virtual_private_node.Invoice.{
  RpcInvoice, InvoiceRequest, LightningInvoice, LightningInvoiceClient, create_lightning_invoice,
}
use virtual_private_node.Invoice.Binding.{Bound, create_lightning_invoice-Bound}

abbrev from_lnd : RpcInvoice
from_lnd = record {
  payment_request = codes "lnbc10u1p";
  payment_hash = codes "0000000000000000000000000000000000000000000000000000000000000001";
  amount_sats = pos 1000;
  memo = [];
  settled = false;
  creation_date = pos 1;
  settle_date = pos 0;
  expiry = pos 3600;
  is_expired = false;
}

abbrev client : LightningInvoiceClient
client = record {
  add_invoice = λ amount memo blinded. ok (some from_lnd);
  lookup_invoice = λ hash. ok (some from_lnd);
}

abbrev request : InvoiceRequest
request = record { amount_sats = pos 1000; memo = []; blinded = false }

abbrev hash : List ℕ
hash =
    0 ∷ 0 ∷ 0 ∷ 0 ∷ 0 ∷ 0 ∷ 0 ∷ 0 ∷ 0 ∷ 0 ∷ 0 ∷ 0 ∷ 0 ∷ 0 ∷ 0 ∷ 0 ∷ 0 ∷ 0 ∷ 0 ∷ 0 ∷ 0 ∷ 0 ∷ 0 ∷ 0
    ∷ 0 ∷ 0 ∷ 0 ∷ 0 ∷ 0 ∷ 0 ∷ 0 ∷ 1 ∷ []

abbrev invoice : LightningInvoice
invoice = record {
  payment_request = codes "lnbc10u1p";
  payment_hash = hash;
  amount_sats = pos 1000;
}

creates : create_lightning_invoice (some client) request ≡ ok invoice
unfolding create_lightning_invoice hex_decode
creates = refl

create_lightning_invoice-Bound_example : Bound client request invoice
create_lightning_invoice-Bound_example =
    create_lightning_invoice-Bound client request invoice creates
