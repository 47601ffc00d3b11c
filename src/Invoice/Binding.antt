-- ===== src/Invoice/Binding.antt =====
-- That a created invoice is checked by its own hash (internal/app/lightning_invoice.go).
use virtual_private_node.Base.{
  ℕ, ◌≡◌, refl, false, Option, none, some, List, ◌==◌, length, Result, ok, err, arith, >>=-eq-ok,
  guard-eq-ok, ok-injective, Bool-cases, inl, inr,
}
use virtual_private_node.Base.Int.{pos, leb_ℤ, ◌≤ℤ◌}
use virtual_private_node.Base.Text.{Text, is_empty}
use virtual_private_node.Base.Hex.{hex_decode}
use virtual_private_node.Invoice.{
  RpcInvoice, InvoiceRequest, LightningInvoice, LightningInvoiceClient, create_lightning_invoice,
  check_lightning_invoice, looked_up, added, hash_of, minimum,
}

added-eq-ok :
    (r : Result Text (Option RpcInvoice)) (i : RpcInvoice)
    → added r ≡ ok i
    → (r ≡ ok (some i)) × (is_empty i.payment_request ≡ false)
added-eq-ok (err e) i h = cc
added-eq-ok (ok none) i h = cc
added-eq-ok (ok (some j)) i h = elim (Bool-cases (is_empty j.payment_request)) [
  | inl e ↦ ground arith
  | inr e ↦ let same : j ≡ i = ground arith in rw (← same) (refl, e)
]

hash_of-eq-ok :
    (o : Option (List ℕ)) (hash : List ℕ)
    → hash_of o ≡ ok hash
    → (o ≡ some hash) × (length hash ≡ 32)
hash_of-eq-ok none hash h = cc
hash_of-eq-ok (some l) hash h = elim (Bool-cases (length l == 32)) [
  | inl e ↦ let same : l ≡ hash = ground arith in rw (← same) (refl, ground arith)
  | inr e ↦ ground arith
]

module _ (client : LightningInvoiceClient) where
  -- What a created invoice is bound to.
  abbrev pub Bound : InvoiceRequest → LightningInvoice → Type 0
  Bound request invoice =
      (pos 1 ≤ℤ request.amount_sats)
      × ((r : RpcInvoice) × (client.add_invoice request.amount_sats request.memo request.blinded
            ≡ ok (some r))
          × (invoice.payment_request ≡ r.payment_request)
          × (invoice.amount_sats ≡ r.amount_sats)
          × (hex_decode r.payment_hash ≡ some invoice.payment_hash)
          × (length invoice.payment_hash ≡ 32))
      × (check_lightning_invoice (some client) invoice
          ≡ looked_up (client.lookup_invoice invoice.payment_hash))

  checks :
      (invoice : LightningInvoice)
      → is_empty invoice.payment_request ≡ false
      → check_lightning_invoice (some client) invoice
        ≡ looked_up (client.lookup_invoice invoice.payment_hash)
  unfolding check_lightning_invoice
  checks invoice h = rw (check_lightning_invoice, h) refl

  -- A created invoice is the one that LND added for an amount of at least 1 sat, its hash is the 32 bytes
  -- that LND's answer spells, and checking it looks up exactly that hash.
  pub create_lightning_invoice-Bound :
      (request : InvoiceRequest) (invoice : LightningInvoice)
      → create_lightning_invoice (some client) request ≡ ok invoice
      → Bound request invoice
  unfolding create_lightning_invoice
  create_lightning_invoice-Bound request invoice h =
      let enough = guard-eq-ok (leb_ℤ (pos 1) request.amount_sats) minimum _ h in
      let (r, e, next) =
        >>=-eq-ok (added (client.add_invoice request.amount_sats request.memo request.blinded)) _
          enough.1 in
      let (hash, d, last) = >>=-eq-ok (hash_of (hex_decode r.payment_hash)) _ next in
      let answer =
        added-eq-ok (client.add_invoice request.amount_sats request.memo request.blinded) r e in
      let bytes = hash_of-eq-ok (hex_decode r.payment_hash) hash d in
      let bound : LightningInvoice = record {
        payment_request = r.payment_request;
        payment_hash = hash;
        amount_sats = r.amount_sats;
      } in
      let same : bound ≡ invoice = ok-injective last in
      let low : pos 1 ≤ℤ request.amount_sats = ground (arith, enough.0) in
      rw (← same) (low, (r, answer.0, refl, refl, bytes.0, bytes.1), checks bound answer.1)
