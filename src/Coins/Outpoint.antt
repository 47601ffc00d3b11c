-- ===== src/Coins/Outpoint.antt =====
-- An outpoint text names one transaction output (coinOutpoint of internal/app/coin_selection.go).
use virtual_private_node.Base.{ℕ, suc, ◌≡◌, ◌≢◌, refl, sym, [], ◌∷◌, ◌++◌, arith, All}
use virtual_private_node.Base.Int.{ℤ, pos, negsuc}
use virtual_private_node.Base.Text.{Text}
use virtual_private_node.Base.Decimal.{
  IsDigit, decimal, decimal-IsDigit, decimal_int, decimal_int-injective,
}
use virtual_private_node.Coins.{Utxo, coin_outpoint}

abbrev NoColon : Text → Type 0
NoColon = All (λ c. c ≢ b':')

digits-NoColon : (s : Text) → All IsDigit s → NoColon s
digits-NoColon [] h = tt
digits-NoColon (c ∷ s) h = (λ e. omega arith, digits-NoColon s h.1)

decimal_int-NoColon : (z : ℤ) → NoColon (decimal_int z)
decimal_int-NoColon (pos n) = digits-NoColon (decimal n) (decimal-IsDigit n)
decimal_int-NoColon (negsuc n) =
    (λ e. omega arith, digits-NoColon (decimal (suc n)) (decimal-IsDigit (suc n)))

colon_inside : (t e : Text) → NoColon (t ++ b':' ∷ e) → ⊥
colon_inside [] e h = h.0 refl
colon_inside (c ∷ t) e h = colon_inside t e h.1

heads : {a b : ℕ} {s t : Text} → ◌≡◌ {A = Text} (a ∷ s) (b ∷ t) → (a ≡ b) × (s ≡ t)
heads e = (cc, cc)

-- The last colon cuts a text in one way.
last_colon :
    (s t d e : Text)
    → NoColon d
    → NoColon e
    → ◌≡◌ {A = Text} (s ++ b':' ∷ d) (t ++ b':' ∷ e)
    → (s ≡ t) × (d ≡ e)
last_colon [] [] d e hd he p = (refl, (heads p).1)
last_colon [] (c ∷ t) d e hd he p = absurd (colon_inside t e (let q = (heads p).1 in rw (sym q) hd))
last_colon (c ∷ s) [] d e hd he p = absurd (colon_inside s d (let q = (heads p).1 in rw q he))
last_colon (a ∷ s) (b ∷ t) d e hd he p =
    let ih = last_colon s t d e hd he (heads p).1 in (cc (ih.0, (heads p).0), ih.1)

-- Two coins with one outpoint text have the same transaction and the same output index.
pub coin_outpoint-injective :
    (a b : Utxo) → coin_outpoint a ≡ coin_outpoint b → (a.txid ≡ b.txid) × (a.vout ≡ b.vout)
unfolding coin_outpoint
coin_outpoint-injective a b e =
    let parts =
      last_colon a.txid b.txid (decimal_int a.vout) (decimal_int b.vout)
        (decimal_int-NoColon a.vout) (decimal_int-NoColon b.vout) e in
    (parts.0, decimal_int-injective a.vout b.vout parts.1)
