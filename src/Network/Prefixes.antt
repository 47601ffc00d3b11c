-- ===== src/Network/Prefixes.antt =====
-- The network profiles are told apart by name and by invoice prefix (internal/config/network.go).
use virtual_private_node.Base.{
  ℕ, String, ◌≡◌, refl, sym, ◌∙◌, ap, true, Option, none, some, List, [], ◌∷◌, map, arith, inl, inr,
  Bool-cases, str_eq, eq_iff, ok, err, Member, Result, Option-cases, ◌++◌, length, drop,
}
use virtual_private_node.Base.Text.{Text, codes, has_prefix}
use virtual_private_node.Network.{
  NetworkConfig, mainnet, testnet4, public_signet, network_configs, UnknownNetwork, find_network,
  unknown_network, network_config_from_name, to_lower, amount_follows, accepts_invoice_prefix,
}

find_network_sound :
    (name : String) (l : List NetworkConfig) (n : NetworkConfig)
    → find_network name l ≡ some n
    → Member n l × (n.name ≡ name)
find_network_sound name [] n h = cc
find_network_sound name (m ∷ l) n h = elim (Bool-cases (str_eq m.name name)) [
  | inl e ↦
      let this : m ≡ n = ground (arith, h) in
      (inl this, ap (λ (k : NetworkConfig). k.name) (sym this) ∙ (eq_iff m.name name).0 e)
  | inr e ↦ let ih = find_network_sound name l n (rw e at h) in (inr ih.0, ih.1)
]

-- A name that is accepted is the name of the profile that comes back, one of the three.
pub network_config_from_name_sound :
    (name : String) (n : NetworkConfig)
    → network_config_from_name name ≡ ok n
    → Member n network_configs × (n.name ≡ name)
unfolding network_config_from_name
network_config_from_name_sound name n h = elim (Option-cases (find_network name network_configs)) [
  | inl e ↦ absurd (found-none (find_network name network_configs) e h)
  | inr (m, e) ↦
      let this : m ≡ n = found-some (find_network name network_configs) m e h in
      find_network_sound name network_configs n (e ∙ ap some this)
]
  where
    found-none :
        (o : Option NetworkConfig)
        → o ≡ none
        → ◌≡◌ {A = Result UnknownNetwork NetworkConfig}
            (elim o [ none ↦ err (unknown_network name) | some m ↦ ok m ])
            (ok n)
        → ⊥
    found-none none e h = cc
    found-none (some m) e h = cc

    found-some :
        (o : Option NetworkConfig) (m : NetworkConfig)
        → o ≡ some m
        → ◌≡◌ {A = Result UnknownNetwork NetworkConfig}
            (elim o [ none ↦ err (unknown_network name) | some k ↦ ok k ])
            (ok n)
        → m ≡ n
    found-some none m e h = cc
    found-some (some k) m e h = cc

has_prefix_sound : (s p : Text) → has_prefix s p ≡ true → (rest : Text) × (s ≡ p ++ rest)
has_prefix_sound s [] h = (s, refl)
has_prefix_sound [] (d ∷ p) h = cc
has_prefix_sound (c ∷ s) (d ∷ p) h =
    let (rest, e) = has_prefix_sound s p (ground arith) in
    let same_head : c ≡ d = ground arith in (rest, cc (e, same_head))

drop-append : (p rest : Text) → drop (length p) (p ++ rest) ≡ rest
drop-append [] rest = refl
drop-append (c ∷ p) rest = drop-append p rest

-- An accepted invoice is the prefix and then an amount or the separator.
pub accepts_split :
    (n : NetworkConfig) (invoice : Text)
    → accepts_invoice_prefix n invoice ≡ true
    → (rest : Text) × (map to_lower invoice ≡ codes n.invoice_prefix ++ rest)
      × (amount_follows rest ≡ true)
unfolding accepts_invoice_prefix
accepts_split n invoice h =
    let lowered = map to_lower invoice in
    let prefix = codes n.invoice_prefix in
    let (rest, e) = has_prefix_sound lowered prefix (ground arith) in
    let follows : amount_follows (drop (length prefix) lowered) ≡ true = ground arith in
    (
      rest,
      e,
      ap (λ t. amount_follows t) (sym (ap (drop (length prefix)) e ∙ drop-append prefix rest))
          ∙ follows,
    )

abbrev third : Text → ℕ
third (a ∷ b ∷ c ∷ rest) = c
third _ = 0

not_mainnet_and_testnet4 :
    (invoice : Text)
    → accepts_invoice_prefix mainnet invoice ≡ true
    → accepts_invoice_prefix testnet4 invoice ≡ true
    → ⊥
not_mainnet_and_testnet4 invoice h k =
    let (r, e, f) = accepts_split mainnet invoice h in
    let (s, e', f') = accepts_split testnet4 invoice k in omega (arith, ap third (sym e ∙ e'))

not_mainnet_and_signet :
    (invoice : Text)
    → accepts_invoice_prefix mainnet invoice ≡ true
    → accepts_invoice_prefix public_signet invoice ≡ true
    → ⊥
not_mainnet_and_signet invoice h k =
    let (r, e, f) = accepts_split mainnet invoice h in
    let (s, e', f') = accepts_split public_signet invoice k in omega (arith, ap third (sym e ∙ e'))

-- `lntb` and then an amount or the separator is not `lntbs`.
not_testnet4_and_signet :
    (invoice : Text)
    → accepts_invoice_prefix testnet4 invoice ≡ true
    → accepts_invoice_prefix public_signet invoice ≡ true
    → ⊥
not_testnet4_and_signet invoice h k =
    let (r, e, f) = accepts_split testnet4 invoice h in
    let (s, e', f') = accepts_split public_signet invoice k in
    let letter : r ≡ b's' ∷ s = cc (e, e') in cc (f, ap amount_follows letter)

-- No invoice is accepted by two of the three network profiles.
pub accepts_unique :
    (a b : NetworkConfig) (invoice : Text)
    → Member a network_configs
    → Member b network_configs
    → accepts_invoice_prefix a invoice ≡ true
    → accepts_invoice_prefix b invoice ≡ true
    → a ≡ b
accepts_unique a b invoice (inl p) (inl q) ha hb = cc
accepts_unique a b invoice (inr (inl p)) (inr (inl q)) ha hb = cc
accepts_unique a b invoice (inr (inr (inl p))) (inr (inr (inl q))) ha hb = cc
accepts_unique a b invoice (inl p) (inr (inl q)) ha hb =
    absurd (not_mainnet_and_testnet4 invoice (rw p ha) (rw q hb))
accepts_unique a b invoice (inl p) (inr (inr (inl q))) ha hb =
    absurd (not_mainnet_and_signet invoice (rw p ha) (rw q hb))
accepts_unique a b invoice (inr (inl p)) (inl q) ha hb =
    absurd (not_mainnet_and_testnet4 invoice (rw q hb) (rw p ha))
accepts_unique a b invoice (inr (inl p)) (inr (inr (inl q))) ha hb =
    absurd (not_testnet4_and_signet invoice (rw p ha) (rw q hb))
accepts_unique a b invoice (inr (inr (inl p))) (inl q) ha hb =
    absurd (not_mainnet_and_signet invoice (rw q hb) (rw p ha))
accepts_unique a b invoice (inr (inr (inl p))) (inr (inl q)) ha hb =
    absurd (not_testnet4_and_signet invoice (rw q hb) (rw p ha))
accepts_unique a b invoice (inr (inr (inr m))) mb ha hb = absurd m
accepts_unique a b invoice (inl p) (inr (inr (inr m))) ha hb = absurd m
accepts_unique a b invoice (inr (inl p)) (inr (inr (inr m))) ha hb = absurd m
accepts_unique a b invoice (inr (inr (inl p))) (inr (inr (inr m))) ha hb = absurd m
