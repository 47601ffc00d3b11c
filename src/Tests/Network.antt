-- ===== src/Tests/Network.antt =====
-- The network profiles of internal/config/network.go at concrete names and invoices.
use virtual_private_node.Base.{◌≡◌, refl, true, ok, inl, inr}
use virtual_private_node.Base.Text.{codes}
use virtual_private_node.Network.{testnet4, network_config_from_name, accepts_invoice_prefix}
use virtual_private_node.Network.Prefixes.{accepts_unique}

found : network_config_from_name "testnet4" ≡ ok testnet4
unfolding network_config_from_name
found = refl

accepted : accepts_invoice_prefix testnet4 (codes "LNTB20u1pabc") ≡ true
unfolding accepts_invoice_prefix
accepted = refl

accepts_unique_example : testnet4 ≡ testnet4
accepts_unique_example =
    accepts_unique testnet4 testnet4 (codes "LNTB20u1pabc") (inr (inl refl)) (inr (inl refl))
      accepted accepted
