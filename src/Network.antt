-- ===== src/Network.antt =====
-- The closed table of Bitcoin network profiles (internal/config/network.go).
pub mod Prefixes
use virtual_private_node.Base.{
  ℕ, String, ◌≡◌, Bool, true, false, ◌&&◌, ◌||◌, Option, none, some, List, [], ◌∷◌, map, ◌+◌, leb,
  ◌==◌, if◌then◌else◌, str_eq, Result, ok, err, length, drop,
}
use virtual_private_node.Base.Text.{Text, codes, has_prefix}

pub record NetworkConfig : Type 0 where
  pub name : String
  pub display_name : String
  pub testing_only : Bool
  pub bitcoin_flag : String
  pub bitcoin_cli_flag : String
  pub core_network : String
  pub core_data_dir : String
  pub expected_genesis : String
  pub expected_signet_challenge : String
  pub lnd_bitcoin_flag : String
  pub lnd_network : String
  pub rpc_port : ℕ
  pub p2p_port : ℕ
  pub zmq_block_port : ℕ
  pub zmq_tx_port : ℕ
  pub invoice_prefix : String
  pub address_placeholder : String
  pub invoice_placeholder : String

abbrev pub mainnet : NetworkConfig
mainnet = record {
  name = "mainnet";
  display_name = "Mainnet";
  testing_only = false;
  bitcoin_flag = "";
  bitcoin_cli_flag = "";
  core_network = "main";
  core_data_dir = "";
  expected_genesis = "000000000019d6689c085ae165831e934ff763ae46a2a6c172b3f1b60a8ce26f";
  expected_signet_challenge = "";
  lnd_bitcoin_flag = "bitcoin.mainnet=true";
  lnd_network = "mainnet";
  rpc_port = 8332;
  p2p_port = 8333;
  zmq_block_port = 28332;
  zmq_tx_port = 28333;
  invoice_prefix = "lnbc";
  address_placeholder = "bc1p...";
  invoice_placeholder = "lnbc...";
}

abbrev pub testnet4 : NetworkConfig
testnet4 = record {
  name = "testnet4";
  display_name = "Testnet4";
  testing_only = true;
  bitcoin_flag = "testnet4=1";
  bitcoin_cli_flag = "-testnet4";
  core_network = "testnet4";
  core_data_dir = "testnet4";
  expected_genesis = "00000000da84f2bafbbc53dee25a72ae507ff4914b867c565be350b0da8bf043";
  expected_signet_challenge = "";
  lnd_bitcoin_flag = "bitcoin.testnet4=true";
  lnd_network = "testnet4";
  rpc_port = 48332;
  p2p_port = 48333;
  zmq_block_port = 28334;
  zmq_tx_port = 28335;
  invoice_prefix = "lntb";
  address_placeholder = "tb1p...";
  invoice_placeholder = "lntb...";
}

abbrev pub public_signet : NetworkConfig
public_signet = record {
  name = "public-signet";
  display_name = "Public signet";
  testing_only = true;
  bitcoin_flag = "signet=1";
  bitcoin_cli_flag = "-signet";
  core_network = "signet";
  core_data_dir = "signet";
  expected_genesis = "00000008819873e925422c1ff0f99f7cc9bbb232af63a077a480a3633bee1ef6";
  expected_signet_challenge =
      "512103ad5e0edad18cb1f0fc0d28a3d4f1f3e445640337489abb10404f2d1e086be430210359ef5021964fe22d6f8e05b2463c9540ce96883fe3b278760f048f5189f2e6c452ae";
  lnd_bitcoin_flag = "bitcoin.signet=true";
  lnd_network = "signet";
  rpc_port = 38332;
  p2p_port = 38333;
  zmq_block_port = 28336;
  zmq_tx_port = 28337;
  invoice_prefix = "lntbs";
  address_placeholder = "tb1p...";
  invoice_placeholder = "lntbs...";
}

abbrev pub network_configs : List NetworkConfig
network_configs = mainnet ∷ testnet4 ∷ public_signet ∷ []

abbrev pub supported_networks : List String
supported_networks = "mainnet" ∷ "testnet4" ∷ "public-signet" ∷ []

pub data UnknownNetwork : Type 0 where
  unknown_network : String → UnknownNetwork

-- networkConfigs[name]
abbrev pub find_network : String → List NetworkConfig → Option NetworkConfig
find_network name [] = none
find_network name (n ∷ rest) = if str_eq n.name name then some n else find_network name rest

unfoldable pub network_config_from_name : String → Result UnknownNetwork NetworkConfig
network_config_from_name name = elim (find_network name network_configs) [
  | none ↦ err (unknown_network name)
  | some n ↦ ok n
]

unfoldable pub validate_network : String → Result UnknownNetwork (Unit {0})
unfolding network_config_from_name
validate_network name = elim (network_config_from_name name) [ ok n ↦ ok tt | err e ↦ err e ]

-- strings.ToLower, on the letters that matter: no other letter is lowered to a character of an
-- invoice prefix or to a digit.
abbrev pub to_lower : ℕ → ℕ
to_lower c = if leb b'A' c && leb c b'Z' then c + 32 else c

-- `next` is the first character behind the prefix.
abbrev pub amount_follows : Text → Bool
amount_follows [] = false
amount_follows (next ∷ rest) = (next == b'1') || (leb b'0' next && leb next b'9')

unfoldable pub accepts_invoice_prefix : NetworkConfig → Text → Bool
accepts_invoice_prefix n invoice =
    let lowered = map to_lower invoice in
    let prefix = codes n.invoice_prefix in
    has_prefix lowered prefix && amount_follows (drop (length prefix) lowered)
