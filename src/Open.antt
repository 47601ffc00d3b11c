-- ===== src/Open.antt =====
-- Opening a channel: preparing a reviewed request and submitting it once
-- (internal/app/channel_open.go, ChannelOpenRequest and ChannelOpenResult of
-- internal/lndrpc/queries.go). Packages btcec and btcutil are the parameter `ChannelLib`.
pub mod Prepare
pub mod Workflow
pub mod Submit
use virtual_private_node.Base.{
  ℕ, ◌/◌, ◌≤◌, ◌≡◌, Bool, true, false, not, ◌&&◌, ◌||◌, Option, none, some, List, [], ◌∷◌, ◌++◌,
  leb, ltb, ◌==◌, if◌then◌else◌, length, Result, ok, err, ◌>>=◌, ◌>>◌, guard,
}
use virtual_private_node.Base.Int.{ℤ, pos, pos_part, ltb_ℤ, leb_ℤ, max_int64, ◌+ℤ◌, ◌-ℤ◌, wrap64}
use virtual_private_node.Base.Text.{Text, is_empty, trim_space}
use virtual_private_node.Base.Hex.{hex_decode, hex_encode}
use virtual_private_node.Base.HostPort.{split_host_port, has_blank, atoi}
use virtual_private_node.Coins.{Utxo, CoinError, resolve_coins}

-- btcec.ParsePubKey, SerializeCompressed and btcutil.MaxSatoshi.
pub record ChannelLib : Type 1 where
  pub Key : Type 0
  pub parse_pub_key : List ℕ → Option Key
  pub serialize_compressed : Key → List ℕ
  pub max_satoshi : ℕ
  pub max_satoshi_fits : max_satoshi ≤ max_int64

pub record ChannelOpenInput : Type 0 where
  pub pubkey : Text
  pub host : Text
  pub amount_sats : ℤ
  pub fund_max : Bool
  pub private : Bool
  pub taproot : Bool
  pub sat_per_vbyte : ℤ
  pub outpoints : List Text

pub record ChannelOpenRequest : Type 0 where
  pub pubkey : Text
  pub amount_sats : ℤ
  pub private : Bool
  pub taproot : Bool
  pub fund_max : Bool
  pub outpoints : List Text
  pub sat_per_vbyte : ℕ
  pub min_confs : ℤ
  pub spend_unconfirmed : Bool

pub record PreparedChannelOpen : Type 0 where
  pub request : ChannelOpenRequest
  pub host : Text
  pub total : ℤ

-- The error texts of the file; `peer` joins the errors of connecting and of waiting.
pub data OpenError : Type 0 where
  bad_key_text bad_key bad_host bad_size public_taproot bad_fee no_coins bad_coin : OpenError
  max_too_small not_covered review_first not_connected no_txid : OpenError
  coin : CoinError → OpenError
  service : Text → OpenError
  peer : Option Text → Text → OpenError

-- A compressed key has 33 bytes.
abbrev pub key_bytes : Option (List ℕ) → Result OpenError (List ℕ)
key_bytes none = err bad_key_text
key_bytes (some raw) = if length raw == 33 then ok raw else err bad_key_text

-- The test on the port: a number from 1 to 65535.
abbrev pub port_allowed : Option ℤ → Bool
port_allowed none = false
port_allowed (some n) = leb_ℤ (pos 1) n && leb_ℤ n (pos 65535)

abbrev pub host_allowed : Option (Text × Text) → Bool
host_allowed none = false
host_allowed (some (name, port)) =
    not (is_empty name) && not (has_blank name) && port_allowed (atoi port)

unfoldable pub validate_channel_amount : ℤ → Result OpenError (Unit {0})
validate_channel_amount amount =
    if ltb_ℤ amount (pos 20000) || ltb_ℤ (pos 1000000000) amount then err bad_size else ok tt

abbrev pub max_fee_rate : ℕ
max_fee_rate = max_int64 / 1000

abbrev pub coins_or : Result CoinError (List Utxo) → Result OpenError (List Utxo)
coins_or (ok coins) = ok coins
coins_or (err e) = err (coin e)

module _ (lib : ChannelLib) where
  open lib use {Key, parse_pub_key, serialize_compressed, max_satoshi}

  abbrev pub parsed_key : Option Key → Result OpenError Key
  parsed_key none = err bad_key
  parsed_key (some key) = ok key

  unfoldable pub validate_channel_peer : Text → Text → Result OpenError (Text × Text)
  unfolding hex_decode hex_encode split_host_port atoi
  validate_channel_peer pubkey host = do
    raw ← key_bytes (hex_decode (trim_space pubkey))
    key ← parsed_key (parse_pub_key raw)
    guard (host_allowed (split_host_port (trim_space host))) bad_host
    ok (hex_encode (serialize_compressed key), trim_space host)

  -- The loop that adds the coins up, in int64.
  unfoldable pub add_coins : List Utxo → ℤ → Result OpenError ℤ
  add_coins [] total = ok total
  add_coins (c ∷ coins) total =
      if leb_ℤ c.amount_sats (pos 0) || ltb_ℤ (wrap64 (pos max_satoshi -ℤ total)) c.amount_sats
      then err bad_coin
      else add_coins coins (wrap64 (total +ℤ c.amount_sats))

  -- The amount of the request: 0 where LND determines the capacity.
  unfoldable pub funded_amount : ChannelOpenInput → ℤ → Result OpenError ℤ
  unfolding validate_channel_amount
  funded_amount input total =
      if input.fund_max
      then if ltb_ℤ total (pos 20000) then err max_too_small else ok (pos 0)
      else do
        validate_channel_amount input.amount_sats
        if leb_ℤ total input.amount_sats then err not_covered else ok input.amount_sats

  abbrev pub fee_allowed : ℤ → Bool
  fee_allowed fee = leb_ℤ (pos 0) fee && leb_ℤ fee (pos max_fee_rate)

  abbrev pub some_outpoint : List Text → Bool
  some_outpoint [] = false
  some_outpoint (op ∷ ops) = true

  -- The request that was reviewed, the peer's host and the selected total.
  unfoldable pub reviewed : ChannelOpenInput → Text × Text → ℤ → ℤ → PreparedChannelOpen
  reviewed input (pubkey, host) amount total = record {
    request = record {
      pubkey = pubkey;
      amount_sats = amount;
      private = input.private;
      taproot = input.taproot;
      fund_max = input.fund_max;
      outpoints = input.outpoints;
      sat_per_vbyte = pos_part input.sat_per_vbyte;
      min_confs = pos 0;
      spend_unconfirmed = true;
    };
    host = host;
    total = total;
  }

  unfoldable pub prepare_channel_open :
      ChannelOpenInput → List Utxo → Result OpenError PreparedChannelOpen
  unfolding validate_channel_peer resolve_coins add_coins funded_amount
  prepare_channel_open input available = do
    checked ← validate_channel_peer input.pubkey input.host
    guard (not (input.taproot && not input.private)) public_taproot
    guard (fee_allowed input.sat_per_vbyte) bad_fee
    guard (some_outpoint input.outpoints) no_coins
    coins ← coins_or (resolve_coins input.outpoints available)
    total ← add_coins coins (pos 0)
    amount ← funded_amount input total
    ok (reviewed input checked amount total)
