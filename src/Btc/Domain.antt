-- ===== src/Btc/Domain.antt =====
-- btc/src/domain.rs and config.rs: networks, addresses that are checked against one, amounts, fee
-- rates, PSBTs, message protocols and signatures. `Sats` and `SatPerVb` are numbers.
use Prim.Native.String.{◌++◌}
use browser_web3_signer.Prelude.{
  ℕ, zero, suc, ◌^◌, String, Bool, Option, none, some, Result, ok, err, ◌>>=◌, map_err, to_option,
  and_then, unwrap_or, is_some_and, if◌then◌else◌,
}
use browser_web3_signer.Prelude.Decimal.{parse_unsigned}
use browser_web3_signer.Prelude.Text.{equals_lowercase, trim, all_hex}
use browser_web3_signer.Prelude.Lists.{get_elem?}
use browser_web3_signer.Core.Parse.{DomainParseError, parse_error, display}
use browser_web3_signer.Core.Config.{Var, var_ok, Port, port_from_env}
use browser_web3_signer.Btc.Deps.{Deps}

pub data BtcNetwork : Type 0 where
  mainnet : BtcNetwork
  testnet : BtcNetwork
  testnet4 : BtcNetwork
  signet : BtcNetwork
  regtest : BtcNetwork

unfoldable pub network_id : BtcNetwork → String
network_id mainnet = "mainnet"
network_id testnet = "testnet"
network_id testnet4 = "testnet4"
network_id signet = "signet"
network_id regtest = "regtest"

-- `FromStr` of `BtcNetwork`.
unfoldable pub network_from_str : String → Result BtcNetwork DomainParseError
network_from_str s =
    if equals_lowercase s "mainnet"
    then ok mainnet
    else if equals_lowercase s "testnet"
    then ok testnet
    else if equals_lowercase s "testnet3"
    then ok testnet
    else if equals_lowercase s "testnet4"
    then ok testnet4
    else if equals_lowercase s "signet"
    then ok signet
    else if equals_lowercase s "regtest"
    then ok regtest
    else err (parse_error "bitcoin network" s "expected mainnet|testnet|testnet4|signet|regtest")

-- `config::default_network`, from the variable.
unfoldable pub default_network : Var → BtcNetwork
unfolding network_from_str
default_network var =
    unwrap_or (and_then (var_ok var) (λ v. to_option (network_from_str v))) mainnet

-- `config::block_explorer`.
unfoldable pub block_explorer : BtcNetwork → Option String
block_explorer mainnet = some "https://mempool.space/tx/"
block_explorer testnet = some "https://mempool.space/testnet/tx/"
block_explorer testnet4 = some "https://mempool.space/testnet4/tx/"
block_explorer signet = some "https://mempool.space/signet/tx/"
block_explorer regtest = none

-- `config::port`; 3849 is the default.
abbrev pub default_btc_port : Port
default_btc_port = record { get = 3849 }

unfoldable pub port : (String → String) → Var → Port
port debug var = port_from_env debug var default_btc_port

abbrev pub Sats : Type 0
Sats = ℕ

abbrev pub SatPerVb : Type 0
SatPerVb = ℕ

unfoldable pub sats_from_str : String → Result Sats DomainParseError
sats_from_str s = map_err (parse_error "sat amount" s) (parse_unsigned (2 ^ 64) s)

-- The last step of `NonZeroU64::from_str`.
unfoldable pub non_zero : ℕ → Result ℕ String
non_zero zero = err "number would be zero for non-zero type"
non_zero (suc n) = ok (suc n)

unfoldable pub fee_rate_from_str : String → Result SatPerVb DomainParseError
unfolding non_zero
fee_rate_from_str s =
    map_err (parse_error "fee rate (sat/vB)" s) (parse_unsigned (2 ^ 64) s >>= non_zero)

pub data MessageProtocol : Type 0 where
  bip322 : MessageProtocol
  ecdsa : MessageProtocol

unfoldable pub protocol_id : MessageProtocol → String
protocol_id bip322 = "bip322"
protocol_id ecdsa = "ecdsa"

unfoldable pub protocol_from_str : String → Result MessageProtocol DomainParseError
protocol_from_str s =
    if equals_lowercase s "bip322"
    then ok bip322
    else if equals_lowercase s "ecdsa"
    then ok ecdsa
    else err (parse_error "message protocol" s "expected bip322|ecdsa")

-- A parser with its error as text, as the readers of fields show it.
abbrev pub shown : {A : Type 0} → (String → Result A DomainParseError) → String → Result A String
shown parse s = map_err display (parse s)

module _ (deps : Deps) where
  open deps use {
    Network, bitcoin, Address, parse_address, show_address, is_valid_for_network, PublicKey,
    parse_public_key, Txid, Bytes, from_hex, from_base64, is_empty, Psbt, inputs, has_tap_scripts,
    compute_txid, deserialize,
  }

  unfoldable pub to_bitcoin : BtcNetwork → Network
  to_bitcoin mainnet = bitcoin
  to_bitcoin testnet = deps.testnet
  to_bitcoin testnet4 = deps.testnet4
  to_bitcoin signet = deps.signet
  to_bitcoin regtest = deps.regtest

  abbrev pub UncheckedAddress : Type 0
  UncheckedAddress = Address

  abbrev pub BtcAddress : Type 0
  BtcAddress = Address

  unfoldable pub require_network :
      UncheckedAddress → BtcNetwork → Result BtcAddress DomainParseError
  unfolding to_bitcoin network_id
  require_network a n =
      if is_valid_for_network a (to_bitcoin n)
      then ok a
      else err (
          parse_error "bitcoin address" (show_address a) ("not a " ++ (network_id n ++ " address")))

  unfoldable pub address_from_str : String → Result UncheckedAddress DomainParseError
  address_from_str s = map_err (parse_error "bitcoin address" s) (parse_address s)

  unfoldable pub public_key_from_str : String → Result PublicKey DomainParseError
  public_key_from_str s = map_err (parse_error "public key" s) (parse_public_key s)

  abbrev pub PsbtData : Type 0
  PsbtData = Psbt

  -- The bytes of a trimmed text: hex if all of it is, else base64.
  unfoldable pub psbt_bytes : String → Result Bytes String
  psbt_bytes s = if all_hex s then from_hex s else from_base64 s

  unfoldable pub psbt_from_trimmed : String → Result PsbtData DomainParseError
  unfolding psbt_bytes
  psbt_from_trimmed s = map_err (parse_error "psbt" s) (psbt_bytes s >>= deserialize)

  unfoldable pub psbt_from_str : String → Result PsbtData DomainParseError
  unfolding psbt_from_trimmed
  psbt_from_str s = psbt_from_trimmed (trim s)

  unfoldable pub spends_script_path : PsbtData → ℕ → Bool
  spends_script_path p index = is_some_and (get_elem? (inputs p) index) has_tap_scripts

  -- `MessageSignature::from_str`, on the decoded bytes.
  unfoldable pub non_empty : String → Bytes → Result Bytes DomainParseError
  non_empty s b = if is_empty b then err (parse_error "message signature" s "empty") else ok b

  unfoldable pub signature_from_str : String → Result Bytes DomainParseError
  unfolding non_empty
  signature_from_str s = do
    b ← map_err (parse_error "message signature" s) (from_base64 s)
    non_empty s b
