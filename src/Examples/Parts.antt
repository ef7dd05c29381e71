-- ===== src/Examples/Parts.antt =====
-- Concrete channels, a network with a free port, and domain types that are their own text.
use browser_web3_signer.Prelude.{
  ℕ, ◌≡◌, refl, String, Bool, true, false, List, [], ◌∷◌, Result, ok, err, str_eq, eq_iff, ◌==◌,
  if◌then◌else◌,
}
use browser_web3_signer.Core.Types.{RequestResult}
use browser_web3_signer.Core.Oneshot.{Oneshot, Recv, pending, received, closed}
use browser_web3_signer.Core.Engine.Bind.{Tcp}
use browser_web3_signer.Evm.Deps.{Deps}
use browser_web3_signer.Btc.Deps.{Deps as BtcDeps}
use browser_web3_signer.Prelude.Text.{all_hex}

abbrev pub net : Oneshot RequestResult
net = record {
  State = Recv RequestResult;
  fresh = pending;
  send = λ a s. received a;
  drop_tx = λ s. closed;
  recv = λ s. s;
  recv-fresh = refl;
  recv-send = λ a s h. refl;
  recv-drop_tx = λ s h. refl;
}

-- Port 3847 is taken; the free port is 50000. A listener is its port.
abbrev pub tcp : Tcp ℕ
tcp = record {
  bind = λ p.
      if p == 3847
      then err (record { addr_in_use = true; text = "in use" })
      else ok (if p == 0 then 50000 else p);
  local_port = λ p. ok p;
}

abbrev pub deps : Deps
deps = record {
  Address = String;
  U256 = String;
  Bytes = String;
  Url = String;
  parse_address = ok;
  show_address = λ s. s;
  same_address = str_eq;
  parse_u256 = ok;
  show_u256 = λ s. s;
  parse_bytes = ok;
  show_bytes = λ s. s;
  bytes_is_empty = λ s. str_eq s "0x";
  parse_url = ok;
  show_url = λ s. s;
  parse-show_address = λ a. refl;
  parse-show_u256 = λ n. refl;
  parse-show_bytes = λ b. refl;
  parse-show_url = λ u. refl;
  same_address_iff = eq_iff;
}

abbrev pub show_id : ℕ → String
show_id _ = "id"

-- A PSBT is one of two, and an address is the name of its network.
abbrev pub psbt_hex : Bool → String
psbt_hex false = "00"
psbt_hex true = "01"

abbrev pub psbt_txid : Bool → String
psbt_txid false = "t0"
psbt_txid true = "t1"

abbrev pub hex_psbt : String → Result Bool String
hex_psbt s = if str_eq s "00" then ok false else if str_eq s "01" then ok true else err "no psbt"

pub hex_psbt-psbt_hex : (p : Bool) → hex_psbt (psbt_hex p) ≡ ok p
hex_psbt-psbt_hex false = refl
hex_psbt-psbt_hex true = refl

pub psbt_hex-all_hex : (p : Bool) → all_hex (psbt_hex p) ≡ true
unfolding all_hex
psbt_hex-all_hex false = refl
psbt_hex-all_hex true = refl

-- The first PSBT has one input, which spends a leaf; the second has none.
abbrev pub psbt_inputs : Bool → List Bool
psbt_inputs false = true ∷ []
psbt_inputs true = []

abbrev pub btc_deps : BtcDeps
btc_deps = record {
  Network = String;
  bitcoin = "main";
  testnet = "test";
  testnet4 = "test";
  signet = "test";
  regtest = "regtest";
  Address = String;
  parse_address = ok;
  show_address = λ s. s;
  same_address = str_eq;
  is_valid_for_network = str_eq;
  PublicKey = String;
  parse_public_key = ok;
  Txid = String;
  parse_txid = ok;
  show_txid = λ s. s;
  same_txid = str_eq;
  Bytes = String;
  from_hex = ok;
  from_base64 = ok;
  is_empty = λ s. str_eq s "";
  Psbt = Bool;
  Input = Bool;
  inputs = psbt_inputs;
  has_tap_scripts = λ b. b;
  compute_txid = psbt_txid;
  deserialize = hex_psbt;
  serialize_hex = psbt_hex;
  debug = λ s. s;
  parse-show_address = λ a. refl;
  same_address_iff = eq_iff;
  same_txid_iff = eq_iff;
  serialize_hex-all_hex = psbt_hex-all_hex;
  deserialize-serialize_hex = hex_psbt-psbt_hex;
}
