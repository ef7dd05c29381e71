-- ===== src/Btc/Deps.antt =====
-- What the Bitcoin crate takes from the `bitcoin` crate, which is not in the repository, with its
-- documented laws: a displayed value parses back, and equality is equality. `Address<V>` is one type
-- of data whatever `V`, so `assume_checked` is the identity and has no field.
use browser_web3_signer.Prelude.{◌≡◌, ◌↔◌, String, Bool, true, List, Result, ok, ◌>>=◌}
use browser_web3_signer.Prelude.Text.{all_hex}

pub record Deps : Type 1 where
  pub Network : Type 0
  pub bitcoin : Network
  pub testnet : Network
  pub testnet4 : Network
  pub signet : Network
  pub regtest : Network
  pub Address : Type 0
  pub parse_address : String → Result Address String
  pub show_address : Address → String
  pub same_address : Address → Address → Bool
  pub is_valid_for_network : Address → Network → Bool
  pub PublicKey : Type 0
  pub parse_public_key : String → Result PublicKey String
  pub Txid : Type 0
  pub parse_txid : String → Result Txid String
  pub show_txid : Txid → String
  pub same_txid : Txid → Txid → Bool
  pub Bytes : Type 0
  pub from_hex : String → Result Bytes String
  pub from_base64 : String → Result Bytes String
  pub is_empty : Bytes → Bool
  pub Psbt : Type 0
  pub Input : Type 0
  pub inputs : Psbt → List Input
  pub has_tap_scripts : Input → Bool
  pub compute_txid : Psbt → Txid
  pub deserialize : Bytes → Result Psbt String
  pub serialize_hex : Psbt → String
  -- `Debug` of a text.
  pub debug : String → String
  pub parse-show_address : (a : Address) → parse_address (show_address a) ≡ ok a
  pub same_address_iff : (a b : Address) → (same_address a b ≡ true) ↔ (a ≡ b)
  pub same_txid_iff : (a b : Txid) → (same_txid a b ≡ true) ↔ (a ≡ b)
  pub serialize_hex-all_hex : (p : Psbt) → all_hex (serialize_hex p) ≡ true
  pub deserialize-serialize_hex : (p : Psbt) → (from_hex (serialize_hex p) >>= deserialize) ≡ ok p
