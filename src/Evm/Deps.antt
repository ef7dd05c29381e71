-- ===== src/Evm/Deps.antt =====
-- The types of the `alloy` and `url` crates in an EVM request, which are not in the repository: their
-- `FromStr` (an error by its text), `Display` and equality, and that a displayed value parses back.
use browser_web3_signer.Prelude.{◌≡◌, ◌↔◌, String, Bool, true, Result, ok}

pub record Deps : Type 1 where
  pub Address : Type 0
  pub U256 : Type 0
  pub Bytes : Type 0
  pub Url : Type 0
  pub parse_address : String → Result Address String
  -- `{:#x}`: lowercase hex with `0x`.
  pub show_address : Address → String
  pub same_address : Address → Address → Bool
  pub parse_u256 : String → Result U256 String
  pub show_u256 : U256 → String
  pub parse_bytes : String → Result Bytes String
  pub show_bytes : Bytes → String
  pub bytes_is_empty : Bytes → Bool
  pub parse_url : String → Result Url String
  pub show_url : Url → String
  pub parse-show_address : (a : Address) → parse_address (show_address a) ≡ ok a
  pub parse-show_u256 : (n : U256) → parse_u256 (show_u256 n) ≡ ok n
  pub parse-show_bytes : (b : Bytes) → parse_bytes (show_bytes b) ≡ ok b
  pub parse-show_url : (u : Url) → parse_url (show_url u) ≡ ok u
  pub same_address_iff : (a b : Address) → (same_address a b ≡ true) ↔ (a ≡ b)
