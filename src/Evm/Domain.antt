-- ===== src/Evm/Domain.antt =====
-- evm/src/domain.rs: the domain types that wrap `alloy`'s, with the parsers that name what they parse.
-- `ChainId` is a `u64` by its value.
use browser_web3_signer.Prelude.{ℕ, ◌≡◌, ◌^◌, refl, String, Result, ok, map_err}
use browser_web3_signer.Prelude.Decimal.{parse_unsigned}
use browser_web3_signer.Core.Parse.{DomainParseError, parse_error, display}
use browser_web3_signer.Evm.Deps.{Deps}

abbrev pub ChainId : Type 0
ChainId = ℕ

unfoldable pub chain_id_from_str : String → Result ChainId DomainParseError
chain_id_from_str s = map_err (parse_error "chain id" s) (parse_unsigned (2 ^ 64) s)

module _ (deps : Deps) where
  open deps use {Address, U256, Bytes, Url, parse_address, parse_u256, parse_bytes}

  abbrev pub Wei : Type 0
  Wei = U256

  abbrev pub CallData : Type 0
  CallData = Bytes

  unfoldable pub address_from_str : String → Result Address DomainParseError
  address_from_str s = map_err (parse_error "address" s) (parse_address s)

  unfoldable pub wei_from_str : String → Result Wei DomainParseError
  wei_from_str s = map_err (parse_error "wei" s) (parse_u256 s)

  unfoldable pub call_data_from_str : String → Result CallData DomainParseError
  call_data_from_str s = map_err (parse_error "calldata" s) (parse_bytes s)

  -- The parsers with their errors as text, as the readers of fields show them.
  unfoldable pub address_text : String → Result Address String
  unfolding address_from_str
  address_text s = map_err display (address_from_str s)

  unfoldable pub wei_text : String → Result Wei String
  unfolding wei_from_str
  wei_text s = map_err display (wei_from_str s)

  unfoldable pub call_data_text : String → Result CallData String
  unfolding call_data_from_str
  call_data_text s = map_err display (call_data_from_str s)

  open deps use {
    show_address, show_u256, show_bytes, parse-show_address, parse-show_u256, parse-show_bytes,
  }

  pub address_text-show : (a : Address) → address_text (show_address a) ≡ ok a
  unfolding address_text
  address_text-show a = rw (parse-show_address a) refl

  pub wei_text-show : (n : U256) → wei_text (show_u256 n) ≡ ok n
  unfolding wei_text
  wei_text-show n = rw (parse-show_u256 n) refl

  pub call_data_text-show : (b : Bytes) → call_data_text (show_bytes b) ≡ ok b
  unfolding call_data_text
  call_data_text-show b = rw (parse-show_bytes b) refl
