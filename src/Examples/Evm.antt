-- ===== src/Examples/Evm.antt =====
-- EVM requests: a contract creation, and a transfer with an expected sender.
use browser_web3_signer.Prelude.{ℕ, ◌≡◌, ◌≢◌, ◌↔◌, refl, String, none, some, ok, err, arith}
use browser_web3_signer.Evm.Request.{
  checked_send, EvmRequest, send_transaction, SendTransactionParams, check, from_json, to_value,
}
use browser_web3_signer.Evm.Request.WellFormed.{IsWellFormed, from_json-IsWellFormed}
use browser_web3_signer.Evm.Request.RoundTrip.{from_json-to_value}
use browser_web3_signer.Evm.Request.Account.{account, expecting, expecting_refused}
use browser_web3_signer.Core.Parse.{opt_parsed, str_field, read_str, read_opt}
use browser_web3_signer.Evm.Domain.{address_text, wei_text, call_data_text}
use browser_web3_signer.Examples.Json.{Json, serde, object, member, end, number, text}
use browser_web3_signer.Examples.Parts.{deps, show_id}

abbrev pub creation_params : SendTransactionParams serde deps
creation_params = record {
  to = none;
  from = none;
  value = none;
  calldata = some "0x6080";
  chain_id = some 42161;
  gas_limit = none;
  max_fee_per_gas = none;
  max_priority_fee_per_gas = none;
}

abbrev pub creation : EvmRequest serde deps
creation = send_transaction (record { id = 7 }) creation_params

creation-IsWellFormed : IsWellFormed serde deps creation
unfolding check
creation-IsWellFormed = (omega arith, refl)

from_json-to_value_example :
    from_json serde deps 9 (to_value serde deps show_id creation)
    ≡ ok (send_transaction (record { id = 9 }) creation_params)
from_json-to_value_example = from_json-to_value serde deps show_id 9 creation creation-IsWellFormed

abbrev pub creation_body : Json
creation_body = object (
    member "type" (text "send_transaction")
      (member "data" (text "0x6080") (member "chainId" (number 42161) end)))

pub creation_read : from_json serde deps 7 creation_body ≡ ok creation
unfolding from_json opt_parsed str_field read_str read_opt address_text wei_text call_data_text
    checked_send
creation_read = refl

from_json-IsWellFormed_example : (◌≡◌ {A = ℕ} 7 7) × IsWellFormed serde deps creation
from_json-IsWellFormed_example =
    from_json-IsWellFormed serde deps 7 creation_body creation creation_read

expecting_refused_example :
    ((reason : String) × (expecting serde deps creation "0x1" ≡ err reason))
    ↔ ((named : String) × (account serde deps creation ≡ some named) × (named ≢ "0x1"))
expecting_refused_example = expecting_refused serde deps creation "0x1"
