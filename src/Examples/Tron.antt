-- ===== src/Examples/Tron.antt =====
-- TRON requests: a deployment with its limits, and an account that it is made to expect.
use browser_web3_signer.Prelude.{◌≡◌, refl, none, some, [], ◌∷◌, ok, arith}
use browser_web3_signer.Tron.Address.{IsTron}
use browser_web3_signer.Tron.Domain.{
  TronAddress, nile, starts_0x41, same_bytes, energy_limit_from_str, percentage_from_str,
}
use browser_web3_signer.Prelude.Decimal.{parse_unsigned}
use browser_web3_signer.Core.Parse.{str_field, read_str, opt_parsed, read_opt, req_parsed, read_req}
use browser_web3_signer.Core.Bytes.{hex_data_from_str}
use browser_web3_signer.Tron.Request.{TronRequest, DeployContractParams, deploy_contract, meta}
use browser_web3_signer.Tron.Wire.{from_json, to_value}
use browser_web3_signer.Tron.Wire.RoundTrip.{IsSound, tron_read_back}
use browser_web3_signer.Tron.Wire.Sound.{IsLimited, tron_from_json-IsSound}
use browser_web3_signer.Tron.Account.{account, with_account, expecting, tron_expecting_sound}
use browser_web3_signer.Examples.Json.{Json, serde, array, nil, object, member, end, text}
use browser_web3_signer.Examples.Bytes.{hex, base58}
use browser_web3_signer.Examples.Parts.{show_id}

abbrev pub owner : TronAddress
owner = record {
  bytes = 65 ∷ 0 ∷ 0 ∷ 0 ∷ 0 ∷ 0 ∷ 0 ∷ 0 ∷ 0 ∷ 0 ∷ 0 ∷ 0 ∷ 0 ∷ 0 ∷ 0 ∷ 0 ∷ 0 ∷ 0 ∷ 0 ∷ 0 ∷ 7 ∷ [];
}

pub owner-IsTron : IsTron owner
unfolding starts_0x41
owner-IsTron = record { long = refl; marked = (_, refl) }

abbrev pub params : DeployContractParams serde
params = record {
  abi = array nil;
  bytecode = record { bytes = 96 ∷ [] };
  contract_name = none;
  parameters = none;
  from = some owner;
  fee_limit = some 1000000;
  call_value = none;
  origin_energy_limit = some 10000000;
  user_fee_percentage = some (record { get = 30 });
  network = some nile;
}

abbrev pub deployment : TronRequest serde
deployment = deploy_contract (record { id = 7 }) params

tron_read_back_example :
    from_json serde hex base58 9 (to_value serde hex base58 show_id deployment)
    ≡ ok (
        deploy_contract
          (record { id = 9 })
          (record params { origin_energy_limit = none; user_fee_percentage = none }))
tron_read_back_example =
    tron_read_back serde hex base58 show_id 9 deployment (owner-IsTron, omega arith, tt)

tron_expecting_sound_example :
    (account serde base58 deployment ≡ some owner)
    × (deployment ≡ with_account serde base58 (some owner) deployment)
unfolding expecting same_bytes
tron_expecting_sound_example = tron_expecting_sound serde base58 deployment deployment owner refl

-- The body of a deployment with limits, as the control API takes it.
abbrev deployment_body : Json
deployment_body = object (
    member "type" (text "deploy_contract") (
      member "abi" (array nil) (
        member "bytecode" (text "0x1;")
          (member "originEnergyLimit" (text "5") (member "userFeePercentage" (text "30") end)))))

abbrev deployed : TronRequest serde
deployed =
    deploy_contract (record { id = 7 })
      (record params {
        bytecode = record { bytes = 1 ∷ [] };
        from = none;
        fee_limit = none;
        origin_energy_limit = some 5;
        network = none;
      })

tron_from_json-IsSound_example :
    ((meta serde deployed).id ≡ 7)
    × IsSound serde hex base58 deployed
    × IsLimited serde hex base58 deployed
unfolding from_json str_field read_str opt_parsed read_opt req_parsed read_req hex_data_from_str
    energy_limit_from_str parse_unsigned percentage_from_str
tron_from_json-IsSound_example =
    tron_from_json-IsSound serde hex base58 7 deployment_body deployed refl
