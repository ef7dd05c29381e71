-- ===== src/Tron/Request.antt =====
-- tron/src/types.rs: the requests. A variant's fields that its builder takes are the builder's
-- parameters.
use browser_web3_signer.Prelude.{String, Option}
use browser_web3_signer.Core.Json.{Serde}
use browser_web3_signer.Core.Bytes.{HexData}
use browser_web3_signer.Core.Browser.{UrlKind}
use browser_web3_signer.Core.Types.{RequestMeta}
use browser_web3_signer.Tron.Domain.{TronNetwork, TronAddress, Sun, EnergyLimit, Percentage}

module _ (json : Serde) where
  open json use {Value}

  pub record TypedData : Type 0 where
    pub domain : Value
    pub types : Value
    pub primary_type : String
    pub message : Value

  pub record SendTransactionParams : Type 0 where
    pub to : TronAddress
    pub from : Option TronAddress
    pub amount : Sun
    pub memo : Option HexData
    pub network : Option TronNetwork

  pub record TriggerContractParams : Type 0 where
    pub contract_address : TronAddress
    pub from : Option TronAddress
    pub function_selector : String
    pub parameters : Option Value
    pub fee_limit : Option Sun
    pub call_value : Option Sun
    pub network : Option TronNetwork

  pub record DeployContractParams : Type 0 where
    pub abi : Value
    pub bytecode : HexData
    pub contract_name : Option String
    pub parameters : Option Value
    pub from : Option TronAddress
    pub fee_limit : Option Sun
    pub call_value : Option Sun
    pub origin_energy_limit : Option EnergyLimit
    pub user_fee_percentage : Option Percentage
    pub network : Option TronNetwork

  pub data TronRequest : Type 0 where
    connect :
        RequestMeta → (network : Option TronNetwork) → (address : Option TronAddress) → TronRequest
    send_transaction : RequestMeta → SendTransactionParams → TronRequest
    trigger_contract : RequestMeta → TriggerContractParams → TronRequest
    deploy_contract : RequestMeta → DeployContractParams → TronRequest
    sign_message :
        RequestMeta
        → (network : Option TronNetwork) → (message : String) → (address : Option TronAddress)
        → TronRequest
    sign_typed_data :
        RequestMeta
        → (network : Option TronNetwork) → TypedData
        → (address : Option TronAddress) → TronRequest

  abbrev pub meta : TronRequest → RequestMeta
  meta (connect m _ _) = m
  meta (send_transaction m _) = m
  meta (trigger_contract m _) = m
  meta (deploy_contract m _) = m
  meta (sign_message m _ _ _) = m
  meta (sign_typed_data m _ _ _) = m

  unfoldable pub url_kind : TronRequest → UrlKind
  url_kind (connect _ _ _) = UrlKind.connect
  url_kind _ = UrlKind.sign
