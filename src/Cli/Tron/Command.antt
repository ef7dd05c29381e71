-- ===== src/Cli/Tron/Command.antt =====
-- crates/browser-web3-signer/src/tron.rs: the arguments of the TRON subcommands.
use browser_web3_signer.Prelude.{String, Option}
use browser_web3_signer.Core.Json.{Serde}
use browser_web3_signer.Core.Bytes.{HexData}
use browser_web3_signer.Tron.Domain.{TronNetwork, TronAddress, Sun, EnergyLimit, Percentage}

module _ (serde : Serde) where
  open serde use {Value}

  pub record TypedDataFile : Type 0 where
    pub domain : Value
    pub types : Value
    pub primary_type : String
    pub message : Value

  pub data TronCommand : Type 0 where
    connect : (network : Option TronNetwork) (address : Option TronAddress) → TronCommand
    send_transaction :
        (to : TronAddress)
        → (from : Option TronAddress) → (amount : Sun)
        → (memo : Option HexData) (network : Option TronNetwork) → TronCommand
    trigger_contract :
        (contract : TronAddress)
        → (from : Option TronAddress) → (selector : String) → (parameters : Option Value)
        → (fee_limit call_value : Option Sun) → (network : Option TronNetwork) → TronCommand
    deploy_contract :
        (abi_file : String)
        → (bytecode : HexData) → (name : Option String) → (parameters : Option Value)
        → (from : Option TronAddress) → (fee_limit call_value : Option Sun)
        → (origin_energy_limit : Option EnergyLimit) → (user_fee_percentage : Option Percentage)
        → (network : Option TronNetwork) → TronCommand
    sign_message :
        (message : String)
        → (address : Option TronAddress) → (network : Option TronNetwork) → TronCommand
    sign_typed_data :
        (file : String)
        → (address : Option TronAddress) → (network : Option TronNetwork) → TronCommand
