-- ===== src/Examples/Signers.antt =====
-- An `EvmSigner` whose wallet answers with a hash, and a `TronSigner` whose wallet deploys.
use browser_web3_signer.Prelude.{ℕ, ◌≡◌, refl, String, false, none, some, [], ◌∷◌, ok}
use browser_web3_signer.Prelude.Dict.{lookup, insert}
use browser_web3_signer.Core.Bytes.{TxHash, tx_hash_from_str}
use browser_web3_signer.Core.Config.{ephemeral}
use browser_web3_signer.Core.Browser.{print}
use browser_web3_signer.Core.Types.{success}
use browser_web3_signer.Core.Store.{complete, create}
use browser_web3_signer.Core.Store
use browser_web3_signer.Core.Engine.{Engine, submit}
use browser_web3_signer.Core.Engine
use browser_web3_signer.Core.Engine.Ask.{ask}
use browser_web3_signer.Evm.Request.{EvmRequest, SendTransactionParams, check}
use browser_web3_signer.Evm.Request.Account.{evm_request}
use browser_web3_signer.Evm.Signer.{EvmSigner}
use browser_web3_signer.Evm.Signer as EvmSigning
use browser_web3_signer.Evm.Request.WellFormed.{IsSendable}
use browser_web3_signer.Evm.Signer.Laws.{transaction, send_transaction_sent}
use browser_web3_signer.Tron.Address.{IsTron}
use browser_web3_signer.Tron.Domain.{mainnet, address_from_str}
use browser_web3_signer.Tron.Request.{TronRequest}
use browser_web3_signer.Tron.Request as TronRequests
use browser_web3_signer.Tron.Account.{tron_request}
use browser_web3_signer.Tron.Signer.{TronSigner, DeployResult, parse_deploy_result}
use browser_web3_signer.Tron.Signer as TronSigning
use browser_web3_signer.Tron.Signer.Laws.{deploy_contract_done}
use browser_web3_signer.Examples.Json.{serde, hash_text, deploy_text}
use browser_web3_signer.Examples.Bytes.{hex, base58}
use browser_web3_signer.Examples.Parts.{net, tcp, deps, show_id}
use browser_web3_signer.Examples.Tron.{owner, params}

abbrev pub evm_signer : EvmSigner serde deps net ℕ
evm_signer = record { engine = Engine.new net "html" ephemeral print; default_chain_id = 1 }

-- While the call waits, the browser posts the hash.
abbrev pub evm_answers : Engine (EvmRequest serde deps) net ℕ → Engine (EvmRequest serde deps) net ℕ
evm_answers e = record e { store = (complete net 7 (success hash_text) e.store).1 }

abbrev pub transfer : SendTransactionParams serde deps
transfer = record {
  to = some "0xa";
  from = none;
  value = some "1";
  calldata = none;
  chain_id = none;
  gas_limit = none;
  max_fee_per_gas = none;
  max_priority_fee_per_gas = none;
}

abbrev pub zeros : TxHash
zeros = record {
  bytes =
      0 ∷ 0 ∷ 0 ∷ 0 ∷ 0 ∷ 0 ∷ 0 ∷ 0 ∷ 0 ∷ 0 ∷ 0 ∷ 0 ∷ 0 ∷ 0 ∷ 0 ∷ 0 ∷ 0 ∷ 0 ∷ 0 ∷ 0 ∷ 0 ∷ 0 ∷ 0 ∷ 0
      ∷ 0 ∷ 0 ∷ 0 ∷ 0 ∷ 0 ∷ 0 ∷ 0 ∷ 0 ∷ [];
}

abbrev evm_done : Engine (EvmRequest serde deps) net ℕ
evm_done =
    (EvmSigning.send_transaction serde deps net hex show_id tcp evm_answers false 7 evm_signer
      transfer).1

send_transaction_sent_example :
    IsSendable serde deps transfer.to transfer.calldata
    × (◌≡◌ {A = ℕ} 32 32)
    × ((raw : String) × (submit net
            (evm_request serde deps show_id)
            show_id
            tcp
            evm_answers
            false
            (transaction serde deps net hex show_id tcp evm_answers false 7 evm_signer transfer)
            evm_signer.engine
          ≡ (some (ok raw), evm_done))
        × (tx_hash_from_str hex raw ≡ ok zeros))
unfolding submit EvmSigning.send_transaction check ask Engine.new complete lookup create insert
    Store.new EvmSigning.parse_signed tx_hash_from_str
send_transaction_sent_example =
    send_transaction_sent serde deps net hex show_id tcp evm_answers false 7 evm_signer transfer
      zeros evm_done refl

abbrev pub tron_signer : TronSigner serde net ℕ
tron_signer = record { engine = Engine.new net "html" ephemeral print; default_network = mainnet }

abbrev tron_answers : Engine (TronRequest serde) net ℕ → Engine (TronRequest serde) net ℕ
tron_answers e = record e { store = (complete net 7 (success deploy_text) e.store).1 }

abbrev tron_done : Engine (TronRequest serde) net ℕ
tron_done =
    (TronSigning.deploy_contract serde net hex base58 show_id tcp tron_answers false 7 tron_signer
      params).1

abbrev contract : DeployResult
contract = record { tx_hash = zeros; contract_address = owner }

deploy_contract_done_example :
    ((raw : String) × (submit net
          (tron_request serde base58 hex show_id)
          show_id
          tcp
          tron_answers
          false
          (TronRequests.deploy_contract (record { id = 7 }) params)
          tron_signer.engine
        ≡ (some (ok raw), tron_done))
      × (parse_deploy_result serde hex base58 raw ≡ ok contract))
    × (◌≡◌ {A = ℕ} 32 32)
    × IsTron owner
unfolding submit TronSigning.deploy_contract ask Engine.new complete lookup create insert Store.new
    tx_hash_from_str address_from_str
deploy_contract_done_example =
    deploy_contract_done serde net hex base58 show_id tcp tron_answers false 7 tron_signer params
      contract tron_done refl
