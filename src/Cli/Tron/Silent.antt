-- ===== src/Cli/Tron/Silent.antt =====
-- crates/browser-web3-signer/src/tron.rs: a command that has not succeeded.
use browser_web3_signer.Prelude.{
  ℕ, ◌≡◌, ◌≢◌, refl, String, Bool, Option, some, List, [], Result, ok, err,
}
use browser_web3_signer.Core.Json.{Serde}
use browser_web3_signer.Core.Bytes.{Hex}
use browser_web3_signer.Core.Types.{Uuid, RequestResult}
use browser_web3_signer.Core.Oneshot.{Oneshot}
use browser_web3_signer.Core.Engine.{Engine}
use browser_web3_signer.Core.Engine.Bind.{Tcp}
use browser_web3_signer.Tron.Domain.{Base58, TronNetwork, TronAddress}
use browser_web3_signer.Tron.Request.{TronRequest, TypedData, DeployContractParams}
use browser_web3_signer.Tron.Account.{tron_request}
use browser_web3_signer.Cli.{Host, Event, CliError}
use browser_web3_signer.Cli.Flow.Printed.{printed}
use browser_web3_signer.Cli.Flow.Laws.{command_silent}
use browser_web3_signer.Cli.Tron.{
  TypedDataFile, TronCommand, TronCli, run, run_connect, run_send_transaction, run_trigger_contract,
  run_deploy_contract, deploy_read, sign, sign_typed, connect, send_transaction, trigger_contract,
  deploy_contract, sign_message, sign_typed_data, Done, answered,
}

module _ {L Routes : Type 0} (serde : Serde) (net : Oneshot RequestResult) (host : Host serde)
    (hex : Hex) (base58 : Base58) (show_id : ℕ → String) (tcp : Tcp L)
    (parse_typed_data : String → Result (TypedDataFile serde) String)
    (wait : Engine (TronRequest serde) net Routes → Engine (TronRequest serde) net Routes)
    (elapsed : Bool) (fresh : Uuid) (cli : TronCli serde net Routes) where
  abbrev IsSilent :
      Done serde net host hex base58 show_id tcp parse_typed_data wait elapsed fresh cli → Type 0
  IsSilent d = d.result ≢ some (ok tt) → printed d.events ≡ []

  answered-IsSilent :
      {T : Type 0} (r : TronRequest serde) (read : String → Result T CliError)
      (shown : T → List Event)
      → IsSilent (
          answered serde net host hex base58 show_id tcp parse_typed_data wait elapsed fresh cli r
            read shown)
  answered-IsSilent r read shown h =
      command_silent net (tron_request serde base58 hex show_id) show_id tcp cli.ctx.opens wait
        elapsed r cli.signer.engine read shown h

  deploy_read-IsSilent :
      (p : DeployContractParams serde) (abi : Result serde.Value CliError)
      → IsSilent (
          deploy_read serde net host hex base58 show_id tcp parse_typed_data wait elapsed fresh cli
            p abi)
  unfolding deploy_read printed
  deploy_read-IsSilent p (err x) h = refl
  deploy_read-IsSilent p (ok abi) h = answered-IsSilent _ _ _ h

  sign_typed-IsSilent :
      (a : Option TronAddress) (n : Option TronNetwork) (t : Result (TypedData serde) CliError)
      → IsSilent (
          sign_typed serde net host hex base58 show_id tcp parse_typed_data wait elapsed fresh cli a
            n t)
  unfolding sign_typed sign printed
  sign_typed-IsSilent a n (err x) h = refl
  sign_typed-IsSilent a n (ok t) h = answered-IsSilent _ _ _ h

  -- A TRON command that has not succeeded, because it waits, is refused or fails, has printed nothing to stdout, so a program that reads the output finds only results that a wallet gave.
  pub tron_run_silent :
      (cmd : TronCommand serde)
      → (run serde net host hex base58 show_id tcp parse_typed_data wait elapsed fresh cli
          cmd).result
        ≢ some (ok tt)
      → printed
          (run serde net host hex base58 show_id tcp parse_typed_data wait elapsed fresh cli
            cmd).events
        ≡ []
  unfolding run run_connect run_send_transaction run_trigger_contract run_deploy_contract sign
  tron_run_silent (connect n a) h = answered-IsSilent _ _ _ h
  tron_run_silent (send_transaction to from amount memo n) h = answered-IsSilent _ _ _ h
  tron_run_silent (trigger_contract c from selector parameters limit value n) h =
      answered-IsSilent _ _ _ h
  tron_run_silent (deploy_contract file bytecode name ps from limit value energy percentage n) h =
      deploy_read-IsSilent
        (record {
          abi = serde.null;
          bytecode = bytecode;
          contract_name = name;
          parameters = ps;
          from = from;
          fee_limit = limit;
          call_value = value;
          origin_energy_limit = energy;
          user_fee_percentage = percentage;
          network = n;
        })
        _ h
  tron_run_silent (sign_message m a n) h = answered-IsSilent _ _ _ h
  tron_run_silent (sign_typed_data file a n) h = sign_typed-IsSilent a n _ h
