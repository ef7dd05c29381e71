-- ===== src/Cli/Tron.antt =====
-- crates/browser-web3-signer/src/tron.rs: the TRON subcommands. A command takes the fresh id of its
-- request.
mod Command
pub use Command.*
pub mod Laws
pub mod Silent
use Prim.Native.String.{◌++◌}
use browser_web3_signer.Prelude.{
  ℕ, String, Bool, Option, none, some, List, [], ◌∷◌, Result, ok, err, ◌>>=◌, map_err, and_then,
  unwrap_or,
}
use browser_web3_signer.Core.Json.{Serde}
use browser_web3_signer.Core.Bytes.{
  Hex, HexData, TxHash, Signature, tx_hash_from_str, signature_from_str, to_hex, to_hex_prefixed,
}
use browser_web3_signer.Core.Config.{Var, preferred}
use browser_web3_signer.Core.Types.{Uuid, RequestMeta, RequestResult}
use browser_web3_signer.Core.Oneshot.{Oneshot}
use browser_web3_signer.Core.Engine.{Engine}
use browser_web3_signer.Core.Engine.Bind.{Tcp}
use browser_web3_signer.Tron.Domain.{
  Base58, TronNetwork, TronAddress, address_from_str, to_base58, Sun, EnergyLimit, Percentage,
  shown,
}
use browser_web3_signer.Tron.Config.{NetworkConfig, port, default_network, network_config}
use browser_web3_signer.Tron.Request.{
  TronRequest, TypedData, SendTransactionParams, TriggerContractParams, DeployContractParams,
}
use browser_web3_signer.Tron.Request
use browser_web3_signer.Tron.Account.{tron_request}
use browser_web3_signer.Tron.Signer.{
  TronSigner, DeployResult, network_or_default, parse_deploy_result,
}
use browser_web3_signer.Tron.Signer
use browser_web3_signer.Cli.{
  CliContext, CliError, signer, context, Event, Host, emit, optional, explorer_line, Run,
  browser_choice,
}
use browser_web3_signer.Cli.Flow.{failed, read_signed, conclude, approve}

module _ (serde : Serde) (net : Oneshot RequestResult) (Routes : Type 0) where
  pub record TronCli : Type 0 where
    pub signer : TronSigner serde net Routes
    pub ctx : CliContext

-- The signer is made from the environment: `debug` is the `{:?}` of a text.
module _ {Routes : Type 0} (serde : Serde) (net : Oneshot RequestResult) where
  unfoldable pub new :
      (String → String)
      → (web_ui : String) → (port_var network_var : Var) → CliContext
      → TronCli serde net Routes
  unfolding default_network browser_choice
  new debug web_ui port_var network_var ctx = record {
    signer =
        Signer.new serde net web_ui (preferred (port debug port_var)) (default_network network_var)
          (browser_choice ctx.opens);
    ctx = ctx;
  }

  module _ {L : Type 0} (host : Host serde) (hex : Hex) (base58 : Base58) (show_id : ℕ → String)
      (tcp : Tcp L) (parse_typed_data : String → Result (TypedDataFile serde) String)
      (wait : Engine (TronRequest serde) net Routes → Engine (TronRequest serde) net Routes)
      (elapsed : Bool) (fresh : Uuid) (cli : TronCli serde net Routes) where
    open serde use {Value, null, string, object, empty, insert, from_str}

    abbrev pub Done : Type 0
    Done = Run (Engine (TronRequest serde) net Routes) (Unit {0})

    abbrev pub meta : RequestMeta
    meta = record { id = fresh }

    abbrev pub on : Option TronNetwork → TronNetwork
    on n = network_or_default serde net cli.signer n

    -- The approval of a request, its answer read and shown.
    abbrev pub answered :
        {T : Type 0} → TronRequest serde → (String → Result T CliError) → (T → List Event) → Done
    answered r read shows = conclude read shows (
        approve net (tron_request serde base58 hex show_id) show_id tcp cli.ctx.opens wait elapsed r
          cli.signer.engine)

    unfoldable pub connected : TronAddress → List Event
    unfolding emit
    connected a =
        emit host cli.ctx.output (("Connected: " ++ to_base58 base58 a) ∷ [])
          (object (insert "address" (string (to_base58 base58 a)) empty))

    unfoldable pub run_connect : Option TronNetwork → Option TronAddress → Done
    unfolding connected
    run_connect n a =
        answered (Request.connect meta (some (on n)) a)
          (read_signed (shown (address_from_str base58)) "tron address") connected

    unfoldable pub tx_explorer : TronNetwork → TxHash → Option String
    unfolding network_config
    tx_explorer n h =
        and_then (network_config n)
          (λ c. host.url (c.block_explorer ++ ("/#/transaction/" ++ to_hex hex h)))

    unfoldable pub emit_tx : TronNetwork → TxHash → List Event
    unfolding emit tx_explorer optional explorer_line
    emit_tx n h =
        emit host cli.ctx.output (("Tx hash: " ++ to_hex hex h) ∷ explorer_line (tx_explorer n h)) (
          object (
            insert "explorer" (optional host (tx_explorer n h))
              (insert "txHash" (string (to_hex hex h)) empty)))

    unfoldable pub run_send_transaction : SendTransactionParams serde → Done
    unfolding emit_tx
    run_send_transaction p =
        answered (Request.send_transaction meta p) (read_signed (tx_hash_from_str hex) "tx hash")
          (emit_tx (on p.network))

    unfoldable pub run_trigger_contract : TriggerContractParams serde → Done
    unfolding emit_tx
    run_trigger_contract p =
        answered (Request.trigger_contract meta p) (read_signed (tx_hash_from_str hex) "tx hash")
          (emit_tx (on p.network))

    unfoldable pub deployed : TronNetwork → DeployResult → List Event
    unfolding emit tx_explorer optional explorer_line
    deployed n d =
        emit host cli.ctx.output
          (("Tx hash:  " ++ to_hex hex d.tx_hash)
            ∷ ("Contract: " ++ to_base58 base58 d.contract_address)
            ∷ explorer_line (tx_explorer n d.tx_hash))
          (object (
            insert "explorer" (optional host (tx_explorer n d.tx_hash)) (
              insert "contractAddress" (string (to_base58 base58 d.contract_address))
                (insert "txHash" (string (to_hex hex d.tx_hash)) empty))))

    unfoldable pub read_abi : String → Result Value CliError
    read_abi file = do
      contents ← map_err (context ("reading ABI file " ++ file)) (host.read_file file)
      map_err (context "parsing ABI JSON") (from_str contents)

    -- `deploy_contract`, on the ABI that was read.
    unfoldable pub deploy_read : DeployContractParams serde → Result Value CliError → Done
    unfolding deployed parse_deploy_result
    deploy_read p (err x) = failed cli.signer.engine x
    deploy_read p (ok abi) =
        answered (Request.deploy_contract meta (record p { abi = abi }))
          (λ raw. map_err signer (parse_deploy_result serde hex base58 raw))
          (deployed (on p.network))

    unfoldable pub run_deploy_contract : String → DeployContractParams serde → Done
    unfolding deploy_read read_abi
    run_deploy_contract file p = deploy_read p (read_abi file)

    unfoldable pub signed : Signature → List Event
    unfolding emit
    signed s =
        emit host cli.ctx.output (("Signature: " ++ to_hex_prefixed hex s.bytes) ∷ [])
          (object (insert "signature" (string (to_hex_prefixed hex s.bytes)) empty))

    unfoldable pub sign : TronRequest serde → Done
    unfolding signed
    sign r = answered r (read_signed (signature_from_str hex) "signature") signed

    unfoldable pub read_typed_data : String → Result (TypedData serde) CliError
    read_typed_data file = do
      contents ← map_err (context ("reading typed-data file " ++ file)) (host.read_file file)
      t ← map_err (context "parsing typed-data JSON") (parse_typed_data contents)
      ok (record {
        domain = t.domain;
        types = t.types;
        primary_type = t.primary_type;
        message = t.message;
      })

    unfoldable pub sign_typed :
        Option TronAddress → Option TronNetwork → Result (TypedData serde) CliError → Done
    unfolding sign
    sign_typed a n (err x) = failed cli.signer.engine x
    sign_typed a n (ok t) = sign (Request.sign_typed_data meta (some (on n)) t a)

    unfoldable pub run : TronCommand serde → Done
    unfolding run_connect run_send_transaction run_trigger_contract run_deploy_contract sign
        sign_typed read_typed_data
    run (connect n a) = run_connect n a
    run (send_transaction to from amount memo n) =
        run_send_transaction
          (record { to = to; from = from; amount = amount; memo = memo; network = n })
    run (trigger_contract c from selector parameters limit value n) = run_trigger_contract (record {
      contract_address = c;
      from = from;
      function_selector = selector;
      parameters = parameters;
      fee_limit = limit;
      call_value = value;
      network = n;
    })
    run (deploy_contract file bytecode name parameters from limit value energy percentage n) =
        run_deploy_contract file (record {
          abi = null;
          bytecode = bytecode;
          contract_name = name;
          parameters = parameters;
          from = from;
          fee_limit = limit;
          call_value = value;
          origin_energy_limit = energy;
          user_fee_percentage = percentage;
          network = n;
        })
    run (sign_message m a n) = sign (Request.sign_message meta (some (on n)) m a)
    run (sign_typed_data file a n) = sign_typed a n (read_typed_data file)
