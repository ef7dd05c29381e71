-- ===== src/Cli/Evm/Laws.antt =====
-- crates/browser-web3-signer/src/evm.rs: what `send-transaction` prints, and what it does not check.
use Prim.Native.String.{◌++◌}
use browser_web3_signer.Prelude.{
  ℕ, ◌≡◌, refl, ap, unwrap_or, and_then, ◌∙◌, String, Bool, true, Option, none, some, ◌∷◌, Result,
  ok, err, map_err-ok,
}
use browser_web3_signer.Core.Json.{Serde}
use browser_web3_signer.Core.Bytes.{Hex, TxHash, tx_hash_from_str, to_hex_prefixed}
use browser_web3_signer.Core.Errors.{invalid}
use browser_web3_signer.Core.Types.{Uuid, RequestResult}
use browser_web3_signer.Core.Oneshot.{Oneshot}
use browser_web3_signer.Core.Engine.{Engine, submit}
use browser_web3_signer.Core.Engine.Bind.{Tcp}
use browser_web3_signer.Evm.Deps.{Deps}
use browser_web3_signer.Evm.Domain.{ChainId}
use browser_web3_signer.Evm.Config.{ChainConfig, chain_config}
use browser_web3_signer.Evm.Request.{EvmRequest, SendTransactionParams, check, check_creation}
use browser_web3_signer.Evm.Request
use browser_web3_signer.Evm.Request.Account.{evm_request}
use browser_web3_signer.Evm.Signer.{chain_or_default}
use browser_web3_signer.Evm.Signer
use browser_web3_signer.Cli.{text, Host, Run, emit}
use browser_web3_signer.Cli.Flow.{read_signed, conclude}
use browser_web3_signer.Cli.Flow.Printed.{printed, printed-emit, titled, explorer_line-titled}
use browser_web3_signer.Cli.Flow.Laws.{command_answered, command-engine}
use browser_web3_signer.Cli.Evm.{
  TypedDataFile, EvmCommand, EvmCli, run, run_send_transaction, sent, tx_explorer,
}
use browser_web3_signer.Cli.Evm

module _ {L Routes : Type 0} (serde : Serde) (deps : Deps) (net : Oneshot RequestResult)
    (host : Host serde) (hex : Hex) (show_id : ℕ → String) (tcp : Tcp L)
    (parse_typed_data : String → Result (TypedDataFile serde) String)
    (wait : Engine (EvmRequest serde deps) net Routes → Engine (EvmRequest serde deps) net Routes)
    (elapsed : Bool) (fresh : Uuid) (cli : EvmCli serde deps net Routes) where
  open deps use {Address, bytes_is_empty}

  module _ (to from : Option Address) (value : Option deps.U256) (calldata : Option deps.Bytes)
      (chain : Option ChainId) (gas fee tip : Option deps.U256) where
    abbrev pub chain_id : ChainId
    chain_id = unwrap_or chain cli.signer.default_chain_id

    abbrev pub params : SendTransactionParams serde deps
    params = record {
      to = to;
      from = from;
      value = value;
      calldata = calldata;
      chain_id = some chain_id;
      gas_limit = gas;
      max_fee_per_gas = fee;
      max_priority_fee_per_gas = tip;
    }

    abbrev pub done : Run (Engine (EvmRequest serde deps) net Routes) (Unit {0})
    done =
        run serde deps net host hex show_id tcp parse_typed_data wait elapsed fresh cli
          (Evm.send_transaction to from value calldata chain gas fee tip)

    abbrev pub explorer : TxHash → Option String
    explorer h =
        and_then (and_then (chain_config chain_id) ChainConfig.block_explorer)
          (λ base. host.url (base ++ ("/tx/" ++ to_hex_prefixed hex h.bytes)))

    -- In text mode, a `send-transaction` that succeeds prints the hash that the wallet gave for the transaction of the arguments, and its page in the explorer of the very chain that the request named, if that chain has one, and nothing else.
    pub send_transaction-printed :
        cli.ctx.output ≡ text
        → done.result ≡ some (ok tt)
        → (raw : String) × (h : TxHash) × (submit net
              (evm_request serde deps show_id)
              show_id
              tcp
              wait
              elapsed
              (Request.send_transaction (record { id = fresh }) params)
              cli.signer.engine
            ≡ (some (ok raw), done.engine))
          × (tx_hash_from_str hex raw ≡ ok h)
          × (printed done.events
              ≡ ("Tx hash: " ++ to_hex_prefixed hex h.bytes) ∷ titled "Explorer: " (explorer h))
    unfolding run run_send_transaction sent emit read_signed tx_explorer chain_or_default
    send_transaction-printed mode h =
        let (raw, x, answered, read, shown) =
          command_answered net (evm_request serde deps show_id) show_id tcp cli.ctx.opens wait
            elapsed (Request.send_transaction (record { id = fresh }) params) cli.signer.engine
            (read_signed (tx_hash_from_str hex) "tx hash")
            (sent serde deps net host hex show_id tcp parse_typed_data wait elapsed fresh cli
              chain_id)
            h in
        (
          raw,
          x,
          answered,
          map_err-ok _ (tx_hash_from_str hex raw) read,
          shown
              ∙ printed-emit host cli.ctx.output _ _ mode
              ∙ ap (λ ls. ("Tx hash: " ++ to_hex_prefixed hex x.bytes) ∷ ls)
                  (explorer_line-titled (explorer x)),
        )

  -- A creation without init code, `--data 0x` and no `--to`, is refused by the signer's own `send_transaction`, which leaves the engine alone; the command line submits it to the engine like any other.
  pub creation_unchecked :
      (from : Option Address) (value : Option deps.U256) (empty : deps.Bytes)
      (chain : Option ChainId) (gas fee tip : Option deps.U256)
      → bytes_is_empty empty ≡ true
      → (Signer.send_transaction serde deps net hex show_id tcp wait elapsed fresh cli.signer
            (params none from value (some empty) chain gas fee tip)
          ≡ (
            some (
                err (
                  invalid
                    "a transaction without 'to' deploys a contract from 'data', which is empty")),
            cli.signer.engine,
          ))
        × ((done none from value (some empty) chain gas fee tip).engine
            ≡ (submit net
                (evm_request serde deps show_id)
                show_id
                tcp
                wait
                elapsed
                (Request.send_transaction
                  (record { id = fresh })
                  (params none from value (some empty) chain gas fee tip))
                cli.signer.engine).1)
  unfolding run run_send_transaction Signer.send_transaction Signer.send_checked check
      check_creation conclude chain_or_default
  creation_unchecked from value empty chain gas fee tip h = (
    rw h refl,
    command-engine net (evm_request serde deps show_id) show_id tcp cli.ctx.opens wait elapsed
        (Request.send_transaction (record { id = fresh })
          (params none from value (some empty) chain gas fee tip))
        cli.signer.engine (read_signed (tx_hash_from_str hex) "tx hash")
        (sent serde deps net host hex show_id tcp parse_typed_data wait elapsed fresh cli
          (chain_id none from value (some empty) chain gas fee tip)),
  )
