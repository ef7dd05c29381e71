-- ===== src/Examples/Commands.antt =====
-- EVM and TRON commands at a terminal.
use Prim.Native.String.{◌++◌}
use browser_web3_signer.Prelude.{ℕ, ◌≡◌, refl, String, false, none, some, [], ◌∷◌, Result, ok, err}
use browser_web3_signer.Core.Bytes.{TxHash, tx_hash_from_str, to_hex, to_hex_prefixed}
use browser_web3_signer.Core.Errors.{invalid}
use browser_web3_signer.Core.Types.{success}
use browser_web3_signer.Core.Store.{complete, create}
use browser_web3_signer.Core.Store
use browser_web3_signer.Core.Engine.{Engine, submit, ServerState}
use browser_web3_signer.Core.Engine
use browser_web3_signer.Prelude.Dict.{lookup, insert}
use browser_web3_signer.Evm.Request.{EvmRequest, SendTransactionParams}
use browser_web3_signer.Evm.Request as EvmRequests
use browser_web3_signer.Evm.Request.Account.{evm_request}
use browser_web3_signer.Evm.Signer as EvmSigning
use browser_web3_signer.Tron.Request.{TronRequest}
use browser_web3_signer.Tron.Request as TronRequests
use browser_web3_signer.Tron.Account.{tron_request}
use browser_web3_signer.Cli.{CliContext, Host, text, default, print_only, explorer_line, Run}
use browser_web3_signer.Cli.Flow.{conclude, approve as approval, read_signed}
use browser_web3_signer.Prelude.Lists.{find}
use browser_web3_signer.Evm.Signer.{chain_or_default}
use browser_web3_signer.Cli.Flow.Printed.{printed, opened_urls, pages}
use browser_web3_signer.Cli.Flow.Laws.{approve_opens}
use browser_web3_signer.Core.Browser
use browser_web3_signer.Cli.Evm.{TypedDataFile, EvmCli, EvmCommand}
use browser_web3_signer.Cli.Evm as EvmCommands
use browser_web3_signer.Cli.Evm.Laws.{send_transaction-printed, creation_unchecked}
use browser_web3_signer.Cli.Tron.{TronCli}
use browser_web3_signer.Cli.Tron as TronCommands
use browser_web3_signer.Cli.Tron.Laws.{send_transaction-page}
use browser_web3_signer.Examples.Json.{serde, hash_text}
use browser_web3_signer.Examples.Bytes.{hex, base58}
use browser_web3_signer.Examples.Parts.{net, tcp, deps, show_id}
use browser_web3_signer.Examples.Tron.{owner}
use browser_web3_signer.Examples.Signers.{evm_signer, evm_answers, tron_signer}

abbrev pub ctx : CliContext
ctx = record { output = text; opens = print_only }

-- No file can be read, and every URL parses.
abbrev pub host : Host serde
host = record { pretty = λ v. none; read_file = λ p. err "no such file"; url = λ s. some s }

abbrev no_typed_data : {T : Type 0} → String → Result T String
no_typed_data s = err "expected value"

abbrev evm_cli : EvmCli serde deps net ℕ
evm_cli = record { signer = evm_signer; ctx = ctx }

abbrev evm_command : EvmCommand serde deps
evm_command = EvmCommands.send_transaction (some "0xa") none (some "1") none none none none none

abbrev evm_run : Run (Engine (EvmRequest serde deps) net ℕ) (Unit {0})
evm_run =
    EvmCommands.run serde deps net host hex show_id tcp no_typed_data evm_answers false 7 evm_cli
      evm_command

abbrev sent_params : SendTransactionParams serde deps
sent_params = record {
  to = some "0xa";
  from = none;
  value = some "1";
  calldata = none;
  chain_id = some 1;
  gas_limit = none;
  max_fee_per_gas = none;
  max_priority_fee_per_gas = none;
}

send_transaction-printed_example :
    (raw : String) × (h : TxHash) × (submit net
        (evm_request serde deps show_id)
        show_id
        tcp
        evm_answers
        false
        (EvmRequests.send_transaction (record { id = 7 }) sent_params)
        evm_signer.engine
      ≡ (some (ok raw), evm_run.engine))
    × (tx_hash_from_str hex raw ≡ ok h)
    × (printed evm_run.events
        ≡ ("Tx hash: " ++ to_hex_prefixed hex h.bytes)
          ∷ ("Explorer: " ++ ("https://etherscan.io" ++ ("/tx/" ++ to_hex_prefixed hex h.bytes)))
          ∷ [])
unfolding submit EvmCommands.run conclude approval Engine.new complete lookup create insert
    Store.new read_signed tx_hash_from_str chain_or_default explorer_line find
send_transaction-printed_example =
    send_transaction-printed serde deps net host hex show_id tcp no_typed_data evm_answers false 7
      evm_cli (some "0xa") none (some "1") none none none none none refl refl

creation_unchecked_example :
    (EvmSigning.send_transaction serde deps net hex show_id tcp evm_answers false 7 evm_signer
        (record sent_params { to = none; value = none; calldata = some "0x" })
      ≡ (
        some (
            err (
              invalid "a transaction without 'to' deploys a contract from 'data', which is empty")),
        evm_signer.engine,
      ))
    × ((EvmCommands.run serde deps net host hex show_id tcp no_typed_data evm_answers false 7
          evm_cli
          (EvmCommands.send_transaction none none none (some "0x") none none none none)).engine
        ≡ (submit net
            (evm_request serde deps show_id)
            show_id
            tcp
            evm_answers
            false
            (EvmRequests.send_transaction
              (record { id = 7 })
              (record sent_params { to = none; value = none; calldata = some "0x" }))
            evm_signer.engine).1)
unfolding chain_or_default
creation_unchecked_example =
    creation_unchecked serde deps net host hex show_id tcp no_typed_data evm_answers false 7 evm_cli
      none none "0x" none none none none refl

abbrev tron_answers : Engine (TronRequest serde) net ℕ → Engine (TronRequest serde) net ℕ
tron_answers e = record e { store = (complete net 7 (success hash_text) e.store).1 }

abbrev tron_cli : TronCli serde net ℕ
tron_cli = record { signer = tron_signer; ctx = ctx }

abbrev tron_run : Run (Engine (TronRequest serde) net ℕ) (Unit {0})
tron_run =
    TronCommands.run serde net host hex base58 show_id tcp no_typed_data tron_answers false 7
      tron_cli (TronCommands.send_transaction owner none 5 none none)

send_transaction-page_example :
    (raw : String) × (h : TxHash) × (submit net
        (tron_request serde base58 hex show_id)
        show_id
        tcp
        tron_answers
        false
        (TronRequests.send_transaction
          (record { id = 7 })
          (record { to = owner; from = none; amount = 5; memo = none; network = none }))
        tron_signer.engine
      ≡ (some (ok raw), tron_run.engine))
    × (tx_hash_from_str hex raw ≡ ok h)
    × (printed tron_run.events
        ≡ ("Tx hash: " ++ to_hex hex h)
          ∷ ("Explorer: " ++ ("https://tronscan.org" ++ ("/#/transaction/" ++ to_hex hex h)))
          ∷ [])
unfolding submit TronCommands.run conclude approval Engine.new complete lookup create insert
    Store.new read_signed tx_hash_from_str find
send_transaction-page_example =
    send_transaction-page serde net host hex base58 show_id tcp no_typed_data tron_answers false 7
      tron_cli owner none 5 none none refl refl

approve_opens_example :
    opened_urls
      (approval net
        (evm_request serde deps show_id)
        show_id
        tcp
        default
        evm_answers
        false
        (EvmRequests.send_transaction (record { id = 7 }) sent_params)
        (record (evm_signer.engine) { browser = Browser.default })).events
    ≡ "http://127.0.0.1:50000/sign/id" ∷ []
unfolding pages Engine.prepare Engine.new Browser.build_url EvmRequests.url_kind
approve_opens_example =
    approve_opens net (evm_request serde deps show_id) show_id tcp default evm_answers false
      (EvmRequests.send_transaction (record { id = 7 }) sent_params)
      (record (evm_signer.engine) { browser = Browser.default })
