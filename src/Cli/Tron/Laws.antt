-- ===== src/Cli/Tron/Laws.antt =====
-- crates/browser-web3-signer/src/tron.rs: what a transfer prints, and of which network.
use Prim.Native.String.{◌++◌}
use browser_web3_signer.Prelude.{
  ℕ, ◌≡◌, ap, and_then, ◌∙◌, String, Bool, Option, some, ◌∷◌, Result, ok, map_err-ok, unwrap_or,
}
use browser_web3_signer.Core.Json.{Serde}
use browser_web3_signer.Core.Bytes.{Hex, HexData, TxHash, tx_hash_from_str, to_hex}
use browser_web3_signer.Core.Types.{Uuid, RequestResult}
use browser_web3_signer.Core.Oneshot.{Oneshot}
use browser_web3_signer.Core.Engine.{Engine, submit}
use browser_web3_signer.Core.Engine.Bind.{Tcp}
use browser_web3_signer.Tron.Domain.{Base58, TronNetwork, TronAddress, Sun}
use browser_web3_signer.Tron.Config.{network_config}
use browser_web3_signer.Tron.Request.{TronRequest, SendTransactionParams}
use browser_web3_signer.Tron.Request
use browser_web3_signer.Tron.Account.{tron_request}
use browser_web3_signer.Tron.Signer.{network_or_default}
use browser_web3_signer.Cli.{text, Host, Run}
use browser_web3_signer.Cli.Flow.{read_signed}
use browser_web3_signer.Cli.Flow.Printed.{printed, printed-emit, titled, explorer_line-titled}
use browser_web3_signer.Cli.Flow.Laws.{command_answered}
use browser_web3_signer.Cli.Tron.{
  TypedDataFile, TronCli, run, run_send_transaction, emit_tx, tx_explorer,
}
use browser_web3_signer.Cli.Tron

module _ {L Routes : Type 0} (serde : Serde) (net : Oneshot RequestResult) (host : Host serde)
    (hex : Hex) (base58 : Base58) (show_id : ℕ → String) (tcp : Tcp L)
    (parse_typed_data : String → Result (TypedDataFile serde) String)
    (wait : Engine (TronRequest serde) net Routes → Engine (TronRequest serde) net Routes)
    (elapsed : Bool) (fresh : Uuid) (cli : TronCli serde net Routes) (to : TronAddress)
    (from : Option TronAddress) (amount : Sun) (memo : Option HexData)
    (n : Option TronNetwork) where
  abbrev pub params : SendTransactionParams serde
  params = record { to = to; from = from; amount = amount; memo = memo; network = n }

  abbrev pub done : Run (Engine (TronRequest serde) net Routes) (Unit {0})
  done =
      run serde net host hex base58 show_id tcp parse_typed_data wait elapsed fresh cli
        (Tron.send_transaction to from amount memo n)

  abbrev pub page : TxHash → Option String
  page h =
      and_then (network_config (unwrap_or n cli.signer.default_network))
        (λ c. host.url (c.block_explorer ++ ("/#/transaction/" ++ to_hex hex h)))

  -- In text mode, a transfer that succeeds prints the hash that the wallet gave and its page in the explorer of the network that the caller named, or else of the signer's default; the request itself names a network only if the caller did.
  pub send_transaction-page :
      cli.ctx.output ≡ text
      → done.result ≡ some (ok tt)
      → (raw : String) × (h : TxHash) × (submit net
            (tron_request serde base58 hex show_id)
            show_id
            tcp
            wait
            elapsed
            (Request.send_transaction (record { id = fresh }) params)
            cli.signer.engine
          ≡ (some (ok raw), done.engine))
        × (tx_hash_from_str hex raw ≡ ok h)
        × (printed done.events ≡ ("Tx hash: " ++ to_hex hex h) ∷ titled "Explorer: " (page h))
  unfolding run run_send_transaction emit_tx read_signed network_or_default tx_explorer
  send_transaction-page mode h =
      let (raw, x, answered, read, shown) =
        command_answered net (tron_request serde base58 hex show_id) show_id tcp cli.ctx.opens wait
          elapsed (Request.send_transaction (record { id = fresh }) params) cli.signer.engine
          (read_signed (tx_hash_from_str hex) "tx hash")
          (emit_tx serde net host hex base58 show_id tcp parse_typed_data wait elapsed fresh cli
            (unwrap_or n cli.signer.default_network))
          h in
      (
        raw,
        x,
        answered,
        map_err-ok _ (tx_hash_from_str hex raw) read,
        shown
            ∙ printed-emit host cli.ctx.output _ _ mode
            ∙ ap (λ ls. ("Tx hash: " ++ to_hex hex x) ∷ ls) (explorer_line-titled (page x)),
      )
