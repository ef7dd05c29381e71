-- ===== src/Cli/Btc.antt =====
-- crates/browser-web3-signer/src/btc.rs: the Bitcoin subcommands. A command takes the fresh id of its
-- request.
mod Command
pub use Command.*
pub mod Laws
pub mod Silent
use Prim.Native.String.{◌++◌}
use mathlib.Core.List.{◌++◌ as ◌+++◌}
use mathlib.Core.Option
use browser_web3_signer.Prelude.{
  ℕ, String, Bool, Option, none, some, List, [], ◌∷◌, Result, ok, err, ◌>>=◌, map_err, and_then,
  unwrap_or, length,
}
use browser_web3_signer.Prelude.Decimal.{decimal}
use browser_web3_signer.Core.Json.{Serde}
use browser_web3_signer.Core.Config.{Var, preferred}
use browser_web3_signer.Core.Types.{Uuid, RequestMeta, RequestResult}
use browser_web3_signer.Core.Oneshot.{Oneshot}
use browser_web3_signer.Core.Engine.{Engine}
use browser_web3_signer.Core.Engine.Bind.{Tcp}
use browser_web3_signer.Btc.Deps.{Deps}
use browser_web3_signer.Btc.Domain.{
  BtcNetwork, Sats, SatPerVb, MessageProtocol, UncheckedAddress, PsbtData, shown, default_network,
  port, block_explorer, psbt_from_str, signature_from_str,
}
use browser_web3_signer.Btc.Request.{
  BtcRequest, SendTransferParams, SignPsbtParams, SignMessageParams, new_connect, new_send_transfer,
  new_sign_psbt, new_sign_message,
}
use browser_web3_signer.Btc.Answer.{
  BtcAccount, SignedPsbt, parse_account, parse_signed_psbt, btc_request,
}
use browser_web3_signer.Btc.Signer.{BtcSigner}
use browser_web3_signer.Btc.Signer
use browser_web3_signer.Cli.{
  CliContext, CliError, signer, parse, message, context, Event, progress, Host, emit, optional,
  explorer_line, Run, browser_choice,
}
use browser_web3_signer.Cli.Flow.{failed, preceded, with_built, read_signed, conclude, approve}

module _ (deps : Deps) (net : Oneshot RequestResult) (Routes : Type 0) where
  pub record BtcCli : Type 0 where
    pub signer : BtcSigner deps net Routes
    pub ctx : CliContext

module _ {Routes : Type 0} (deps : Deps) (net : Oneshot RequestResult) where
  unfoldable pub new :
      (web_ui : String) → (port_var network_var : Var) → CliContext → BtcCli deps net Routes
  unfolding browser_choice
  new web_ui port_var network_var ctx = record {
    signer =
        Signer.new deps net web_ui (preferred (port deps.debug port_var))
          (default_network network_var) (browser_choice ctx.opens);
    ctx = ctx;
  }

  unfoldable pub network_or_default : BtcCli deps net Routes → Option BtcNetwork → BtcNetwork
  network_or_default cli n = unwrap_or n cli.signer.default_network

  -- `env` is the variable of the default network, which the engine's requests are read with.
  module _ {L : Type 0} (serde : Serde) (host : Host serde) (display : Display deps) (env : Var)
      (show_id : ℕ → String) (tcp : Tcp L)
      (wait : Engine (BtcRequest deps) net Routes → Engine (BtcRequest deps) net Routes)
      (elapsed : Bool) (fresh : Uuid) (cli : BtcCli deps net Routes) where
    open serde use {string, object, empty, insert}
    open deps use {Txid, show_address, show_txid, parse_txid, serialize_hex, inputs, compute_txid}

    abbrev pub Done : Type 0
    Done = Run (Engine (BtcRequest deps) net Routes) (Unit {0})

    abbrev pub meta : RequestMeta
    meta = record { id = fresh }

    -- A request that is built is approved, its answer read and shown.
    abbrev pub approved :
        {T : Type 0} → (String → Result T CliError) → (T → List Event) → BtcRequest deps → Done
    approved read shows r = conclude read shows (
        approve net (btc_request serde deps env show_id) show_id tcp cli.ctx.opens wait elapsed r
          cli.signer.engine)

    unfoldable pub connected : BtcAccount deps → List Event
    unfolding emit
    connected a =
        emit host cli.ctx.output
          (("Connected: " ++ show_address a.address)
            ∷ ("Public key: " ++ display.show_public_key a.public_key)
            ∷ [])
          (object (
            insert "publicKey" (string (display.show_public_key a.public_key))
              (insert "address" (string (show_address a.address)) empty)))

    unfoldable pub run_connect : Option BtcNetwork → Option (UncheckedAddress deps) → Done
    unfolding network_or_default connected with_built
    run_connect network a =
        let n = network_or_default cli network in
        with_built cli.signer.engine (new_connect deps meta n a)
          (approved (λ raw. map_err signer (parse_account serde deps raw n)) connected)

    unfoldable pub tx_explorer : BtcNetwork → Txid → Option String
    unfolding block_explorer
    tx_explorer n t = and_then (block_explorer n) (λ base. host.url (base ++ show_txid t))

    unfoldable pub sent : BtcNetwork → Txid → List Event
    unfolding emit tx_explorer optional explorer_line
    sent n t =
        emit host cli.ctx.output (("Txid: " ++ show_txid t) ∷ explorer_line (tx_explorer n t)) (
          object (
            insert "explorer" (optional host (tx_explorer n t))
              (insert "txid" (string (show_txid t)) empty)))

    unfoldable pub run_send : SendTransferParams deps → Done
    unfolding sent with_built
    run_send p =
        with_built cli.signer.engine (new_send_transfer deps meta p)
          (approved (read_signed parse_txid "txid") (sent p.network))

    unfoldable pub txid_line : Option Txid → List String
    txid_line none = []
    txid_line (some t) = ("Txid: " ++ show_txid t) ∷ []

    unfoldable pub psbt_lines : SignedPsbt deps → Option String → List String
    unfolding txid_line explorer_line
    psbt_lines s page =
        ("PSBT: " ++ serialize_hex s.psbt) ∷ (txid_line s.txid +++ explorer_line page)

    unfoldable pub signed : BtcNetwork → SignedPsbt deps → List Event
    unfolding emit tx_explorer optional psbt_lines
    signed n s =
        let page = and_then s.txid (tx_explorer n) in
        emit host cli.ctx.output (psbt_lines s page) (
          object (
            insert "explorer" (optional host page) (
              insert "txid" (optional host (Option.map show_txid s.txid))
                (insert "psbt" (string (serialize_hex s.psbt)) empty))))

    abbrev pub signing : PsbtData deps → Event
    signing p = progress (
        "Signing PSBT for tx "
        ++ (show_txid (compute_txid p)
            ++ (" ("
                ++ (decimal (length (inputs p))
                    ++ (" inputs, " ++ (decimal (display.outputs p) ++ " outputs)"))))))

    unfoldable pub run_sign_psbt : SignPsbtParams deps → Done
    unfolding signed with_built
    run_sign_psbt p = preceded (signing p.psbt ∷ []) (
        with_built cli.signer.engine (new_sign_psbt deps meta p) (
          approved (λ raw. map_err signer (parse_signed_psbt serde deps p.psbt raw))
            (signed p.network)))

    unfoldable pub signed_message : deps.Bytes → List Event
    unfolding emit
    signed_message s =
        emit host cli.ctx.output (("Signature: " ++ display.show_signature s) ∷ [])
          (object (insert "signature" (string (display.show_signature s)) empty))

    unfoldable pub run_sign_message : SignMessageParams deps → Done
    unfolding signed_message with_built
    run_sign_message p =
        with_built cli.signer.engine (new_sign_message deps meta p)
          (approved (read_signed (shown (signature_from_str deps)) "signature") signed_message)

    -- `sign-psbt`, on the PSBT that was read.
    unfoldable pub sign_read :
        (PsbtData deps → SignPsbtParams deps) → Result (PsbtData deps) CliError → Done
    unfolding run_sign_psbt
    sign_read params (err x) = failed cli.signer.engine x
    sign_read params (ok p) = run_sign_psbt (params p)

    unfoldable pub run : BtcCommand deps → Done
    unfolding run_connect run_send run_sign_message sign_read read_psbt network_or_default
        some_inputs
    run (connect network a) = run_connect network a
    run (send to amount from fee_rate network) = run_send (record {
      network = network_or_default cli network;
      to = to;
      from = from;
      amount = amount;
      fee_rate = fee_rate;
    })
    run (sign_psbt psbt file sign_inputs finalize broadcast from network) =
        sign_read
          (λ p. record {
            network = network_or_default cli network;
            psbt = p;
            from = from;
            sign_inputs = some_inputs deps sign_inputs;
            finalize = finalize;
            broadcast = broadcast;
          })
          (read_psbt deps host.read_file psbt file)
    run (sign_message m a protocol network) = run_sign_message (record {
      network = network_or_default cli network;
      message = m;
      address = a;
      protocol = protocol;
    })
