-- ===== src/Examples/Psbts.antt =====
-- Bitcoin commands at a terminal.
use Prim.Native.String.{◌++◌}
use mathlib.Core.List.{◌++◌ as ◌+++◌}
use mathlib.Core.Option
use browser_web3_signer.Prelude.{ℕ, ◌≡◌, ◌⊎◌, refl, String, true, false, none, some, [], ◌∷◌, ok}
use browser_web3_signer.Core.Config.{not_present}
use browser_web3_signer.Core.Store.{complete, create}
use browser_web3_signer.Core.Store
use browser_web3_signer.Core.Engine.{Engine, submit, ServerState}
use browser_web3_signer.Core.Engine
use browser_web3_signer.Prelude.Dict.{lookup, insert}
use browser_web3_signer.Btc.Request.{BtcRequest, SignPsbtParams, new_sign_psbt}
use browser_web3_signer.Btc.Answer.{SignedPsbt, parse_signed_psbt, btc_request}
use browser_web3_signer.Btc.Domain.{mainnet, psbt_from_str}
use browser_web3_signer.Cli.{Run}
use browser_web3_signer.Cli.Flow.{conclude, approve as approval}
use browser_web3_signer.Prelude.Lists.{find}
use browser_web3_signer.Prelude.Text.{trim, all_hex}
use browser_web3_signer.Cli.Flow.Printed.{titled, printed}
use browser_web3_signer.Cli.Btc.{Display, BtcCli}
use browser_web3_signer.Cli.Btc as BtcCommands
use browser_web3_signer.Cli.Btc.Laws.{sign_psbt_printed, page}
use browser_web3_signer.Examples.Json.{serde}
use browser_web3_signer.Examples.Parts.{net, tcp, btc_deps, show_id}
use browser_web3_signer.Examples.Btc.{engine, approve}
use browser_web3_signer.Examples.Commands.{ctx, host}

abbrev btc_cli : BtcCli btc_deps net ℕ
btc_cli = record { signer = record { engine = engine; default_network = mainnet }; ctx = ctx }

abbrev display : Display btc_deps
display = record { show_public_key = λ k. k; show_signature = λ b. b; outputs = λ p. 1 }

abbrev psbt_params : SignPsbtParams btc_deps
psbt_params = record {
  network = mainnet;
  psbt = false;
  from = none;
  sign_inputs = some (0 ∷ []);
  finalize = false;
  broadcast = true;
}

abbrev btc_run : Run (Engine (BtcRequest btc_deps) net ℕ) (Unit {0})
btc_run =
    BtcCommands.run_sign_psbt btc_deps net serde host display not_present show_id tcp approve false
      7 btc_cli psbt_params

sign_psbt_printed_example :
    (r : BtcRequest btc_deps) × (raw : String) × (s : SignedPsbt btc_deps) × (new_sign_psbt btc_deps
        (record { id = 7 })
        psbt_params
      ≡ ok r)
    × (submit net
          (btc_request serde btc_deps not_present show_id)
          show_id
          tcp
          approve
          false
          r
          engine
        ≡ (some (ok raw), btc_run.engine))
    × (btc_deps.compute_txid s.psbt ≡ "t0")
    × ((s.txid ≡ none) ⊎ (s.txid ≡ some "t0"))
    × (printed btc_run.events
        ≡ ("PSBT: " ++ btc_deps.serialize_hex s.psbt)
          ∷ (titled "Txid: " (Option.map btc_deps.show_txid s.txid)
              +++ titled "Explorer: " (
                  page btc_deps net serde host display not_present show_id tcp approve false 7
                    btc_cli psbt_params s)))
unfolding submit BtcCommands.run_sign_psbt new_sign_psbt find conclude approval Engine.new complete
    lookup create insert Store.new parse_signed_psbt psbt_from_str all_hex trim
sign_psbt_printed_example =
    sign_psbt_printed btc_deps net serde host display not_present show_id tcp approve false 7
      btc_cli psbt_params refl refl
