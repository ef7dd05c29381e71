-- ===== src/Cli/Btc/Silent.antt =====
-- crates/browser-web3-signer/src/btc.rs: a command that has not succeeded.
use browser_web3_signer.Prelude.{ℕ, ◌≡◌, ◌≢◌, refl, String, Bool, some, List, [], Result, ok, err}
use browser_web3_signer.Core.Json.{Serde}
use browser_web3_signer.Core.Config.{Var}
use browser_web3_signer.Core.Parse.{DomainParseError}
use browser_web3_signer.Core.Types.{Uuid, RequestResult}
use browser_web3_signer.Core.Oneshot.{Oneshot}
use browser_web3_signer.Core.Engine.{Engine}
use browser_web3_signer.Core.Engine.Bind.{Tcp}
use browser_web3_signer.Btc.Deps.{Deps}
use browser_web3_signer.Btc.Domain.{PsbtData}
use browser_web3_signer.Btc.Request.{BtcRequest, SignPsbtParams}
use browser_web3_signer.Btc.Answer.{btc_request}
use browser_web3_signer.Cli.{Host, Event, CliError}
use browser_web3_signer.Cli.Flow.{with_built}
use browser_web3_signer.Cli.Flow.Printed.{printed}
use browser_web3_signer.Cli.Flow.Laws.{built_command_silent}
use browser_web3_signer.Cli.Btc.{
  Display, BtcCommand, BtcCli, run, run_connect, run_send, run_sign_psbt, run_sign_message,
  sign_read, connect, send, sign_psbt, sign_message, Done, approved,
}

module _ {L Routes : Type 0} (deps : Deps) (net : Oneshot RequestResult) (serde : Serde)
    (host : Host serde) (display : Display deps) (env : Var) (show_id : ℕ → String) (tcp : Tcp L)
    (wait : Engine (BtcRequest deps) net Routes → Engine (BtcRequest deps) net Routes)
    (elapsed : Bool) (fresh : Uuid) (cli : BtcCli deps net Routes) where
  abbrev IsSilent : Done deps net serde host display env show_id tcp wait elapsed fresh cli → Type 0
  IsSilent d = d.result ≢ some (ok tt) → printed d.events ≡ []

  built-IsSilent :
      {T : Type 0} (b : Result (BtcRequest deps) DomainParseError)
      (read : String → Result T CliError) (shown : T → List Event)
      → IsSilent (
          with_built cli.signer.engine b (
            approved deps net serde host display env show_id tcp wait elapsed fresh cli read shown))
  built-IsSilent b read shown h =
      built_command_silent net (btc_request serde deps env show_id) show_id tcp cli.ctx.opens wait
        elapsed cli.signer.engine read shown b h

  sign_read-IsSilent :
      (params : PsbtData deps → SignPsbtParams deps) (p : Result (PsbtData deps) CliError)
      → IsSilent
          (sign_read deps net serde host display env show_id tcp wait elapsed fresh cli params p)
  unfolding sign_read run_sign_psbt printed
  sign_read-IsSilent params (err x) h = refl
  sign_read-IsSilent params (ok p) h = built-IsSilent _ _ _ h

  -- A Bitcoin command that has not succeeded, because it waits, is refused or fails, has printed nothing to stdout, so a program that reads the output finds only results that a wallet gave.
  pub btc_run_silent :
      (cmd : BtcCommand deps)
      → (run deps net serde host display env show_id tcp wait elapsed fresh cli cmd).result
        ≢ some (ok tt)
      → printed (run deps net serde host display env show_id tcp wait elapsed fresh cli cmd).events
        ≡ []
  unfolding run run_connect run_send run_sign_message
  btc_run_silent (connect network a) h = built-IsSilent _ _ _ h
  btc_run_silent (send to amount from rate network) h = built-IsSilent _ _ _ h
  btc_run_silent (sign_psbt psbt file inputs finalize broadcast from network) h =
      sign_read-IsSilent _ _ h
  btc_run_silent (sign_message m a protocol network) h = built-IsSilent _ _ _ h
