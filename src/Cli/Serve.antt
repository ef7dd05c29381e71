-- ===== src/Cli/Serve.antt =====
-- crates/browser-web3-signer/src/serve.rs and main.rs: the start of a `serve` process.
pub mod Laws
use Prim.Native.String.{◌++◌}
use browser_web3_signer.Prelude.{ℕ, String, Option, none, some, List, [], ◌∷◌, Result, ok, err}
use browser_web3_signer.Prelude.Decimal.{decimal}
use browser_web3_signer.Core.Json.{Serde}
use browser_web3_signer.Core.Errors.{SignerError, to_string}
use browser_web3_signer.Core.Bytes.{Hex}
use browser_web3_signer.Core.Config.{Var, Port, BindPort, preferred}
use browser_web3_signer.Core.Browser.{BrowserChoice}
use browser_web3_signer.Core.Types.{ExpectedAccount, RequestResult}
use browser_web3_signer.Core.Oneshot.{Oneshot}
use browser_web3_signer.Core.Engine.{Engine, start_with}
use browser_web3_signer.Core.Engine
use browser_web3_signer.Core.Engine.Bind.{Tcp}
use browser_web3_signer.Evm.Deps.{Deps}
use browser_web3_signer.Evm.Config as EvmConfig
use browser_web3_signer.Evm.Request.Account.{evm_account}
use browser_web3_signer.Btc.Deps.{Deps as BtcDeps}
use browser_web3_signer.Btc.Domain as BtcDomain
use browser_web3_signer.Btc.Answer.{btc_account}
use browser_web3_signer.Tron.Domain.{Base58, TronAddress}
use browser_web3_signer.Tron.Config as TronConfig
use browser_web3_signer.Tron.Account.{tron_account}
use browser_web3_signer.Serve.{configured}
use browser_web3_signer.Cli.{
  CliContext, CliError, message, Event, progress, line, Run, browser_choice,
}
use browser_web3_signer.Cli.Flow.{failed, preceded}

module _ {R A L Routes : Type 0} {serde : Serde} (x : ExpectedAccount serde R A)
    (net : Oneshot RequestResult) (tcp : Tcp L) (control_routes : Option A → Routes) where
  -- The line about an account that is set.
  unfoldable pub account_notice : Option A → List Event
  account_notice none = []
  account_notice (some a) = progress ("every request expects the account in " ++ x.account_env) ∷ []

  -- What the start of the bridge gave; a process that serves has no result.
  unfoldable pub serving :
      Result Port SignerError × Engine R net Routes → Run (Engine R net Routes) (Unit {0})
  serving (err reason, e) =
      failed e (message ("failed to start control bridge: " ++ to_string reason))
  serving (ok port, e) = record {
    engine = e;
    events =
        line (decimal port.get)
        ∷ progress ("control API listening on http://127.0.0.1:" ++ decimal port.get)
        ∷ [];
    result = none;
  }

  unfoldable pub run_configured :
      Engine R net Routes → Result (Option A) String → Run (Engine R net Routes) (Unit {0})
  unfolding account_notice serving
  run_configured e (err reason) = failed e (message reason)
  run_configured e (ok account) =
      preceded (account_notice account)
        (serving (start_with net tcp (some (control_routes account)) e))

  -- `serve::run`, for the account variable `var`.
  unfoldable pub run :
      (String → String)
      → Var
      → String
      → BindPort
      → BrowserChoice
      → Run (Engine R net Routes) (Unit {0})
  unfolding run_configured
  run show_not_unicode var web_ui bind choice =
      run_configured (Engine.new net web_ui bind choice) (configured serde x show_not_unicode var)

pub data Chain : Type 0 where
  evm tron btc : Chain

-- The environment: the port and the account variable of each chain, and Bitcoin's network variable.
pub record Environment : Type 0 where
  pub port_var : Chain → Var
  pub account_var : Chain → Var
  pub network_var : Var

-- What a process shows and how it ends, whatever its chain.
pub record Shown : Type 0 where
  pub events : List Event
  pub result : Option (Result (Unit {0}) CliError)

abbrev pub shown_of : {E : Type 0} → Run E (Unit {0}) → Shown
shown_of r = record { events = r.events; result = r.result }

module _ {L Routes : Type 0} (serde : Serde) (deps : Deps) (btc_deps : BtcDeps) (hex : Hex)
    (base58 : Base58) (net : Oneshot RequestResult) (show_id : ℕ → String) (tcp : Tcp L)
    (debug show_not_unicode : String → String) (web_ui : Chain → String)
    (control_routes : (A : Type 0) → Option A → Routes) (env : Environment) where
  unfoldable pub run_serve : Chain → CliContext → Shown
  unfolding run browser_choice
  run_serve evm ctx = shown_of (
      run (evm_account serde deps show_id) net tcp (control_routes (Deps.Address deps))
        show_not_unicode (env.account_var evm) (web_ui evm)
        (preferred (EvmConfig.port debug (env.port_var evm))) (browser_choice ctx.opens))
  run_serve tron ctx = shown_of (
      run (tron_account serde base58 hex show_id) net tcp (control_routes TronAddress)
        show_not_unicode (env.account_var tron) (web_ui tron)
        (preferred (TronConfig.port debug (env.port_var tron))) (browser_choice ctx.opens))
  run_serve btc ctx = shown_of (
      run (btc_account serde btc_deps env.network_var show_id) net tcp
        (control_routes (BtcDeps.Address btc_deps)) show_not_unicode (env.account_var btc)
        (web_ui btc) (preferred (BtcDomain.port debug (env.port_var btc)))
        (browser_choice ctx.opens))
