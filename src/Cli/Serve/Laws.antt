-- ===== src/Cli/Serve/Laws.antt =====
-- crates/browser-web3-signer/src/serve.rs: what the spawning binding reads, and when the bridge runs.
use browser_web3_signer.Prelude.{
  ◌≢◌, str_eq, eq_iff, Result-cases, Bool-cases, inl, inr, arith, ◌≡◌, refl, String, Option, none,
  some, List, [], ◌∷◌, ◌++◌, Result, ok, err, ◌∙◌,
}
use browser_web3_signer.Prelude.Decimal.{decimal}
use browser_web3_signer.Core.Json.{Serde}
use browser_web3_signer.Core.Errors.{SignerError}
use browser_web3_signer.Core.Config.{
  Var, value, not_present, not_unicode, Port, BindPort, account_from_env, parse_account,
}
use browser_web3_signer.Core.Browser.{BrowserChoice}
use browser_web3_signer.Core.Types.{ExpectedAccount, RequestResult}
use browser_web3_signer.Core.Oneshot.{Oneshot}
use browser_web3_signer.Core.Engine.{Engine, ServerState, start_with, start_from, launch}
use browser_web3_signer.Core.Engine
use browser_web3_signer.Core.Engine.Bind.{Tcp, bind_listener}
use browser_web3_signer.Serve.{configured}
use browser_web3_signer.Cli.{CliError, Event, Run}
use browser_web3_signer.Cli.Flow.Printed.{printed}
use browser_web3_signer.Cli.Serve.{account_notice, serving, run_configured, run}

module _ {R A : Type 0} {serde : Serde} (x : ExpectedAccount serde R A) where
  -- What an account variable sets: no account if it is absent or empty, else the one that it parses to.
  abbrev pub Sets : Var → Option A → Type 0
  Sets not_present account = account ≡ none
  Sets (value s) none = s ≡ ""
  Sets (value s) (some a) = (s ≢ "") × (x.parse_account s ≡ ok a)
  Sets (not_unicode s) account = ⊥

  configured-Sets :
      (show_not_unicode : String → String) (v : Var) (account : Option A)
      → configured serde x show_not_unicode v ≡ ok account
      → Sets v account
  unfolding configured account_from_env parse_account
  configured-Sets show_not_unicode not_present account h = ground arith
  configured-Sets show_not_unicode (not_unicode s) account h = cc
  configured-Sets show_not_unicode (value s) none h = elim (Bool-cases (str_eq s "")) [
    | inl y ↦ (eq_iff s "").0 y
    | inr n ↦ elim (Result-cases (x.parse_account s)) [
      | inl (a, e) ↦ absurd (ground (arith, n, e, h))
      | inr (why, e) ↦ absurd (ground (arith, n, e, h))
    ]
  ]
  configured-Sets show_not_unicode (value s) (some a) h = elim (Bool-cases (str_eq s "")) [
    | inl y ↦ absurd (ground (arith, y, h))
    | inr n ↦ (
      λ e. ground (arith, n, (eq_iff s "").1 e),
      elim (Result-cases (x.parse_account s)) [
        | inl (b, e) ↦ ground (arith, n, e, h)
        | inr (why, e) ↦ absurd (ground (arith, n, e, h))
      ],
    )
  ]

module _ {R A L Routes : Type 0} {serde : Serde} (x : ExpectedAccount serde R A)
    (net : Oneshot RequestResult) (tcp : Tcp L) (control_routes : Option A → Routes) where
  notice_silent :
      (a : Option A) (es : List Event)
      → printed (account_notice x net tcp control_routes a ++ es) ≡ printed es
  unfolding account_notice printed
  notice_silent none es = refl
  notice_silent (some a) es = refl

  module _ (e : Engine R net Routes) (unbound : e.server ≡ none) where
    -- The process, from what the bind gives.
    launched : Option A → Result (L × Port) SignerError → Run (Engine R net Routes) (Unit {0})
    launched a b = serving x net tcp control_routes (launch net (some (control_routes a)) b e)

    launched_ready :
        (a : Option A) (b : Result (L × Port) SignerError)
        → (launched a b).result ≡ none
        → (listener : L) × (port : Port) × (b ≡ ok (listener, port))
          × ((launched a b).engine.server
              ≡ some (record { port = port; extra = some (control_routes a) }))
          × (printed (launched a b).events ≡ decimal port.get ∷ [])
    unfolding launched serving launch printed
    launched_ready a (err r) h = cc
    launched_ready a (ok (l, port)) h = (l, port, refl, refl, refl)

    launched_refused :
        (a : Option A) (b : Result (L × Port) SignerError) (z : CliError)
        → (launched a b).result ≡ some (err z)
        → ((launched a b).engine.server ≡ none) × (printed (launched a b).events ≡ [])
    unfolding launched serving launch printed
    launched_refused a (err r) z h = (unbound, refl)
    launched_refused a (ok (l, port)) z h = cc

module _ {R A L Routes : Type 0} {serde : Serde} (x : ExpectedAccount serde R A)
    (net : Oneshot RequestResult) (tcp : Tcp L) (control_routes : Option A → Routes)
    (show_not_unicode : String → String) (var : Var) (web_ui : String) (bind : BindPort)
    (choice : BrowserChoice) where
  abbrev pub process : Run (Engine R net Routes) (Unit {0})
  process = run x net tcp control_routes show_not_unicode var web_ui bind choice

  abbrev new_engine : Engine R net Routes
  new_engine = Engine.new net web_ui bind choice

  configured_ready :
      (c : Result (Option A) String)
      → (run_configured x net tcp control_routes new_engine c).result ≡ none
      → (account : Option A) × (listener : L) × (port : Port) × (c ≡ ok account)
        × (bind_listener tcp bind ≡ ok (listener, port))
        × ((run_configured x net tcp control_routes new_engine c).engine.server
            ≡ some (record { port = port; extra = some (control_routes account) }))
        × (printed (run_configured x net tcp control_routes new_engine c).events
            ≡ decimal port.get ∷ [])
  unfolding run_configured start_with start_from Engine.new launched
  configured_ready (err r) h = cc
  configured_ready (ok a) h =
      let (l, port, bound, server, shows) =
        launched_ready x net tcp control_routes new_engine refl a (bind_listener tcp bind) h in
      (a, l, port, refl, bound, server, notice_silent x net tcp control_routes a _ ∙ shows)

  configured_refused :
      (c : Result (Option A) String) (e : CliError)
      → (run_configured x net tcp control_routes new_engine c).result ≡ some (err e)
      → ((run_configured x net tcp control_routes new_engine c).engine.server ≡ none)
        × (printed (run_configured x net tcp control_routes new_engine c).events ≡ [])
  unfolding run_configured start_with start_from Engine.new launched printed
  configured_refused (err r) e h = (refl, refl)
  configured_refused (ok a) e h =
      let (server, shows) =
        launched_refused x net tcp control_routes new_engine refl a (bind_listener tcp bind) e h in
      (server, notice_silent x net tcp control_routes a _ ∙ shows)

  -- A `serve` process that serves has bound its port, runs the control routes with the account that the environment sets (none if the variable is absent or empty, else the one that it parses to), and has printed its port and nothing else.
  pub serve_ready :
      process.result ≡ none
      → (account : Option A) × (listener : L) × (port : Port) × Sets x var account
        × (bind_listener tcp bind ≡ ok (listener, port))
        × (process.engine.server
            ≡ some (record { port = port; extra = some (control_routes account) }))
        × (printed process.events ≡ decimal port.get ∷ [])
  unfolding run
  serve_ready h =
      let (account, listener, port, set, bound, server, shows) =
        configured_ready (configured serde x show_not_unicode var) h in
      (
        account,
        listener,
        port,
        configured-Sets x show_not_unicode var account set,
        bound,
        server,
        shows,
      )

  -- A `serve` process that ends has bound nothing and printed nothing.
  pub serve_refused :
      (e : CliError)
      → process.result ≡ some (err e)
      → (process.engine.server ≡ none) × (printed process.events ≡ [])
  unfolding run
  serve_refused e h = configured_refused (configured serde x show_not_unicode var) e h
