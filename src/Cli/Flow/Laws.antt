-- ===== src/Cli/Flow/Laws.antt =====
-- crates/browser-web3-signer/src/flow.rs: what a command of any chain shows, and when.
use mathlib.Core.Option
use browser_web3_signer.Prelude.{
  ℕ, ◌≡◌, ◌≢◌, refl, String, Bool, Option, none, some, List, [], ◌++◌, Result, ok, err, ◌>>=◌,
  map_err, arith, ap, sym, ◌∙◌,
}
use browser_web3_signer.Core.Json.{Serde}
use browser_web3_signer.Core.Errors.{SignerError}
use browser_web3_signer.Core.Parse.{DomainParseError}
use browser_web3_signer.Core.Types.{Request, RequestResult}
use browser_web3_signer.Core.Oneshot.{Oneshot}
use browser_web3_signer.Core.Engine.{Engine, Prepared, prepare, submit, await}
use browser_web3_signer.Core.Engine.Bind.{Tcp}
use browser_web3_signer.Cli.{OpenMode, CliError, signer, Event, Run}
use browser_web3_signer.Cli.Flow.Printed.{
  printed, printed-++, opened_urls, pages, surface_silent, surface_opens,
}
use browser_web3_signer.Cli.Flow.{with_built, concluded, conclude, await_raw, awaited, approve}

-- What the approval of a request is to open, from what the registration gave.
abbrev pub to_open :
    {R Routes : Type 0} {net : Oneshot RequestResult}
    → OpenMode
    → Result Prepared SignerError × Engine R net Routes
    → List String
to_open m (err x, e) = []
to_open m (ok p, e) = pages m e.browser p.url

module _ {T U : Type 0} (read : T → Result U CliError) where
  read-ok :
      (a : Option (Result T CliError)) (u : U)
      → Option.map (λ x. x >>= read) a ≡ some (ok u)
      → (t : T) × (a ≡ some (ok t)) × (read t ≡ ok u)
  read-ok none u h = cc
  read-ok (some (err x)) u h = cc
  read-ok (some (ok t)) u h = (t, refl, ground arith)

module _ {E T U : Type 0} (read : T → Result U CliError) (shown : U → List Event) where
  concluded-ok :
      (r : Run E T) (a : Option (Result U CliError))
      → (concluded read shown r a).result ≡ some (ok tt)
      → (u : U) × (a ≡ some (ok u))
        × ((concluded read shown r a).events ≡ r.events ++ shown u)
        × ((concluded read shown r a).engine ≡ r.engine)
  unfolding concluded
  concluded-ok r none h = cc
  concluded-ok r (some (err x)) h = cc
  concluded-ok r (some (ok u)) h = (u, refl, refl, refl)

  concluded_failed :
      (r : Run E T) (a : Option (Result U CliError))
      → (concluded read shown r a).result ≢ some (ok tt)
      → (concluded read shown r a).events ≡ r.events
  unfolding concluded
  concluded_failed r none h = refl
  concluded_failed r (some (err x)) h = refl
  concluded_failed r (some (ok u)) h = absurd (h refl)

  concluded-engine :
      (r : Run E T) (a : Option (Result U CliError)) → (concluded read shown r a).engine ≡ r.engine
  unfolding concluded
  concluded-engine r none = refl
  concluded-engine r (some (err x)) = refl
  concluded-engine r (some (ok u)) = refl

  -- A command that has succeeded has read the answer and shown the result last.
  pub conclude-ok :
      (r : Run E T)
      → (conclude read shown r).result ≡ some (ok tt)
      → (t : T) × (u : U) × (r.result ≡ some (ok t))
        × (read t ≡ ok u)
        × ((conclude read shown r).events ≡ r.events ++ shown u)
        × ((conclude read shown r).engine ≡ r.engine)
  unfolding conclude
  conclude-ok r h =
      let (u, got, events, engine) = concluded-ok r (Option.map (λ x. x >>= read) r.result) h in
      let (t, answer, parsed) = read-ok read r.result u got in
      (t, u, answer, parsed, events, engine)

signer-ok :
    (a : Option (Result String SignerError)) (raw : String)
    → Option.map (λ x. map_err signer x) a ≡ some (ok raw)
    → a ≡ some (ok raw)
signer-ok none raw h = cc
signer-ok (some (err x)) raw h = cc
signer-ok (some (ok t)) raw h = cc h

module _ {R L Routes : Type 0} {serde : Serde} (net : Oneshot RequestResult) (q : Request serde R)
    (show_id : ℕ → String) (tcp : Tcp L) (open_mode : OpenMode)
    (wait : Engine R net Routes → Engine R net Routes) (elapsed : Bool) where
  awaited-await :
      (w : Result Prepared SignerError × Engine R net Routes)
      → ((awaited net q show_id tcp open_mode wait elapsed w).result
          ≡ Option.map (λ x. map_err signer x) (await net q show_id wait elapsed w).0)
        × ((awaited net q show_id tcp open_mode wait elapsed w).engine
            ≡ (await net q show_id wait elapsed w).1)
  unfolding awaited await await_raw
  awaited-await (err x, e) = (refl, refl)
  awaited-await (ok p, e) = (refl, refl)

  -- The approval of a command ends as the engine's submission of the request does.
  pub approve-submit :
      (r : R) (e : Engine R net Routes)
      → ((approve net q show_id tcp open_mode wait elapsed r e).result
          ≡ Option.map (λ x. map_err signer x) (submit net q show_id tcp wait elapsed r e).0)
        × ((approve net q show_id tcp open_mode wait elapsed r e).engine
            ≡ (submit net q show_id tcp wait elapsed r e).1)
  unfolding approve submit
  approve-submit r e = awaited-await (prepare net q show_id tcp r e)

  awaited_silent :
      (w : Result Prepared SignerError × Engine R net Routes)
      → printed (awaited net q show_id tcp open_mode wait elapsed w).events ≡ []
  unfolding awaited await_raw printed
  awaited_silent (err x, e) = refl
  awaited_silent (ok p, e) = surface_silent open_mode e.browser p.url

  awaited_opens :
      (w : Result Prepared SignerError × Engine R net Routes)
      → opened_urls (awaited net q show_id tcp open_mode wait elapsed w).events
        ≡ to_open open_mode w
  unfolding awaited await_raw opened_urls
  awaited_opens (err x, e) = refl
  awaited_opens (ok p, e) = surface_opens open_mode e.browser p.url

  -- The approval of a request opens the approval page of its own registration, once, and no other URL; with `--print`, with an engine that is not to open a browser, or when the registration fails, it opens nothing.
  pub approve_opens :
      (r : R) (e : Engine R net Routes)
      → opened_urls (approve net q show_id tcp open_mode wait elapsed r e).events
        ≡ to_open open_mode (prepare net q show_id tcp r e)
  unfolding approve
  approve_opens r e = awaited_opens (prepare net q show_id tcp r e)

  approve_silent :
      (r : R) (e : Engine R net Routes)
      → printed (approve net q show_id tcp open_mode wait elapsed r e).events ≡ []
  unfolding approve
  approve_silent r e = awaited_silent (prepare net q show_id tcp r e)

  module _ (r : R) (e : Engine R net Routes) {U : Type 0} (read : String → Result U CliError)
      (shown : U → List Event) where
    abbrev pub command : Run (Engine R net Routes) (Unit {0})
    command = conclude read shown (approve net q show_id tcp open_mode wait elapsed r e)

    -- A command leaves the engine as the submission of its request does.
    pub command-engine : command.engine ≡ (submit net q show_id tcp wait elapsed r e).1
    unfolding conclude
    command-engine =
        let run = approve net q show_id tcp open_mode wait elapsed r e in
        concluded-engine read shown run (Option.map (λ x. x >>= read) run.result)
        ∙ (approve-submit r e).1

    -- A command that succeeds has submitted its request to the engine, read the wallet's answer, and printed the result of it and nothing else.
    pub command_answered :
        command.result ≡ some (ok tt)
        → (raw : String) × (u : U) × (submit net q show_id tcp wait elapsed r e
            ≡ (some (ok raw), command.engine))
          × (read raw ≡ ok u)
          × (printed command.events ≡ printed (shown u))
    unfolding printed
    command_answered h =
        let run = approve net q show_id tcp open_mode wait elapsed r e in
        let (raw, u, answer, parsed, events, engine) = conclude-ok read shown run h in
        let (result, same) = approve-submit r e in
        let sent =
          signer-ok (submit net q show_id tcp wait elapsed r e).0 raw (sym result ∙ answer) in
        (
          raw,
          u,
          λ i. (sent i, (sym same ∙ sym engine) i),
          parsed,
          ap printed events
              ∙ printed-++ run.events (shown u)
              ∙ ap (λ x. x ++ printed (shown u)) (approve_silent r e),
        )

    -- A command that has not succeeded has printed nothing, so what reads its output finds a result only of a wallet that gave one.
    pub command_silent : command.result ≢ some (ok tt) → printed command.events ≡ []
    unfolding conclude
    command_silent h =
        let run = approve net q show_id tcp open_mode wait elapsed r e in
        ap printed (concluded_failed read shown run (Option.map (λ x. x >>= read) run.result) h)
        ∙ approve_silent r e

  -- A command whose request is built first.
  module _ (e : Engine R net Routes) {U : Type 0} (read : String → Result U CliError)
      (shown : U → List Event) where
    abbrev pub built_command : Result R DomainParseError → Run (Engine R net Routes) (Unit {0})
    built_command b = with_built e b (λ r. command r e read shown)

    pub built_command_answered :
        (b : Result R DomainParseError)
        → (built_command b).result ≡ some (ok tt)
        → (r : R) × (raw : String) × (u : U) × (b ≡ ok r)
          × (submit net q show_id tcp wait elapsed r e ≡ (some (ok raw), (built_command b).engine))
          × (read raw ≡ ok u)
          × (printed (built_command b).events ≡ printed (shown u))
    unfolding with_built
    built_command_answered (err x) h = cc
    built_command_answered (ok r) h =
        let (raw, u, answered, parsed, shows) = command_answered r e read shown h in
        (r, raw, u, refl, answered, parsed, shows)

    pub built_command_silent :
        (b : Result R DomainParseError)
        → (built_command b).result ≢ some (ok tt)
        → printed (built_command b).events ≡ []
    unfolding with_built printed
    built_command_silent (err x) h = refl
    built_command_silent (ok r) h = command_silent r e read shown h
