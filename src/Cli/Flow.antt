-- ===== src/Cli/Flow.antt =====
-- crates/browser-web3-signer/src/flow.rs: a request is registered, its URL is shown and opened, the
-- wallet's answer is awaited and read. As for `submit`, `wait` and `elapsed` are the other tasks and the
-- deadline, and no result is a command that waits.
pub mod Printed
pub mod Laws
use Prim.Native.String.{◌++◌ as ◌+++◌}
use mathlib.Core.Option
use browser_web3_signer.Prelude.{
  ℕ, String, Bool, Option, none, some, List, [], ◌∷◌, ◌++◌, Result, ok, err, ◌>>=◌, map_err,
}
use browser_web3_signer.Core.Json.{Serde}
use browser_web3_signer.Core.Errors.{SignerError}
use browser_web3_signer.Core.Parse.{DomainParseError}
use browser_web3_signer.Core.Browser.{BrowserChoice, opened}
use browser_web3_signer.Core.Types.{Request, RequestResult}
use browser_web3_signer.Core.Oneshot.{Oneshot}
use browser_web3_signer.Core.Engine.{Engine, Prepared, prepare, poll}
use browser_web3_signer.Core.Engine.Bind.{Tcp}
use browser_web3_signer.Cli.{
  OpenMode, default, print_only, CliError, signer, parse, message, Event, progress, opening, Run,
}

-- `ApprovalOpener::open_url`: the URL that the engine's choice opens, if any.
unfoldable pub open_url : Option String → List Event
open_url none = []
open_url (some url) = opening url ∷ []

-- What `await_raw` does before it waits.
unfoldable pub surface : OpenMode → BrowserChoice → String → List Event
unfolding open_url
surface print_only choice url =
    progress ("Approval URL: " +++ url) ∷ progress "(--print) open the URL above to approve" ∷ []
surface default choice url =
    progress ("Approval URL: " +++ url)
    ∷ (open_url (opened url choice) ++ (progress "Waiting for approval in your browser…" ∷ []))

-- A run that ends before its request is registered.
abbrev pub failed : {E T : Type 0} → E → CliError → Run E T
failed e x = record { engine = e; events = []; result = some (err x) }

abbrev pub preceded : {E T : Type 0} → List Event → Run E T → Run E T
preceded before r = record r { events = before ++ r.events }

-- `?` on the builder of a request.
unfoldable pub with_built :
    {E R T : Type 0} → E → Result R DomainParseError → (R → Run E T) → Run E T
with_built e (err x) next = failed e (parse x)
with_built e (ok r) next = next r

-- The parse of `await_signed`, for a parser with its error as text.
unfoldable pub read_signed :
    {T : Type 0} → (String → Result T String) → String → String → Result T CliError
read_signed from_str what raw =
    map_err (λ e. message ("wallet returned an invalid " +++ (what +++ (": " +++ e))))
      (from_str raw)

module _ {E T U : Type 0} (read : T → Result U CliError) (shown : U → List Event) where
  unfoldable pub concluded : Run E T → Option (Result U CliError) → Run E (Unit {0})
  concluded r none = record { engine = r.engine; events = r.events; result = none }
  concluded r (some (err x)) = record {
    engine = r.engine;
    events = r.events;
    result = some (err x);
  }
  concluded r (some (ok u)) = record {
    engine = r.engine;
    events = r.events ++ shown u;
    result = some (ok tt);
  }

  -- The end of a command: the answer is read, and the result shown.
  unfoldable pub conclude : Run E T → Run E (Unit {0})
  unfolding concluded
  conclude r = concluded r (Option.map (λ x. x >>= read) r.result)

module _ {R L Routes : Type 0} {serde : Serde} (net : Oneshot RequestResult) (q : Request serde R)
    (show_id : ℕ → String) (tcp : Tcp L) (open_mode : OpenMode)
    (wait : Engine R net Routes → Engine R net Routes) (elapsed : Bool) where
  unfoldable pub await_raw : Prepared → Engine R net Routes → Run (Engine R net Routes) String
  unfolding surface
  await_raw p e =
      let (answer, e') = poll net show_id p elapsed (wait e) in
      record {
        engine = e';
        events = surface open_mode e.browser p.url;
        result = Option.map (λ x. map_err signer x) answer;
      }

  unfoldable pub awaited :
      Result Prepared SignerError × Engine R net Routes → Run (Engine R net Routes) String
  unfolding await_raw
  awaited (err x, e) = failed e (signer x)
  awaited (ok p, e) = await_raw p e

  -- `signer.prepare` and `await_raw`.
  unfoldable pub approve : R → Engine R net Routes → Run (Engine R net Routes) String
  unfolding awaited
  approve r e = awaited (prepare net q show_id tcp r e)
