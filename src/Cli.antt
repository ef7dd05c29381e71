-- ===== src/Cli.antt =====
-- crates/browser-web3-signer/src/main.rs and output.rs: the options of every command, what a command
-- shows, and how it ends. `clap` reads the command line, so a command starts from parsed arguments.
pub mod Flow
pub mod Evm
pub mod Btc
pub mod Tron
pub mod Serve
use Prim.Native.String.{◌++◌}
use browser_web3_signer.Prelude.{
  String, Bool, Option, none, some, List, [], ◌∷◌, map, Result, unwrap_or, if◌then◌else◌,
}
use browser_web3_signer.Core.Json.{Serde}
use browser_web3_signer.Core.Errors.{SignerError}
use browser_web3_signer.Core.Parse.{DomainParseError}
use browser_web3_signer.Core.Browser.{BrowserChoice}

pub data OutputFormat : Type 0 where
  text json : OutputFormat

pub data OpenMode : Type 0 where
  default print_only : OpenMode

pub record GlobalOpts : Type 0 where
  pub print : Bool
  pub json : Bool

unfoldable pub output : GlobalOpts → OutputFormat
output o = if o.json then json else text

unfoldable pub open_mode : GlobalOpts → OpenMode
open_mode o = if o.print then print_only else default

unfoldable pub browser_choice : OpenMode → BrowserChoice
browser_choice default = BrowserChoice.default
browser_choice print_only = BrowserChoice.print

pub record CliContext : Type 0 where
  pub output : OutputFormat
  pub opens : OpenMode

-- The context that `main` derives from the options.
unfoldable pub context_of : GlobalOpts → CliContext
unfolding output open_mode
context_of o = record { output = output o; opens = open_mode o }

-- `anyhow::Error`: an error of the signer or of a parser, a message, an error under a context, and the
-- panic of `unreachable!`.
pub data CliError : Type 0 where
  signer : SignerError → CliError
  parse : DomainParseError → CliError
  message : String → CliError
  context : (what : String) (cause : String) → CliError
  unreachable : String → CliError

-- What a command does outside: a line to stderr, a URL for the system's browser, a line to stdout.
pub data Event : Type 0 where
  progress : String → Event
  opening : String → Event
  line : String → Event

-- What the program takes from outside: `to_string_pretty`, the files, and `Url::parse` with `.ok()`, a
-- URL by the text that it displays.
pub record Host (serde : Serde) : Type 0 where
  pub pretty : Serde.Value serde → Option String
  pub read_file : String → Result String String
  pub url : String → Option String

module _ {serde : Serde} (host : Host serde) where
  open serde use {Value, null, string}

  -- `output::json`.
  unfoldable pub print_json : Value → Event
  print_json v = line (unwrap_or (host.pretty v) "")

  -- The result of a command, in the format of the context.
  unfoldable pub emit : OutputFormat → List String → Value → List Event
  unfolding print_json
  emit text lines v = map line lines
  emit json lines v = print_json v ∷ []

  -- An `Option` in `json!`, and as lines with a label.
  unfoldable pub optional : Option String → Value
  optional none = null
  optional (some s) = string s

-- The line of an explorer's page, if there is one.
unfoldable pub explorer_line : Option String → List String
explorer_line none = []
explorer_line (some page) = ("Explorer: " ++ page) ∷ []

-- A run of a command so far: the engine after it, its events in order, and its result once it has one.
pub record Run (E T : Type 0) : Type 0 where
  pub engine : E
  pub events : List Event
  pub result : Option (Result T CliError)
