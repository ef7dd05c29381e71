-- ===== src/Cli/Btc/Command.antt =====
-- crates/browser-web3-signer/src/btc.rs: the arguments of the Bitcoin subcommands, and a PSBT that is read
-- from them.
use Prim.Native.String.{◌++◌}
use browser_web3_signer.Prelude.{
  ℕ, String, Bool, Option, none, some, List, [], ◌∷◌, Result, ok, err, ◌>>=◌, map_err,
}
use browser_web3_signer.Btc.Deps.{Deps}
use browser_web3_signer.Btc.Domain.{
  BtcNetwork, Sats, SatPerVb, MessageProtocol, UncheckedAddress, PsbtData, psbt_from_str,
}
use browser_web3_signer.Cli.{CliError, parse, message, context}

-- What the command line takes from the `bitcoin` crate besides: `Display` of a key and of a signature,
-- and the number of a transaction's outputs.
pub record Display (deps : Deps) : Type 0 where
  pub show_public_key : Deps.PublicKey deps → String
  pub show_signature : Deps.Bytes deps → String
  pub outputs : Deps.Psbt deps → ℕ

module _ (deps : Deps) where
  pub data BtcCommand : Type 0 where
    connect : (network : Option BtcNetwork) (address : Option (UncheckedAddress deps)) → BtcCommand
    send :
        (to : UncheckedAddress deps)
        → (amount : Sats) → (from : Option (UncheckedAddress deps)) (fee_rate : Option SatPerVb)
        → (network : Option BtcNetwork) → BtcCommand
    sign_psbt :
        (psbt : Option (PsbtData deps)) (psbt_file : Option String)
        → (sign_inputs : List ℕ) → (finalize broadcast : Bool)
        → (from : Option (UncheckedAddress deps)) (network : Option BtcNetwork) → BtcCommand
    sign_message :
        (message : String)
        → (address : Option (UncheckedAddress deps)) → MessageProtocol
        → (network : Option BtcNetwork) → BtcCommand

  -- A PSBT from the argument, or from the file.
  unfoldable pub read_psbt :
      (String → Result String String)
      → Option (PsbtData deps)
      → Option String
      → Result (PsbtData deps) CliError
  read_psbt read_file (some p) file = ok p
  read_psbt read_file none none = err (message "one of --psbt / --psbt-file is required")
  read_psbt read_file none (some path) = do
    contents ← map_err (context ("reading PSBT file " ++ path)) (read_file path)
    map_err parse (psbt_from_str deps contents)

  -- `(!sign_inputs.is_empty()).then_some(sign_inputs)`.
  unfoldable pub some_inputs : List ℕ → Option (List ℕ)
  some_inputs [] = none
  some_inputs (i ∷ is) = some (i ∷ is)
