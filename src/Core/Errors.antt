-- ===== src/Core/Errors.antt =====
-- core/src/errors.rs
use browser_web3_signer.Prelude.{ℕ, String, Bool, false, Option, none, some, str_eq}
use Prim.Native.String.{◌++◌}
use browser_web3_signer.Prelude.Decimal.{decimal}

-- The constant of `mod code`.
abbrev pub wrong_wallet_address : String
wrong_wallet_address = "WRONG_WALLET_ADDRESS"

pub data SignerError : Type 0 where
  rejected : (message : String) (code : Option String) → SignerError
  timeout : ℕ → SignerError
  cancelled : String → SignerError
  http : String → SignerError
  rpc : String → SignerError
  invalid : String → SignerError

-- `Display`, which `thiserror` derives from the attributes.
unfoldable pub to_string : SignerError → String
unfolding decimal
to_string (rejected message code) = message
to_string (timeout secs) = "request timed out after " ++ (decimal secs ++ " seconds")
to_string (cancelled id) = "request cancelled: " ++ id
to_string (http e) = "http server error: " ++ e
to_string (rpc e) = "rpc error: " ++ e
to_string (invalid e) = "invalid input: " ++ e

abbrev pub code : SignerError → Option String
code (rejected message c) = c
code _ = none

abbrev pub is_wrong_wallet_address : SignerError → Bool
is_wrong_wallet_address (rejected message (some c)) = str_eq c wrong_wallet_address
is_wrong_wallet_address _ = false
