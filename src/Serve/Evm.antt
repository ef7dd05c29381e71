-- ===== src/Serve/Evm.antt =====
-- serve.rs for EVM requests, with a configured account.
use browser_web3_signer.Prelude.{ℕ, ◌≡◌, String, some, ok, >>=-ok, map_err-ok}
use browser_web3_signer.Core.Json.{Serde}
use browser_web3_signer.Core.Types.{Uuid}
use browser_web3_signer.Evm.Deps.{Deps}
use browser_web3_signer.Evm.Request.{EvmRequest, from_json}
use browser_web3_signer.Evm.Request.Account.{
  account, with_account, expecting, evm_account, expecting_sound,
}
use browser_web3_signer.Serve.{request, bind_account}

module _ (json : Serde) (deps : Deps) (show_id : ℕ → String) where
  -- With an account configured, every request that the control API lets through names that account, and is the body's request in all else.
  pub request_pins_account :
      (a : Deps.Address deps) (fresh : Uuid) (body : Serde.Value json) (r : EvmRequest json deps)
      → request json (evm_account json deps show_id) (some a) fresh body ≡ ok r
      → (account json deps r ≡ some a)
        × (asked : EvmRequest json deps) × (from_json json deps fresh body ≡ ok asked)
        × (r ≡ with_account json deps (some a) asked)
  unfolding request bind_account
  request_pins_account a fresh body r h =
      let (asked, read, k) = >>=-ok (from_json json deps fresh body) _ h in
      let (named, same) =
        expecting_sound json deps asked r a (map_err-ok _ (expecting json deps asked a) k) in
      (named, asked, read, same)
