-- ===== src/Serve.antt =====
-- crates/browser-web3-signer/src/serve.rs: the control API of a `serve` process.
pub mod Bound
pub mod Laws
pub mod Evm
pub mod Btc
use Prim.Native.String.{◌++◌}
use browser_web3_signer.Prelude.{
  ℕ, String, Bool, true, false, Option, none, some, Result, ok, err, ◌>>=◌, ◌>>◌, map_err,
}
use browser_web3_signer.Core.Json.{Serde}
use browser_web3_signer.Core.Errors.{SignerError, rejected, timeout, cancelled, invalid, to_string}
use browser_web3_signer.Core.Errors
use browser_web3_signer.Core.Config.{Var, account_from_env}
use browser_web3_signer.Core.Types.{Uuid, Request, ExpectedAccount, RequestResult, put_opt}
use browser_web3_signer.Core.Oneshot.{Oneshot}
use browser_web3_signer.Core.Store.{len}
use browser_web3_signer.Core.Engine.{Engine, submit}
use browser_web3_signer.Core.Engine.Bind.{Tcp}
use browser_web3_signer.Core.Http.{Response, reply, json_error}

unfoldable pub error_status : SignerError → ℕ
error_status (rejected message code) = 409
error_status (timeout secs) = 409
error_status (cancelled id) = 409
error_status _ = 500

module _ (json : Serde) where
  open json use {object, insert, empty, string, bool}

  unfoldable pub signer_error_response : SignerError → Response json
  unfolding error_status to_string
  signer_error_response e = reply (error_status e) (
      object (
        put_opt json string "code" (Errors.code e)
          (insert "error" (string (to_string e)) (insert "success" (bool false) empty))))

  unfoldable pub answer_response : Result String SignerError → Response json
  unfolding signer_error_response
  answer_response (ok result) =
      reply 200 (object (insert "result" (string result) (insert "success" (bool true) empty)))
  answer_response (err e) = signer_error_response e

module _ (json : Serde) {R A : Type 0} (x : ExpectedAccount json R A) where
  open json use {Value, object, insert, empty, string, u64}

  -- `ExpectedAccount::configured_account`, which `ControlState::configured` calls at startup.
  unfoldable pub configured : (String → String) → Var → Result (Option A) String
  configured show_not_unicode var =
      account_from_env x.parse_account show_not_unicode x.account_env var

  unfoldable pub bind_account : Option A → R → Result R String
  bind_account none r = ok r
  bind_account (some a) r =
      map_err (λ reason. reason ++ (" (set by " ++ (x.account_env ++ ")"))) (x.expecting r a)

  -- `ControlState::request`.
  unfoldable pub request : Option A → Uuid → Value → Result R String
  unfolding bind_account
  request account fresh body = do r ← x.request.from_json fresh body; bind_account account r

  -- The wallet's answer, checked against the request that was sent.
  unfoldable pub check_answer : R → Result String SignerError → Result String SignerError
  check_answer sent answer = do
    result ← answer
    map_err invalid (x.request.check_result sent result)
    ok result

  module _ {L Routes : Type 0} (net : Oneshot RequestResult) (show_id : ℕ → String)
      (tcp : Tcp L) where
    unfoldable pub answered :
        R
        → Option (Result String SignerError) × Engine R net Routes
        → Option (Response json) × Engine R net Routes
    unfolding answer_response check_answer
    answered sent (none, e) = (none, e)
    answered sent (some answer, e) = (some (answer_response json (check_answer sent answer)), e)

    unfoldable pub dispatch :
        (Engine R net Routes → Engine R net Routes)
        → Bool
        → Result R String
        → Engine R net Routes
        → Option (Response json) × Engine R net Routes
    unfolding json_error submit answered
    dispatch env elapsed (err reason) e = (some (json_error json 400 reason), e)
    dispatch env elapsed (ok r) e = answered r (submit net x.request show_id tcp env elapsed r e)

    -- `env` and `elapsed` are the other tasks during the wait and the deadline, as for `submit`;
    -- `none` is a handler that still waits.
    unfoldable pub handle_request :
        (Engine R net Routes → Engine R net Routes)
        → Bool
        → Option A
        → Uuid
        → Value
        → Engine R net Routes
        → Option (Response json) × Engine R net Routes
    unfolding dispatch request
    handle_request env elapsed account fresh body e =
        dispatch env elapsed (request account fresh body) e

    unfoldable pub handle_health : Engine R net Routes → Response json
    handle_health e = reply 200 (
        object
          (insert "pendingRequests" (u64 (len net e.store)) (insert "status" (string "ok") empty)))
