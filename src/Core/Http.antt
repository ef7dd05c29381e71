-- ===== src/Core/Http.antt =====
-- core/src/http.rs: the handlers of the bridge. `axum` finds the handler and reads the path's id and
-- the body; a handler's answer is its status, headers and body.
pub mod Laws
use browser_web3_signer.Prelude.{
  ℕ, String, Bool, true, false, Option, none, some, List, [], ◌∷◌, if◌then◌else◌,
}
use browser_web3_signer.Core.Json.{Serde}
use browser_web3_signer.Core.Types.{Uuid, Request, RequestResult, CompleteApiRequest, from_body}
use browser_web3_signer.Core.Oneshot.{Oneshot}
use browser_web3_signer.Core.Store.{Store, get, has, complete, len}

pub data Body (json : Serde) : Type 0 where
  json_body : Serde.Value json → Body json
  text_body : String → Body json

pub record Response (json : Serde) : Type 0 where
  pub status : ℕ
  pub headers : List (String × String)
  pub body : Body json

-- `Json(value)` with a status.
abbrev pub reply : {json : Serde} → ℕ → Serde.Value json → Response json
reply status v = record { status = status; headers = []; body = json_body v }

module _ (json : Serde) where
  open json use {Value, object, insert, empty, string, bool, u64}

  unfoldable pub json_error : ℕ → String → Response json
  json_error status message = reply status (object (insert "error" (string message) empty))

  -- A page or script that is embedded in the binary.
  unfoldable pub embedded : String → String → Response json
  embedded content_type text = record {
    status = 200;
    headers = ("content-type", content_type) ∷ ("cache-control", "no-cache") ∷ [];
    body = text_body text;
  }

  unfoldable pub serve_app_core : String → Response json
  unfolding embedded
  serve_app_core js = embedded "application/javascript; charset=utf-8" js

  unfoldable pub serve_app_core_css : String → Response json
  unfolding embedded
  serve_app_core_css css = embedded "text/css; charset=utf-8" css

  unfoldable pub serve_index : String → Response json
  unfolding embedded
  serve_index html = embedded "text/html" html

  module _ {R : Type 0} (net : Oneshot RequestResult) where
    unfoldable pub found : Request json R → Option R → Response json
    unfolding json_error
    found q none = json_error 404 "Request not found"
    found q (some r) = reply 200 (object (insert "request" (q.to_value r) empty))

    unfoldable pub get_pending : Request json R → Uuid → Store R net → Response json
    unfolding found
    get_pending q id s = found q (get net id s)

    unfoldable pub completed : Bool × Store R net → Response json × Store R net
    unfolding json_error
    completed (true, s) = (reply 200 (object (insert "ok" (bool true) empty)), s)
    completed (false, s) = (json_error 500 "Failed to complete request", s)

    -- `between` is what other handlers and futures do to the store between the two locks.
    unfoldable pub post_complete :
        (Store R net → Store R net)
        → Uuid
        → CompleteApiRequest
        → Store R net
        → Response json × Store R net
    unfolding completed json_error
    post_complete between id body s =
        if has net id s
        then completed (complete net id (from_body body) (between s))
        else (json_error 404 "Request not found", between s)

    unfoldable pub get_health : String → Store R net → Response json
    get_health version s = reply 200 (
        object (
          insert "version" (string version)
            (insert "pendingRequests" (u64 (len net s)) (insert "status" (string "ok") empty))))
