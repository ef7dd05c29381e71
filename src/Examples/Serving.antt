-- ===== src/Examples/Serving.antt =====
-- The control API of a `serve --chain evm` process with an account configured.
use browser_web3_signer.Prelude.{ℕ, ◌≡◌, refl, String, true, false, some, Result, ok}
use browser_web3_signer.Core.Types.{success, expect_account}
use browser_web3_signer.Core.Config.{ephemeral}
use browser_web3_signer.Core.Browser.{print}
use browser_web3_signer.Core.Parse.{opt_parsed, str_field, read_str, read_opt}
use browser_web3_signer.Core.Store.{complete, create}
use browser_web3_signer.Core.Engine.{Engine, Prepared, submit, prepare}
use browser_web3_signer.Core.Engine
use browser_web3_signer.Core.Store
use browser_web3_signer.Prelude.Dict.{lookup, insert}
use browser_web3_signer.Core.Http.{Response, reply, json_error}
use browser_web3_signer.Evm.Domain.{address_text, wei_text, call_data_text}
use browser_web3_signer.Evm.Request.{EvmRequest, from_json, checked_send}
use browser_web3_signer.Evm.Request.Account.{
  account, with_account, expecting, evm_account, evm_request,
}
use browser_web3_signer.Serve.{request, handle_request, answer_response}
use browser_web3_signer.Serve.Bound.{IsFor, IsDenied}
use browser_web3_signer.Serve.Laws.{
  handle_request_served, handle_request_refused, handle_request_denies,
}
use browser_web3_signer.Serve.Evm.{request_pins_account}
use browser_web3_signer.Examples.Json.{serde, object, member, end, text, bool}
use browser_web3_signer.Examples.Parts.{net, tcp, deps, show_id}
use browser_web3_signer.Examples.Evm.{creation, creation_body}

abbrev pinned : EvmRequest serde deps
pinned = with_account serde deps (some "0x1") creation

pinned_request :
    request serde (evm_account serde deps show_id) (some "0x1") 7 creation_body ≡ ok pinned
unfolding request from_json opt_parsed str_field read_str read_opt address_text wei_text
    call_data_text checked_send expecting expect_account
pinned_request = refl

request_pins_account_example :
    (account serde deps pinned ≡ some "0x1")
    × (asked : EvmRequest serde deps) × (from_json serde deps 7 creation_body ≡ ok asked)
    × (pinned ≡ with_account serde deps (some "0x1") asked)
request_pins_account_example =
    request_pins_account serde deps show_id "0x1" 7 creation_body pinned pinned_request

abbrev engine : Engine (EvmRequest serde deps) net ℕ
engine = Engine.new net "html" ephemeral print

-- While the handler waits, the browser posts the hash.
abbrev approve : Engine (EvmRequest serde deps) net ℕ → Engine (EvmRequest serde deps) net ℕ
approve e = record e { store = (complete net 7 (success "0xhash") e.store).1 }

abbrev ended : Engine (EvmRequest serde deps) net ℕ
ended = (submit net (evm_request serde deps show_id) show_id tcp approve false pinned engine).1

abbrev sent : Response serde
sent = answer_response serde (ok "0xhash")

abbrev said : String → Response serde
said v = reply 200 (object (member "result" (text v) (member "success" (bool true) end)))

handle_request_served_example :
    (asked r : EvmRequest serde deps) × (v : String) × (from_json serde deps 7 creation_body
      ≡ ok asked)
    × IsFor (evm_account serde deps show_id) (some "0x1") asked r
    × (submit net (evm_request serde deps show_id) show_id tcp approve false r engine
        ≡ (some (ok v), ended))
    × (◌≡◌ {A = Result (Unit {0}) String} (ok tt) (ok tt))
    × (sent ≡ said v)
unfolding handle_request request answer_response submit complete create Engine.new lookup insert
    Store.new from_json opt_parsed str_field read_str read_opt address_text wei_text call_data_text
    checked_send expecting expect_account
handle_request_served_example =
    handle_request_served (evm_account serde deps show_id) net show_id tcp approve false
      (some "0x1") 7 creation_body engine ended sent refl refl

abbrev refusal : Response serde
refusal = json_error serde 400 "missing or non-string field 'type'"

handle_request_refused_example :
    (reason : String) × IsDenied
      (evm_account serde deps show_id)
      (some "0x1")
      (from_json serde deps 7 (object end))
      reason
    × (refusal ≡ reply 400 (object (member "error" (text reason) end)))
    × (engine ≡ engine)
unfolding handle_request request from_json str_field read_str read_opt json_error
handle_request_refused_example =
    handle_request_refused (evm_account serde deps show_id) net show_id tcp approve false
      (some "0x1") 7 (object end) engine engine refusal refl refl

-- A request that names another account than the configured one.
abbrev why : String
why = "the request names account 0x2, not the expected 0x1"

abbrev reason : String
reason = "the request names account 0x2, not the expected 0x1 (set by BROWSER_WEB3_EVM_ACCOUNT)"

handle_request_denies_example :
    handle_request serde
      (evm_account serde deps show_id)
      net
      show_id
      tcp
      approve
      false
      (some "0x1")
      7
      (object (member "type" (text "connect") (member "address" (text "0x2") end)))
      engine
    ≡ (some (reply 400 (object (member "error" (text reason) end))), engine)
unfolding from_json opt_parsed str_field read_str read_opt address_text expecting expect_account
handle_request_denies_example =
    handle_request_denies (evm_account serde deps show_id) net show_id tcp approve false
      (some "0x1") 7 (object (member "type" (text "connect") (member "address" (text "0x2") end)))
      engine reason (why, refl, refl)
