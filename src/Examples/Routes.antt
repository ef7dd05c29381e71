-- ===== src/Examples/Routes.antt =====
-- The test routes of an EVM bridge: a creation that is made, approved and reported.
use browser_web3_signer.Prelude.{ℕ, ◌≡◌, refl, false, Result, []}
use browser_web3_signer.Core.Types.{success}
use browser_web3_signer.Core.Config.{ephemeral}
use browser_web3_signer.Core.Browser.{print, build_url}
use browser_web3_signer.Core.Parse.{str_field, read_str, opt_parsed, read_opt}
use browser_web3_signer.Core.Store.{create}
use browser_web3_signer.Core.Store
use browser_web3_signer.Prelude.Dict.{lookup}
use browser_web3_signer.Evm.Domain.{call_data_text}
use browser_web3_signer.Core.Engine.{Engine, Prepared, map_result, prepare}
use browser_web3_signer.Core.Engine
use browser_web3_signer.Evm.Request.{EvmRequest, from_json, checked_send, url_kind}
use browser_web3_signer.Evm.Request.Account.{evm_request}
use browser_web3_signer.Harness.{
  HarnessState, create_request, run_task, test_result, as_outcome, pending_answer,
}
use browser_web3_signer.Harness.Laws.{posted, created_reported}
use browser_web3_signer.Examples.Json.{Json, serde, object, member, end, text}
use browser_web3_signer.Examples.Parts.{net, tcp, deps, show_id}
use browser_web3_signer.Examples.Evm.{creation_body}

abbrev started : HarnessState serde (EvmRequest serde deps) net ℕ
started = record { engine = Engine.new net "html" ephemeral print; results = [] }

abbrev made : Result (Json × Prepared) ℕ × HarnessState serde (EvmRequest serde deps) net ℕ
made = create_request serde net (evm_request serde deps show_id) show_id tcp 7 creation_body started

abbrev task : Prepared
task = record { id = 7; url = "http://127.0.0.1:50000/sign/id"; rx = 0 }

created_reported_example :
    (test_result serde net 7 made.1 ≡ pending_answer serde)
    × (test_result serde net 7 (
          run_task serde net show_id task false (
            posted (evm_request serde deps show_id) net show_id tcp task (success "0xhash") made.1))
        ≡ as_outcome serde (map_result (success "0xhash")))
unfolding create_request from_json str_field read_str opt_parsed read_opt call_data_text
    checked_send prepare Engine.new build_url create url_kind Store.new lookup
created_reported_example =
    created_reported (evm_request serde deps show_id) net show_id tcp 7 creation_body
      (object (member "id" (text (show_id 7)) end)) task started made.1 (success "0xhash") false
      refl refl
