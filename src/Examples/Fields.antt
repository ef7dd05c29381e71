-- ===== src/Examples/Fields.antt =====
-- The bridge's answer to a post.
use browser_web3_signer.Prelude.{◌≡◌, refl, true, none, some, if◌then◌else◌}
use browser_web3_signer.Core.Types.{CompleteApiRequest, success}
use browser_web3_signer.Prelude.Dict.{lookup, insert}
use browser_web3_signer.Core.Oneshot.{Oneshot, received}
use browser_web3_signer.Core.Store.{Store, Entry, create, complete, has}
use browser_web3_signer.Core.Store
use browser_web3_signer.Core.Http.{Response, reply, post_complete}
use browser_web3_signer.Core.Http.Laws.{post_complete_answers, post_complete_delivers}
use browser_web3_signer.Evm.Request.{EvmRequest, connect}
use browser_web3_signer.Examples.Json.{serde, object, member, end, text, bool}
use browser_web3_signer.Examples.Parts.{net, deps}

abbrev R : Type 0
R = EvmRequest serde deps

abbrev r : R
r =
    connect (record { id = 7 })
      (record { chain_id = none; address = none; rpc_url = none; chain_name = none })

abbrev store : Store R net
store = (create net 7 r (Store.new net)).1

abbrev body : CompleteApiRequest
body = record { success = true; result = some "0xabc"; error = none; code = none }

post_complete_answers_example : post_complete serde net (λ s. s) 7 body store ≡ (
    if has net 7 store
    then if has net 7 store
      then (
        reply 200 (object (member "ok" (bool true) end)),
        (complete net 7 (success "0xabc") store).1,
      )
      else (reply 500 (object (member "error" (text "Failed to complete request") end)), store)
    else (reply 404 (object (member "error" (text "Request not found") end)), store))
post_complete_answers_example = post_complete_answers serde net (λ s. s) 7 body store

abbrev entry : Entry R
entry = record { request = r; tx = 0 }

abbrev after : Response serde × Store R net
after = post_complete serde net (λ s. s) 7 body store

post_complete_delivers_example :
    (after.0 ≡ reply 200 (object (member "ok" (bool true) end)))
    × (lookup 7 after.1.pending ≡ none)
    × (Oneshot.recv net (after.1.channels 0) ≡ received (success "0xabc"))
unfolding create Store.new lookup insert has
post_complete_delivers_example =
    post_complete_delivers serde net (λ s. s) 7 body store entry refl refl refl
