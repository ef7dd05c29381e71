-- ===== src/Examples/Engine.antt =====
-- A run of the engine: a connect request is registered, the browser posts a value, the future ends.
use browser_web3_signer.Prelude.{
  ℕ, ◌≡◌, refl, String, true, false, none, some, Result, ok, arith, [],
}
use browser_web3_signer.Prelude.Dict.{lookup, insert, erase}
use browser_web3_signer.Core.Errors.{SignerError}
use browser_web3_signer.Core.Config.{preferred}
use browser_web3_signer.Core.Browser.{print, build_url}
use browser_web3_signer.Core.Types.{Request, success, error}
use browser_web3_signer.Core.Store.{Store, Entry, create, complete, cancel, has}
use browser_web3_signer.Core.Store
use browser_web3_signer.Core.Engine.{
  Engine, Prepared, prepare, poll, submit, start_with, map_result,
}
use browser_web3_signer.Core.Engine
use browser_web3_signer.Core.Engine.System.{
  System, IsFresh, initial, posted, prepared, post, resolved, Reach, here, next,
}
use browser_web3_signer.Core.Engine.Reach.{IsConsistent, Reach-initial, initial-IsConsistent}
use browser_web3_signer.Core.Engine.Answers.{
  outcome_genuine, accepted_delivered, waiter_not_lost, Reach-accepted,
}
use browser_web3_signer.Core.Engine.Abandoned.{IsAbandoned, Reach-IsAbandoned}
use browser_web3_signer.Core.Engine.Lifecycle.{Move, in_time, awaited, phase}
use browser_web3_signer.Core.Engine.Lifecycle
use browser_web3_signer.Core.Engine.Lifecycle.Refines.{Step_refines_Move}
use browser_web3_signer.Core.Engine.Submit.{submit_genuine, deadline_ends}
use browser_web3_signer.Evm.Request.{EvmRequest, connect, url_kind}
use browser_web3_signer.Evm.Request.Account.{evm_request}
use browser_web3_signer.Examples.Json.{serde}
use browser_web3_signer.Examples.Parts.{net, tcp, deps, show_id}

abbrev R : Type 0
R = EvmRequest serde deps

abbrev q : Request serde R
q = evm_request serde deps show_id

abbrev r : R
r =
    connect (record { id = 7 })
      (record { chain_id = none; address = none; rpc_url = none; chain_name = none })

abbrev S : Type 0
S = System R net ℕ

abbrev new_system : S
new_system = initial net q show_id tcp "html" (preferred (record { get = 3847 })) print

abbrev p : Prepared
p = record { id = 7; url = "http://127.0.0.1:50000/connect/id"; rx = 0 }

abbrev registered : S
registered = record new_system {
  engine = (prepare net q show_id tcp r new_system.engine).1;
  waiting = insert 7 0 [];
}

abbrev answered : S
answered = posted net q show_id tcp 7 (success "0xabc") registered

abbrev finished : S
finished = record answered {
  engine = (poll net show_id p false answered.engine).1;
  waiting = erase 7 answered.waiting;
  outcomes = insert 7 (ok "0xabc") answered.outcomes;
}

new-IsFresh : IsFresh 7 new_system
unfolding Engine.new Store.new lookup
new-IsFresh = record { no_entry = refl; no_future = refl; no_outcome = refl; no_result = refl }

run_registered : Reach net q show_id tcp new_system registered
unfolding prepare Engine.new Store.new lookup build_url create url_kind
run_registered =
    next here
      (prepared new_system r p (prepare net q show_id tcp r new_system.engine).1 new-IsFresh refl)

run_answered : Reach net q show_id tcp new_system answered
run_answered = next run_registered (post registered 7 (success "0xabc"))

run_finished : Reach net q show_id tcp new_system finished
unfolding prepare poll complete Engine.new Store.new lookup insert erase create
run_finished = next run_answered (resolved answered p false (ok "0xabc") refl refl)

new_is_consistent : IsConsistent net q show_id tcp new_system
new_is_consistent =
    initial-IsConsistent ℕ net q show_id tcp "html" (preferred (record { get = 3847 })) print

Reach-initial_example : IsConsistent net q show_id tcp finished
Reach-initial_example =
    Reach-initial ℕ net q show_id tcp "html" (preferred (record { get = 3847 })) print run_finished

registered_is_consistent : IsConsistent net q show_id tcp registered
registered_is_consistent =
    Reach-initial ℕ net q show_id tcp "html" (preferred (record { get = 3847 })) print
      run_registered

Step_refines_Move_example : Move show_id 7 in_time awaited (Lifecycle.answered (success "0xabc"))
unfolding phase prepare complete Engine.new Store.new lookup insert erase create
Step_refines_Move_example =
    Step_refines_Move net q show_id tcp 7 registered_is_consistent
      (post registered 7 (success "0xabc"))

outcome_genuine_example :
    (lookup 7 finished.accepted ≡ some (success "0xabc"))
    × (has net 7 finished.engine.store ≡ false)
unfolding lookup insert
outcome_genuine_example =
    outcome_genuine net q show_id tcp run_finished new_is_consistent 7 (ok "0xabc")
      (success "0xabc") refl refl

-- The deadline has passed, and the accepted value still arrives.
accepted_delivered_example : (poll net show_id p true answered.engine).0 ≡ some (ok "0xabc")
unfolding map_result prepare complete Engine.new Store.new lookup insert erase create
accepted_delivered_example =
    accepted_delivered net q show_id tcp run_answered new_is_consistent p true (success "0xabc")
      refl refl

waiter_not_lost_example :
    (o : Result String SignerError) × ((poll net show_id p false answered.engine).0 ≡ some o)
unfolding has prepare complete Engine.new Store.new lookup insert erase create
waiter_not_lost_example =
    waiter_not_lost net q show_id tcp run_answered new_is_consistent p false refl refl

answered_is_consistent : IsConsistent net q show_id tcp answered
answered_is_consistent =
    Reach-initial ℕ net q show_id tcp "html" (preferred (record { get = 3847 })) print run_answered

-- The browser posts again.
abbrev reposted : S
reposted = posted net q show_id tcp 7 (error "no" none) answered

Reach-accepted_example : lookup 7 reposted.accepted ≡ some (success "0xabc")
unfolding prepare complete Engine.new Store.new lookup insert erase create
Reach-accepted_example =
    Reach-accepted net q show_id tcp (next here (post answered 7 (error "no" none)))
      answered_is_consistent 7 (success "0xabc") refl

-- The caller goes away, and another request's post changes nothing.
abbrev abandoned : S
abandoned = record registered { waiting = erase 7 registered.waiting }

abbrev entry : Entry R
entry = record { request = r; tx = 0 }

abandoned_served : IsAbandoned net q show_id tcp 7 entry abandoned
unfolding prepare Engine.new Store.new lookup insert erase create
abandoned_served = record { unawaited = refl; served = refl }

Reach-IsAbandoned_example :
    IsAbandoned net q show_id tcp 7 entry (posted net q show_id tcp 8 (success "") abandoned)
Reach-IsAbandoned_example =
    Reach-IsAbandoned net q show_id tcp 7 (next here (post abandoned 8 (success "")))
      (tt, omega arith) abandoned_served

submit_genuine_example : lookup 7 answered.accepted ≡ some (success "0xabc")
unfolding submit Engine.new build_url create url_kind Store.new lookup insert complete
submit_genuine_example =
    submit_genuine net q show_id tcp new_system answered r p registered.engine
      (λ e. answered.engine) false "0xabc" new_is_consistent new-IsFresh refl
      (next here (post registered 7 (success "0xabc"))) refl refl refl

-- Nobody answers.
deadline_ends_example :
    (o : Result String SignerError) × ((poll net show_id p true registered.engine).0 ≡ some o)
    × (has net 7 (poll net show_id p true registered.engine).1.store ≡ false)
unfolding prepare lookup insert
deadline_ends_example = deadline_ends net q show_id tcp registered p registered_is_consistent refl
