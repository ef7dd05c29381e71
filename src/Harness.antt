-- ===== src/Harness.antt =====
-- crates/browser-web3-signer/src/bin/common/harness.rs: the bridge with the routes of the end-to-end
-- suite, for the request type of any chain.
pub mod Laws
use browser_web3_signer.Prelude.{
  ℕ, String, Bool, true, false, Option, none, some, Result, ok, err, if◌then◌else◌,
}
use browser_web3_signer.Prelude.Dict.{Dict, lookup, insert}
use browser_web3_signer.Core.Json.{Serde}
use browser_web3_signer.Core.Errors.{SignerError, to_string}
use browser_web3_signer.Core.Types.{Uuid, Request, RequestResult}
use browser_web3_signer.Core.Config.{Port, ephemeral}
use browser_web3_signer.Core.Browser.{print}
use browser_web3_signer.Core.Oneshot.{Oneshot}
use browser_web3_signer.Core.Store.{has}
use browser_web3_signer.Core.Engine.{Engine, Prepared, prepare, poll, start_with}
use browser_web3_signer.Core.Engine
use browser_web3_signer.Core.Engine.Bind.{Tcp}

module _ (json : Serde) (R : Type 0) (net : Oneshot RequestResult) (Routes : Type 0) where
  pub record HarnessState : Type 0 where
    pub engine : Engine R net Routes
    pub results : Dict (Serde.Value json)

  -- What `create_request` answers, with the future that its spawned task awaits.
  abbrev pub Created : Type 0
  Created = Result (Serde.Value json × Prepared) ℕ × HarnessState

module _ (json : Serde) where
  open json use {Value, object, string, bool, null}

  unfoldable pub as_outcome : Result String SignerError → Value
  unfolding to_string
  as_outcome (ok v) = object (
      Serde.insert json "result" (string v)
        (Serde.insert json "success" (bool true) (Serde.empty json)))
  as_outcome (err e) = object (
      Serde.insert json "error" (string (to_string e))
        (Serde.insert json "success" (bool false) (Serde.empty json)))

  abbrev pub pending_answer : Value
  pending_answer = object (Serde.insert json "pending" (bool true) (Serde.empty json))

  unfoldable pub peeked : Option Value → Bool → Value
  peeked (some o) waits = o
  peeked none true = pending_answer
  peeked none false = null

  module _ {R Routes : Type 0} (net : Oneshot RequestResult) where
    unfoldable pub spawned :
        (ℕ → String)
        → Dict Value
        → Result Prepared SignerError × Engine R net Routes
        → Created json R net Routes
    spawned show_id results (err x, e) = (err 500, record { engine = e; results = results })
    spawned show_id results (ok p, e) = (
      ok (object (Serde.insert json "id" (string (show_id p.id)) (Serde.empty json)), p),
      record { engine = e; results = results },
    )

    module _ {L : Type 0} (q : Request json R) (show_id : ℕ → String) (tcp : Tcp L) where
      unfoldable pub create_parsed :
          Result R String → HarnessState json R net Routes → Created json R net Routes
      unfolding spawned
      create_parsed (err x) s = (err 400, s)
      create_parsed (ok r) s = spawned show_id s.results (prepare net q show_id tcp r s.engine)

      -- `POST /api/test/create-request`.
      unfoldable pub create_request :
          Uuid → Value → HarnessState json R net Routes → Created json R net Routes
      unfolding create_parsed
      create_request fresh body s = create_parsed (q.from_json fresh body) s

    unfoldable pub cached :
        Uuid
        → Dict Value
        → Option (Result String SignerError) × Engine R net Routes
        → HarnessState json R net Routes
    unfolding as_outcome
    cached id results (none, e) = record { engine = e; results = results }
    cached id results (some o, e) = record {
      engine = e;
      results = insert id (as_outcome o) results;
    }

    -- One poll of the task that `create_request` spawned.
    unfoldable pub run_task :
        (ℕ → String)
        → Prepared
        → Bool
        → HarnessState json R net Routes
        → HarnessState json R net Routes
    unfolding cached
    run_task show_id p elapsed s = cached p.id s.results (poll net show_id p elapsed s.engine)

    -- `GET /api/test/result/{id}`.
    unfoldable pub test_result : Uuid → HarnessState json R net Routes → Value
    unfolding peeked
    test_result id s = peeked (lookup id s.results) (has net id s.engine.store)

    -- The start of the process: the port that it prints, with the bridge that serves.
    unfoldable pub run :
        {L : Type 0} → Tcp L → Routes → String → Result Port SignerError × Engine R net Routes
    run tcp extra web_ui = start_with net tcp (some extra) (Engine.new net web_ui ephemeral print)
