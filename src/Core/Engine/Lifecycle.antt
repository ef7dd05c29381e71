-- ===== src/Core/Engine/Lifecycle.antt =====
-- core/src/engine.rs and core/src/pending_store.rs: what the engine promises a caller about one request,
-- as a state machine that knows nothing of entries, channels and timers.
pub mod Dropped
pub mod Refines
use browser_web3_signer.Prelude.{
  ℕ, ◌≡◌, String, Bool, true, false, Option, none, some, Result, err, ◌==◌, if◌then◌else◌,
}
use browser_web3_signer.Core.Json.{Serde}
use browser_web3_signer.Core.Types.{Request}
use browser_web3_signer.Core.Engine.Bind.{Tcp}
use browser_web3_signer.Core.Engine.Invariant.{reported}
use browser_web3_signer.Prelude.Dict.{lookup}
use browser_web3_signer.Core.Errors.{SignerError, timeout, cancelled}
use browser_web3_signer.Core.Types.{Uuid, RequestResult}
use browser_web3_signer.Core.Oneshot.{Oneshot}
use browser_web3_signer.Core.Store.{Entry}
use browser_web3_signer.Core.Engine.System.{System, Step}

-- Where a request stands.
pub data Phase : Type 0 where
  -- No trace of it.
  absent : Phase
  -- The bridge serves it and its caller waits.
  awaited : Phase
  -- The bridge serves it and nobody waits.
  left : Phase
  -- The wallet's result is on its way to the caller.
  answered : RequestResult → Phase
  -- It was cancelled, which the caller has not yet seen.
  withdrawn : Phase
  -- The caller has its outcome.
  ended : Result String SignerError → Phase
  -- The wallet's result came, and nobody waits for it.
  lost : RequestResult → Phase

-- What a step is for one request.
pub data Cause : Type 0 where
  -- Its caller drops the future.
  caller_left : Cause
  -- Its future is polled past the deadline.
  past_deadline : Cause
  in_time : Cause

module _ (show_id : ℕ → String) (id : Uuid) where
  -- The moves of the specification, each with the causes that it can have.
  pub data Move : Cause → Phase → Phase → Type 0 where
    stay : (c : Cause) (p : Phase) → Move c p p
    register : Move in_time absent awaited
    accept : (r : RequestResult) → Move in_time awaited (answered r)
    accept_late : (r : RequestResult) → Move in_time left (lost r)
    withdraw : Move in_time awaited withdrawn
    withdraw_late : Move in_time left absent
    deliver :
        (c : Cause) (r : RequestResult) (o : Result String SignerError)
        → reported o ≡ some r
        → Move c (answered r) (ended o)
    notice : (c : Cause) → Move c withdrawn (ended (err (cancelled (show_id id))))
    expire : Move past_deadline awaited (ended (err (timeout 300)))
    leave : Move caller_left awaited left
    leave_answer : (r : RequestResult) → Move caller_left (answered r) (lost r)
    leave_withdrawn : Move caller_left withdrawn absent

  pub data Moves (p : Phase) : Phase → Type 0 where
    still : Moves p p
    then : {c : Cause} {q r : Phase} → Moves p q → Move c q r → Moves p r

-- The cause for `id` of a step on the future of `j`.
abbrev pub own : Uuid → Uuid → Cause → Cause
own j id c = if j == id then c else in_time

abbrev pub polled : Bool → Cause
polled true = past_deadline
polled false = in_time

module _ {R L Routes : Type 0} {json : Serde} {net : Oneshot RequestResult} {q : Request json R}
    {show_id : ℕ → String} {tcp : Tcp L} where
  abbrev pub cause : Uuid → {s t : System R net Routes} → Step net q show_id tcp s t → Cause
  cause id (Step.resolved s p elapsed o h k) = own p.id id (polled elapsed)
  cause id (Step.dropped s j) = own j id caller_left
  cause id _ = in_time

-- The phase that an entry, a future, an outcome and an accepted result show.
unfoldable pub phase_of :
    {R : Type 0}
    → Option (Entry R)
    → Option ℕ
    → Option (Result String SignerError)
    → Option RequestResult
    → Phase
phase_of (some e) (some rx) o a = awaited
phase_of (some e) none o a = left
phase_of none (some rx) o (some r) = answered r
phase_of none (some rx) o none = withdrawn
phase_of none none (some o) a = ended o
phase_of none none none (some r) = lost r
phase_of none none none none = absent

module _ {R Routes : Type 0} {net : Oneshot RequestResult} where
  unfoldable pub phase : Uuid → System R net Routes → Phase
  unfolding phase_of
  phase id s =
      phase_of (lookup id s.engine.store.pending) (lookup id s.waiting) (lookup id s.outcomes)
        (lookup id s.accepted)
