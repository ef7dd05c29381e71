-- ===== src/Core/Engine/Answers.antt =====
-- core/src/engine.rs: what a caller can rely on across the runs of the engine.
use browser_web3_signer.Prelude.{ℕ, ◌≡◌, ◌≢◌, refl, String, Bool, true, false, some, Result, arith}
use browser_web3_signer.Prelude.Dict.{lookup, lookup-insert}
use browser_web3_signer.Core.Json.{Serde}
use browser_web3_signer.Core.Errors.{SignerError}
use browser_web3_signer.Core.Types.{Uuid, Request, RequestResult}
use browser_web3_signer.Core.Oneshot.{Oneshot, Recv, pending, received, closed}
use browser_web3_signer.Core.Store.{complete, has}
use browser_web3_signer.Core.Engine.Bind.{Tcp}
use browser_web3_signer.Core.Engine.{Engine, Prepared, poll, settle, map_result}
use browser_web3_signer.Core.Engine.Invariant.{reported}
use browser_web3_signer.Core.Engine.Settle.{settle_elapsed}
use browser_web3_signer.Core.Engine.System.{
  System, Step, prepared, unprepared, post, cancelled, resolved, dropped, started, stopped, Reach,
  here, next,
}
use browser_web3_signer.Core.Engine.Reach.{IsConsistent, Reach-IsConsistent}

module _ {R L Routes : Type 0} {json : Serde} (net : Oneshot RequestResult) (q : Request json R)
    (show_id : ℕ → String) (tcp : Tcp L) where
  -- Of two steps of a run, the later one never changes what was accepted for a request.
  Step-accepted :
      {s t : System R net Routes}
      → Step net q show_id tcp s t
      → IsConsistent net q show_id tcp s
      → (id : Uuid) (r : RequestResult) → lookup id s.accepted ≡ some r
      → lookup id t.accepted ≡ some r
  unfolding complete
  Step-accepted (prepared s r p e fresh h) v id x k = k
  Step-accepted (unprepared s r x e h) v id y k = k
  Step-accepted (post s j result) v id x k =
      ground (arith, v.taken id x, lookup-insert j id result s.accepted)
  Step-accepted (cancelled s j) v id x k = k
  Step-accepted (resolved s p elapsed o h e) v id x k = k
  Step-accepted (dropped s j) v id x k = k
  Step-accepted (started s extra) v id x k = k
  Step-accepted (stopped s) v id x k = k

  -- From a consistent state, a run keeps every result that the bridge has accepted: no later request of the browser replaces it.
  pub Reach-accepted :
      {s t : System R net Routes}
      → Reach net q show_id tcp s t
      → IsConsistent net q show_id tcp s
      → (id : Uuid) (r : RequestResult) → lookup id s.accepted ≡ some r
      → lookup id t.accepted ≡ some r
  Reach-accepted here v id x k = k
  Reach-accepted (next r st) v id x k =
      Step-accepted st (Reach-IsConsistent net q show_id tcp r v) id x (Reach-accepted r v id x k)

  module _ {s t : System R net Routes} (run : Reach net q show_id tcp s t)
      (start : IsConsistent net q show_id tcp s) where
    consistent : IsConsistent net q show_id tcp t
    consistent = Reach-IsConsistent net q show_id tcp run start

    -- After any run from a consistent state: an outcome that reports a result of the wallet (a value, or a rejection) reports the one that the bridge accepted for that request, and the request is gone from the store.
    pub outcome_genuine :
        (id : Uuid) (o : Result String SignerError) (r : RequestResult)
        → lookup id t.outcomes ≡ some o
        → reported o ≡ some r
        → (lookup id t.accepted ≡ some r) × (has net id t.engine.store ≡ false)
    unfolding has consistent
    outcome_genuine id o r h k =
        (consistent.genuine id o r h k, ground (arith, (consistent.ended id o h).0))

    -- After any run from a consistent state: a result that the bridge accepted while the future waits is what the future's next poll gives, also past the deadline.
    pub accepted_delivered :
        (p : Prepared) (elapsed : Bool) (r : RequestResult)
        → lookup p.id t.waiting ≡ some p.rx
        → lookup p.id t.accepted ≡ some r
        → (poll net show_id p elapsed t.engine).0 ≡ some (map_result r)
    unfolding poll settle
    accepted_delivered p elapsed r h k = rw (consistent.delivered p.id p.rx r h k) refl

    -- After any run from a consistent state: a waiting future whose request is no longer in the store resolves at its next poll, before the deadline too.
    pub waiter_not_lost :
        (p : Prepared) (elapsed : Bool)
        → lookup p.id t.waiting ≡ some p.rx
        → has net p.id t.engine.store ≡ false
        → (o : Result String SignerError) × ((poll net show_id p elapsed t.engine).0 ≡ some o)
    unfolding poll settle has
    waiter_not_lost p elapsed h k =
        answer (Oneshot.recv net (t.engine.store.channels p.rx))
          (consistent.answered p.id p.rx h (ground arith))
      where
        answer :
            (got : Recv RequestResult)
            → got ≢ pending
            → (o : Result String SignerError) × (settle show_id p.id elapsed got ≡ some o)
        answer (received r) ne = (_, refl)
        answer closed ne = (_, refl)
        answer pending ne = absurd (ne refl)

  -- A poll past the deadline ends the future.
  pub poll_deadline :
      (p : Prepared) (e : Engine R net Routes)
      → (o : Result String SignerError) × ((poll net show_id p true e).0 ≡ some o)
  unfolding poll
  poll_deadline p e = settle_elapsed show_id p.id true _
