-- ===== src/Core/Engine/Submit.antt =====
-- core/src/engine.rs: `submit` among the other tasks, and the deadline of a future.
use browser_web3_signer.Prelude.{ℕ, ◌≡◌, refl, String, Bool, true, false, some, Result, ok, arith}
use browser_web3_signer.Prelude.Dict.{lookup, insert, lookup-insert}
use browser_web3_signer.Core.Json.{Serde}
use browser_web3_signer.Core.Errors.{SignerError}
use browser_web3_signer.Core.Types.{Request, RequestResult, success}
use browser_web3_signer.Core.Oneshot.{Oneshot}
use browser_web3_signer.Core.Store.{has}
use browser_web3_signer.Core.Engine.Bind.{Tcp}
use browser_web3_signer.Core.Engine.{Engine, Prepared, prepare, poll, submit, await}
use browser_web3_signer.Core.Engine.Settle.{settle-reported}
use browser_web3_signer.Core.Engine.Answers.{poll_deadline}
use browser_web3_signer.Core.Engine.System.{System, IsFresh, prepared, resolved, Reach}
use browser_web3_signer.Core.Engine.Start.{prepare-ok}
use browser_web3_signer.Core.Engine.Reach.{IsConsistent, Step-IsConsistent, Reach-IsConsistent}

module _ {R L Routes : Type 0} {json : Serde} (net : Oneshot RequestResult) (q : Request json R)
    (show_id : ℕ → String) (tcp : Tcp L) where
  -- The state after a request is registered, with its future waiting.
  abbrev pub registered : System R net Routes → Prepared → Engine R net Routes → System R net Routes
  registered s p e = record s { engine = e; waiting = insert p.id p.rx s.waiting }

  poll_genuine :
      (t : System R net Routes) (p : Prepared) (elapsed : Bool) (raw : String)
      → IsConsistent net q show_id tcp t
      → lookup p.id t.waiting ≡ some p.rx
      → (poll net show_id p elapsed t.engine).0 ≡ some (ok raw)
      → lookup p.id t.accepted ≡ some (success raw)
  unfolding poll
  poll_genuine t p elapsed raw v h k =
      v.posted p.id p.rx (success raw) h
        (settle-reported show_id p.id elapsed _ (ok raw) (success raw) k refl)

  module _ (s t : System R net Routes) (r : R) (p : Prepared) (e : Engine R net Routes)
      (wait : Engine R net Routes → Engine R net Routes) (elapsed : Bool) (raw : String) where
    -- The value that a submission gives is the one that the bridge accepted for its very request: whatever the other tasks do while it waits, in a run from the registration in a consistent state to the last poll, no other request's result reaches it.
    pub submit_genuine :
        IsConsistent net q show_id tcp s
        → IsFresh (q.id r) s
        → prepare net q show_id tcp r s.engine ≡ (ok p, e)
        → Reach net q show_id tcp (registered s p e) t
        → wait e ≡ t.engine
        → lookup p.id t.waiting ≡ some p.rx
        → (submit net q show_id tcp wait elapsed r s.engine).0 ≡ some (ok raw)
        → lookup (q.id r) t.accepted ≡ some (success raw)
    unfolding submit await
    submit_genuine v fresh h run same waits k =
        let before = Step-IsConsistent net q show_id tcp (prepared s r p e fresh h) v in
        let after = Reach-IsConsistent net q show_id tcp run before in
        let (same_id, _, _) = prepare-ok net tcp q show_id r s.engine p e h in
        rw same_id at (poll_genuine t p elapsed raw after waits (rw (h, same) at k))

  -- At its deadline every future that waits in a consistent state ends, with the result or with an error, and its request is no longer in the store.
  pub deadline_ends :
      (s : System R net Routes) (p : Prepared)
      → IsConsistent net q show_id tcp s
      → lookup p.id s.waiting ≡ some p.rx
      → (o : Result String SignerError) × ((poll net show_id p true s.engine).0 ≡ some o)
        × (has net p.id (poll net show_id p true s.engine).1.store ≡ false)
  unfolding has
  deadline_ends s p v h =
      let (o, k) = poll_deadline net q show_id tcp p s.engine in
      let after = Step-IsConsistent net q show_id tcp (resolved s p true o h k) v in
      (
        o,
        k,
        ground (
          arith,
          (after.ended p.id o (rw (lookup-insert p.id p.id o s.outcomes) (ground arith))).0,
        ),
      )
