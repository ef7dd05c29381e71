-- ===== src/Core/Engine/Lifecycle/Refines.antt =====
-- core/src/engine.rs: the engine among its tasks follows the life of a request.
use browser_web3_signer.Prelude.{
  ℕ, ◌≡◌, refl, String, Bool, true, none, some, Result, err, arith, ==_self, subst, sym,
  Option-cases, inl, inr,
}
use native.Mathlib.Decide.{ℕ_discrete}
use browser_web3_signer.Prelude.Dict.{lookup, insert, erase, lookup-insert, lookup-erase}
use browser_web3_signer.Core.Json.{Serde}
use browser_web3_signer.Core.Errors.{SignerError, timeout, cancelled}
use browser_web3_signer.Core.Types.{Uuid, Request, RequestResult, success, error}
use browser_web3_signer.Core.Engine.Invariant.{reported}
use browser_web3_signer.Core.Oneshot.{Oneshot, Recv, pending, received, closed}
use browser_web3_signer.Core.Store.{create, cancel}
use browser_web3_signer.Core.Engine.Bind.{Tcp}
use browser_web3_signer.Core.Engine.{Engine, Prepared, map_result, settle, poll, finish, shutdown}
use browser_web3_signer.Core.Engine.Start.{start_with-store, prepare-ok, prepare-err}
use browser_web3_signer.Core.Engine.System
use browser_web3_signer.Core.Engine.System.{
  System, initial, with_store, posted, IsFresh, Step, prepared, unprepared, post, resolved, dropped,
  started, stopped, Reach, here, next,
}
use browser_web3_signer.Core.Engine.Reach.{IsConsistent, Reach-IsConsistent}
use browser_web3_signer.Core.Engine.Lifecycle.{
  Cause, in_time, own, polled, cause, absent, awaited, answered, withdrawn, ended, Move, stay,
  register, deliver, notice, expire, Moves, still, then, phase_of, phase,
}
use browser_web3_signer.Core.Engine.Lifecycle.Dropped.{
  between, unmoved, Moved, unaccepted_pending, drop_moves, cancel_moves, post_moves,
}

own_self : (j i : Uuid) (c : Cause) → j ≡ i → own j i c ≡ c
own_self j i c e = rw (e, ==_self i) refl

module _ {R L Routes : Type 0} {json : Serde} (net : Oneshot RequestResult) (q : Request json R)
    (show_id : ℕ → String) (tcp : Tcp L) (id : Uuid) where
  open net use {recv}

  abbrev Refined : Cause → System R net Routes → System R net Routes → Type 0
  Refined c s t = Moved net q show_id tcp id c s t

  module _ (s : System R net Routes) (v : IsConsistent net q show_id tcp s) where
    register_own :
        (r : R) (e : Engine R net Routes) (rx : ℕ)
        → IsFresh id s
        → e.store ≡ (create net id r s.engine.store).1
        → Refined in_time s (record s { engine = e; waiting = insert id rx s.waiting })
    unfolding phase phase_of create
    register_own r e rx fresh h =
        between show_id id absent awaited
          (ground (arith, fresh.no_entry, fresh.no_future, fresh.no_outcome, fresh.no_result))
          (ground (
            arith,
            lookup-insert id id rx s.waiting,
            lookup-insert id id (record { request = r; tx = s.engine.store.next })
                s.engine.store.pending,
          ))
          register

    register_moves :
        (j : Uuid) (r : R) (e : Engine R net Routes) (rx : ℕ)
        → IsFresh j s
        → e.store ≡ (create net j r s.engine.store).1
        → Refined in_time s (record s { engine = e; waiting = insert j rx s.waiting })
    unfolding phase phase_of create
    register_moves j r e rx fresh h = elim (ℕ_discrete j id) [
      | yes p ↦ rw p (register_own r e rx (rw p at fresh) (rw p at h))
      | no n ↦ unmoved show_id id _ _ (
          ground (
            arith,
            lookup-insert j id rx s.waiting,
            lookup-insert j id (record { request = r; tx = s.engine.store.next })
                s.engine.store.pending,
          ))
    ]

    -- The state after a future has resolved.
    abbrev settled : Prepared → Bool → Result String SignerError → System R net Routes
    settled p elapsed o = record s {
      engine = (poll net show_id p elapsed s.engine).1;
      waiting = erase p.id s.waiting;
      outcomes = insert p.id o s.outcomes;
    }

    withdrawn_closed :
        (rx : ℕ)
        → lookup id s.waiting ≡ some rx
        → lookup id s.engine.store.pending ≡ none
        → lookup id s.accepted ≡ none
        → (got : Recv RequestResult) → recv (s.engine.store.channels rx) ≡ got
        → got ≡ closed
    withdrawn_closed rx h k a pending g = ground (arith, v.answered id rx)
    withdrawn_closed rx h k a (received r) g = ground (arith, v.posted id rx r)
    withdrawn_closed rx h k a closed g = refl

    expired :
        (p : Prepared) (elapsed : Bool) (o : Result String SignerError)
        → recv (s.engine.store.channels p.rx) ≡ pending
        → (poll net show_id p elapsed s.engine).0 ≡ some o
        → (elapsed ≡ true) × (o ≡ err (timeout 300))
    unfolding poll settle
    expired p elapsed o g k = ground arith

    delivered :
        (p : Prepared) (elapsed : Bool) (o : Result String SignerError) (r : RequestResult)
        → recv (s.engine.store.channels p.rx) ≡ received r
        → (poll net show_id p elapsed s.engine).0 ≡ some o
        → reported o ≡ some r
    unfolding poll settle map_result
    delivered p elapsed o (success v) g k = ground arith
    delivered p elapsed o (error m c) g k = ground arith

    resolve_own :
        (p : Prepared) (elapsed : Bool) (o : Result String SignerError)
        → p.id ≡ id
        → lookup id s.waiting ≡ some p.rx
        → (poll net show_id p elapsed s.engine).0 ≡ some o
        → Refined (polled elapsed) s (settled p elapsed o)
    unfolding phase phase_of poll finish cancel settle
    resolve_own p elapsed o e h k = elim (Option-cases (lookup id s.engine.store.pending)) [
      | inr (x, i) ↦
          let (late, said) =
            expired p elapsed o (ground (arith, v.matched id p.rx x, v.stored.unsent id x)) k in
          subst (λ b. Refined (polled b) s (settled p elapsed o)) (sym late)
            (between show_id id awaited (ended (err (timeout 300))) (ground arith)
              (ground (
                arith,
                said,
                v.matched id p.rx x,
                v.stored.unsent id x,
                unaccepted_pending net q show_id tcp id s v x i,
                lookup-erase id id s.engine.store.pending,
                lookup-erase id id s.waiting,
                lookup-insert id id o s.outcomes,
              ))
              expire)
      | inl i ↦ elim (Option-cases (lookup id s.accepted)) [
        | inr (r, a) ↦
            between show_id id (answered r) (ended o) (ground arith)
              (ground (
                arith,
                v.delivered id p.rx r,
                lookup-erase id id s.engine.store.pending,
                lookup-erase id id s.waiting,
                lookup-insert id id o s.outcomes,
              ))
              (deliver _ r o (delivered p elapsed o r (v.delivered id p.rx r h a) k))
        | inl a ↦
            between show_id id withdrawn (ended (err (cancelled (show_id id)))) (ground arith)
              (ground (
                arith,
                withdrawn_closed p.rx h i a _ refl,
                lookup-erase id id s.engine.store.pending,
                lookup-erase id id s.waiting,
                lookup-insert id id o s.outcomes,
              ))
              (notice _)
      ]
    ]

    resolve_moves :
        (p : Prepared) (elapsed : Bool) (o : Result String SignerError)
        → lookup p.id s.waiting ≡ some p.rx
        → (poll net show_id p elapsed s.engine).0 ≡ some o
        → Refined (own p.id id (polled elapsed)) s (settled p elapsed o)
    unfolding phase phase_of poll finish cancel settle
    resolve_moves p elapsed o h k = elim (ℕ_discrete p.id id) [
      | yes e ↦
          subst (λ c. Refined c s (settled p elapsed o)) (sym (own_self p.id id (polled elapsed) e))
            (resolve_own p elapsed o e (rw e at h) k)
      | no n ↦ unmoved show_id id _ _ (
          ground (
            arith,
            lookup-erase p.id id s.waiting,
            lookup-insert p.id id o s.outcomes,
            lookup-erase p.id id s.engine.store.pending,
          ))
    ]

  -- A step of the engine and its tasks, in a consistent state, moves each request by at most one move of the specification. A request times out only at a poll of its own future past the deadline, and is left only by a drop of its own future; a future that ends in any other way reports the very result that the bridge accepted, or a cancellation.
  pub Step_refines_Move :
      {s t : System R net Routes}
      → IsConsistent net q show_id tcp s
      → (step : Step net q show_id tcp s t)
      → Move show_id id (cause id step) (phase id s) (phase id t)
  unfolding shutdown phase
  Step_refines_Move v (prepared s r p e fresh h) =
      let (same_id, same_rx, same_store) = prepare-ok net tcp q show_id r s.engine p e h in
      rw same_id (register_moves s v (q.id r) r e p.rx fresh same_store)
  Step_refines_Move v (unprepared s r x e h) =
      unmoved show_id id _ _ (rw (prepare-err net tcp q show_id r s.engine x e h) refl)
  Step_refines_Move v (post s j result) = post_moves net q show_id tcp id s v j result
  Step_refines_Move v (System.Step.cancelled s j) = cancel_moves net q show_id tcp id s v j
  Step_refines_Move v (resolved s p elapsed o h k) = resolve_moves s v p elapsed o h k
  Step_refines_Move v (dropped s j) = drop_moves net q show_id tcp id s v j
  Step_refines_Move v (started s extra) =
      unmoved show_id id _ _ (rw (start_with-store net tcp extra s.engine) refl)
  Step_refines_Move v (stopped s) = stay _ _

  pub Reach-Moves :
      {s t : System R net Routes}
      → IsConsistent net q show_id tcp s
      → Reach net q show_id tcp s t
      → Moves show_id id (phase id s) (phase id t)
  Reach-Moves v here = still
  Reach-Moves v (next run st) =
      then (Reach-Moves v run) (Step_refines_Move (Reach-IsConsistent net q show_id tcp run v) st)
