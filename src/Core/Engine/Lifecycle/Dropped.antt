-- ===== src/Core/Engine/Lifecycle/Dropped.antt =====
-- core/src/engine.rs: a dropped future, a cancellation and a post, as moves of a request's life.
use browser_web3_signer.Prelude.{ℕ, ◌≡◌, String, none, some, arith, ==_self, Option-cases, inl, inr}
use native.Mathlib.Decide.{ℕ_discrete}
use browser_web3_signer.Prelude.Dict.{lookup, erase, lookup-insert, lookup-erase}
use browser_web3_signer.Core.Json.{Serde}
use browser_web3_signer.Core.Types.{Uuid, Request, RequestResult}
use browser_web3_signer.Core.Oneshot.{Oneshot}
use browser_web3_signer.Core.Store.{Entry, complete, cancel}
use browser_web3_signer.Core.Engine.Bind.{Tcp}
use browser_web3_signer.Core.Engine.System.{System, with_store, posted}
use browser_web3_signer.Core.Engine.Reach.{IsConsistent}
use browser_web3_signer.Core.Engine.Lifecycle.{
  Phase, Cause, caller_left, in_time, own, absent, awaited, left, answered, withdrawn, lost, Move,
  stay, accept, accept_late, withdraw, withdraw_late, leave, leave_answer, leave_withdrawn,
  phase_of, phase,
}

module _ (show_id : ℕ → String) (id : Uuid) where
  pub between :
      {c : Cause} {p q : Phase} (p' q' : Phase)
      → p ≡ p'
      → q ≡ q'
      → Move show_id id c p' q'
      → Move show_id id c p q
  between p' q' a b m = rw (a, b) m

  pub unmoved : {c : Cause} (p q : Phase) → q ≡ p → Move show_id id c p q
  unmoved p q e = rw e (stay _ p)

module _ {R L Routes : Type 0} {json : Serde} (net : Oneshot RequestResult) (q : Request json R)
    (show_id : ℕ → String) (tcp : Tcp L) (id : Uuid) where
  open net use {recv, recv-send}

  abbrev pub Moved : Cause → System R net Routes → System R net Routes → Type 0
  Moved c s t = Move show_id id c (phase id s) (phase id t)

  module _ (s : System R net Routes) (v : IsConsistent net q show_id tcp s) where
    unended_waiting : (rx : ℕ) → lookup id s.waiting ≡ some rx → lookup id s.outcomes ≡ none
    unended_waiting rx h = elim (Option-cases (lookup id s.outcomes)) [
      | inl k ↦ k
      | inr (o, k) ↦ ground (arith, v.ended id o)
    ]

    unended_pending :
        (e : Entry R) → lookup id s.engine.store.pending ≡ some e → lookup id s.outcomes ≡ none
    unended_pending e h = elim (Option-cases (lookup id s.outcomes)) [
      | inl k ↦ k
      | inr (o, k) ↦ ground (arith, v.ended id o)
    ]

    pub unaccepted_pending :
        (e : Entry R) → lookup id s.engine.store.pending ≡ some e → lookup id s.accepted ≡ none
    unaccepted_pending e h = elim (Option-cases (lookup id s.accepted)) [
      | inl k ↦ k
      | inr (r, k) ↦ ground (arith, v.taken id r)
    ]

    drop_own : Moved caller_left s (record s { waiting = erase id s.waiting })
    unfolding phase phase_of
    drop_own = elim (Option-cases (lookup id s.waiting)) [
      | inl h ↦ unmoved show_id id _ _ (ground (arith, lookup-erase id id s.waiting))
      | inr (rx, h) ↦ elim (Option-cases (lookup id s.engine.store.pending)) [
        | inr (e, k) ↦
            between show_id id awaited left (ground arith)
              (ground (arith, lookup-erase id id s.waiting)) leave
        | inl k ↦ elim (Option-cases (lookup id s.accepted)) [
          | inr (r, a) ↦
              between show_id id (answered r) (lost r) (ground arith)
                (ground (arith, lookup-erase id id s.waiting, unended_waiting rx h))
                (leave_answer r)
          | inl a ↦
              between show_id id withdrawn absent (ground arith)
                (ground (arith, lookup-erase id id s.waiting, unended_waiting rx h)) leave_withdrawn
        ]
      ]
    ]

    pub drop_moves :
        (j : Uuid) → Moved (own j id caller_left) s (record s { waiting = erase j s.waiting })
    unfolding phase phase_of
    drop_moves j = elim (ℕ_discrete j id) [
      | yes e ↦ rw (e, ==_self id) drop_own
      | no n ↦ unmoved show_id id _ _ (ground (arith, lookup-erase j id s.waiting))
    ]

    cancel_own : Moved in_time s (with_store net q show_id tcp s (cancel net id s.engine.store).1)
    unfolding phase phase_of cancel
    cancel_own = elim (Option-cases (lookup id s.engine.store.pending)) [
      | inl k ↦ unmoved show_id id _ _ (ground (arith, lookup-erase id id s.engine.store.pending))
      | inr (e, k) ↦ elim (Option-cases (lookup id s.waiting)) [
        | inr (rx, h) ↦
            between show_id id awaited withdrawn (ground arith)
              (ground (arith, lookup-erase id id s.engine.store.pending, unaccepted_pending e k))
              withdraw
        | inl h ↦
            between show_id id left absent (ground arith)
              (ground (
                arith,
                lookup-erase id id s.engine.store.pending,
                unaccepted_pending e k,
                unended_pending e k,
              ))
              withdraw_late
      ]
    ]

    pub cancel_moves :
        (j : Uuid)
        → Moved in_time s (with_store net q show_id tcp s (cancel net j s.engine.store).1)
    unfolding phase phase_of cancel
    cancel_moves j = elim (ℕ_discrete j id) [
      | yes e ↦ rw e cancel_own
      | no n ↦ unmoved show_id id _ _ (ground (arith, lookup-erase j id s.engine.store.pending))
    ]

    post_own : (result : RequestResult) → Moved in_time s (posted net q show_id tcp id result s)
    unfolding phase phase_of complete
    post_own result = elim (Option-cases (lookup id s.engine.store.pending)) [
      | inl k ↦ unmoved show_id id _ _ (ground (arith, lookup-erase id id s.engine.store.pending))
      | inr (e, k) ↦ elim (Option-cases (lookup id s.waiting)) [
        | inr (rx, h) ↦
            between show_id id awaited (answered result) (ground arith)
              (ground (
                arith,
                lookup-erase id id s.engine.store.pending,
                lookup-insert id id result s.accepted,
              ))
              (accept result)
        | inl h ↦
            between show_id id left (lost result) (ground arith)
              (ground (
                arith,
                lookup-erase id id s.engine.store.pending,
                lookup-insert id id result s.accepted,
                unended_pending e k,
              ))
              (accept_late result)
      ]
    ]

    pub post_moves :
        (j : Uuid) (result : RequestResult) → Moved in_time s (posted net q show_id tcp j result s)
    unfolding phase phase_of complete
    post_moves j result = elim (ℕ_discrete j id) [
      | yes e ↦ rw e (post_own result)
      | no n ↦ unmoved show_id id _ _ (
          ground
            (arith, lookup-erase j id s.engine.store.pending, lookup-insert j id result s.accepted))
    ]
