-- ===== src/Core/Http/Laws.antt =====
-- What the bridge answers, and what an answer leaves in the store.
use browser_web3_signer.Prelude.{
  none, some, unwrap_or, ==_self, ◌≡◌, refl, true, arith, ◌==◌, if◌then◌else◌, Bool-cases, inl, inr,
}
use browser_web3_signer.Prelude.Dict.{lookup, lookup-erase}
use browser_web3_signer.Core.Json.{Serde}
use browser_web3_signer.Core.Types.{
  Uuid, Request, RequestResult, CompleteApiRequest, from_body, success, error,
}
use browser_web3_signer.Core.Oneshot.{Oneshot, pending, received}
use browser_web3_signer.Core.Store.{Store, Entry, create, has, complete, deliver, remove}
use browser_web3_signer.Core.Store.Laws.{complete-has, complete_absent, get-create, get-complete}
use browser_web3_signer.Core.Http.{reply, json_error, found, get_pending, post_complete, completed}

Σ_eta : {A B : Type 0} (p : A × B) → p ≡ (p.0, p.1)
Σ_eta p = refl

-- The result that a posted body stands for: an absent result is empty, and an absent error is unknown.
abbrev pub posted_result : CompleteApiRequest → RequestResult
posted_result body =
    if body.success
    then success (unwrap_or body.result "")
    else error (unwrap_or body.error "Unknown error") body.code

module _ (json : Serde) {R : Type 0} (net : Oneshot RequestResult) where
  open json use {object, insert, empty, string, bool}

  completed-complete :
      (id : Uuid) (result : RequestResult) (s : Store R net)
      → completed json net (complete net id result s) ≡ (
          if has net id s
          then (reply 200 (object (insert "ok" (bool true) empty)), (complete net id result s).1)
          else (json_error json 500 "Failed to complete request", s))
  unfolding completed
  completed-complete id result s = elim (Bool-cases (has net id s)) [
    | inl present ↦
        rw (Σ_eta (complete net id result s), complete-has net id result s, present) refl
    | inr absent ↦
        rw
          (
            Σ_eta (complete net id result s),
            complete-has net id result s,
            absent,
            complete_absent net id result s absent,
          )
          refl
  ]

  -- Whatever happens between the two looks at the store, a post for an id that is not pending at the first is answered 404 and one that is gone at the second 500, with an error that says so and no change to the store; one that is pending at both is answered 200 and completed: with its result if the body says success, else with its error and code.
  pub post_complete_answers :
      (between : Store R net → Store R net) (id : Uuid) (body : CompleteApiRequest)
      (s : Store R net)
      → post_complete json net between id body s ≡ (
          if has net id s
          then if has net id (between s)
            then (
              reply 200 (object (insert "ok" (bool true) empty)),
              (complete net id (posted_result body) (between s)).1,
            )
            else (
              reply 500 (object (insert "error" (string "Failed to complete request") empty)),
              between s,
            )
          else (reply 404 (object (insert "error" (string "Request not found") empty)), between s))
  unfolding post_complete from_body json_error
  post_complete_answers between id body s =
      rw (completed-complete id (from_body body) (between s)) refl

  -- A post for an id that is pending at both looks at the store, whose receiver has got nothing yet, is answered 200: the request is gone from the store, and the receiver has the posted result.
  pub post_complete_delivers :
      (between : Store R net → Store R net) (id : Uuid) (body : CompleteApiRequest)
      (s : Store R net) (e : Entry R)
      → has net id s ≡ true
      → lookup id (between s).pending ≡ some e
      → Oneshot.recv net ((between s).channels e.tx) ≡ pending
      → ((post_complete json net between id body s).0
          ≡ reply 200 (object (insert "ok" (bool true) empty)))
        × (lookup id (post_complete json net between id body s).1.pending ≡ none)
        × (Oneshot.recv net ((post_complete json net between id body s).1.channels e.tx)
            ≡ received (posted_result body))
  unfolding post_complete complete deliver remove completed from_body
  post_complete_delivers between id body s e h k waits = (
    rw (h, k) refl,
    rw (h, k, lookup-erase id id (between s).pending, ==_self id) refl,
    rw (h, k, ==_self e.tx) (net.recv-send (posted_result body) ((between s).channels e.tx) waits),
  )

  -- After a request is registered the bridge serves it at its id, and serves the other ids as before.
  pub get_pending-create :
      (q : Request json R) (id j : Uuid) (r : R) (s : Store R net)
      → get_pending json net q j (create net id r s).1 ≡ (
          if id == j
          then reply 200 (object (insert "request" (q.to_value r) empty))
          else get_pending json net q j s)
  unfolding get_pending found
  get_pending-create q id j r s = ground (arith, get-create net id j r s)

  -- After `complete` for an id the bridge answers 404 at that id, and serves the other ids as before.
  pub get_pending-complete :
      (q : Request json R) (id j : Uuid) (result : RequestResult) (s : Store R net)
      → get_pending json net q j (complete net id result s).1
        ≡ (if id == j then json_error json 404 "Request not found" else get_pending json net q j s)
  unfolding get_pending found
  get_pending-complete q id j result s = ground (arith, get-complete net id j result s)
