-- ===== src/Harness/Laws.antt =====
-- harness.rs: what the test routes report of a request.
use browser_web3_signer.Prelude.{
  ℕ, ◌≡◌, refl, ap, ◌∙◌, String, Bool, true, Option, none, some, Result, ok, err, ==_self, arith,
}
use browser_web3_signer.Prelude.Dict.{Dict, lookup, insert, lookup-insert}
use browser_web3_signer.Core.Json.{Serde}
use browser_web3_signer.Core.Errors.{SignerError}
use browser_web3_signer.Core.Types.{Uuid, Request, RequestResult}
use browser_web3_signer.Core.Oneshot.{Oneshot, received}
use browser_web3_signer.Core.Store.{Store, Entry, create, complete, deliver, has}
use browser_web3_signer.Core.Engine.{Engine, Prepared, prepare, poll, settle, map_result}
use browser_web3_signer.Core.Engine.Bind.{Tcp}
use browser_web3_signer.Core.Engine.Start.{prepare-ok}
use browser_web3_signer.Harness.{
  HarnessState, as_outcome, pending_answer, spawned, create_parsed, create_request, cached,
  run_task, peeked, test_result,
}

module _ {R : Type 0} (net : Oneshot RequestResult) where
  inserted : (id : Uuid) (e : Entry R) (d : Dict (Entry R)) → lookup id (insert id e d) ≡ some e
  inserted id e d = lookup-insert id id e d ∙ rw (==_self id) refl

  has-create : (id : Uuid) (r : R) (s : Store R net) → has net id (create net id r s).1 ≡ true
  unfolding has create
  has-create id r s = rw (inserted id _ s.pending) refl

  -- The receiver of a new request gets the result that is posted for it.
  recv-complete :
      (id : Uuid) (r : R) (s : Store R net) (result : RequestResult)
      → Oneshot.recv net ((complete net id result (create net id r s).1).1.channels s.next)
        ≡ received result
  unfolding complete create deliver
  recv-complete id r s result =
      rw (complete, inserted id (record { request = r; tx = s.next }) s.pending, ==_self s.next)
        (net.recv-send result net.fresh net.recv-fresh)

  recv-posted :
      (id j : Uuid) (r : R) (rx : ℕ) (s t : Store R net) (result : RequestResult)
      → id ≡ j
      → rx ≡ s.next
      → t ≡ (create net j r s).1
      → Oneshot.recv net ((complete net id result t).1.channels rx) ≡ received result
  recv-posted id j r rx s t result same_id same_rx same_store =
      rw (same_id, same_rx, same_store) (recv-complete j r s result)

module _ {json : Serde} {R Routes L : Type 0} (q : Request json R) (net : Oneshot RequestResult)
    (show_id : ℕ → String) (tcp : Tcp L) where
  open json use {Value}

  spawned-ok :
      (results : Dict Value) (y : Result Prepared SignerError × Engine R net Routes) (v : Value)
      (p : Prepared) (s' : HarnessState json R net Routes)
      → spawned json net show_id results y ≡ (ok (v, p), s')
      → (y ≡ (ok p, s'.engine)) × (s'.results ≡ results)
  unfolding spawned
  spawned-ok results (ok p, e) v p' s' h = ground arith
  spawned-ok results (err x, e) v p s' h = ground arith

  create_parsed-ok :
      (w : Result R String) (v : Value) (p : Prepared) (s s' : HarnessState json R net Routes)
      → create_parsed json net q show_id tcp w s ≡ (ok (v, p), s')
      → (r : R) × (prepare net q show_id tcp r s.engine ≡ (ok p, s'.engine))
        × (s'.results ≡ s.results)
  unfolding create_parsed
  create_parsed-ok (err x) v p s s' h = ground arith
  create_parsed-ok (ok r) v p s s' h =
      let (made, same) = spawned-ok s.results (prepare net q show_id tcp r s.engine) v p s' h in
      (r, made, same)

  cached-some :
      (id : Uuid) (results : Dict Value) (o : Result String SignerError)
      (w : Option (Result String SignerError) × Engine R net Routes)
      → w.0 ≡ some o
      → test_result json net id (cached json net id results w) ≡ as_outcome json o
  unfolding test_result cached peeked
  cached-some id results o (none, e) h = ground arith
  cached-some id results o (some a, e) h =
      rw (lookup-insert id id (as_outcome json a) results, ==_self id)
        (ap (as_outcome json) (ground arith))

  -- The bridge's answer to a post for the request, and the wait that goes on.
  abbrev pub posted :
      Prepared → RequestResult → HarnessState json R net Routes → HarnessState json R net Routes
  posted p result s = record s {
    engine = record s.engine { store = (complete net p.id result s.engine.store).1 };
  }

  -- A request that the test routes create, under an id that has no outcome yet, is reported as pending. Once the bridge has got a result for it and its task is polled, also past the deadline, that result is what is reported.
  pub created_reported :
      (fresh : Uuid) (body v : Value) (p : Prepared) (s s' : HarnessState json R net Routes)
      (result : RequestResult) (elapsed : Bool)
      → create_request json net q show_id tcp fresh body s ≡ (ok (v, p), s')
      → lookup p.id s.results ≡ none
      → (test_result json net p.id s' ≡ pending_answer json)
        × (test_result json net p.id (run_task json net show_id p elapsed (posted p result s'))
            ≡ as_outcome json (map_result result))
  unfolding create_request test_result peeked run_task poll settle
  created_reported fresh body v p s s' result elapsed h new =
      let (r, made, same) = create_parsed-ok (q.from_json fresh body) v p s s' h in
      let (same_id, same_rx, same_store) =
        prepare-ok net tcp q show_id r s.engine p s'.engine made in
      let stored =
        ap (has net p.id) same_store
        ∙ ap (λ i. has net i (create net (q.id r) r s.engine.store).1) same_id
        ∙ has-create net (q.id r) r s.engine.store in
      let got =
        recv-posted net p.id (q.id r) r p.rx s.engine.store s'.engine.store result same_id same_rx
          same_store in
      (
        rw (same, new, stored) refl,
        cached-some p.id s'.results (map_result result)
            (poll net show_id p elapsed (posted p result s').engine) (rw got refl),
      )
