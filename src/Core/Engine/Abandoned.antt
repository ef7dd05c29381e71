-- ===== src/Core/Engine/Abandoned.antt =====
-- core/src/engine.rs: a future that its caller drops, as a `serve` handler does when its client goes away.
use browser_web3_signer.Prelude.{ℕ, ◌≡◌, ◌≢◌, String, none, some, Result, ok, err, arith}
use browser_web3_signer.Prelude.Dict.{lookup, lookup-insert, lookup-erase}
use browser_web3_signer.Core.Json.{Serde}
use browser_web3_signer.Core.Errors.{SignerError}
use browser_web3_signer.Core.Types.{Uuid, Request, RequestResult}
use browser_web3_signer.Core.Oneshot.{Oneshot}
use browser_web3_signer.Core.Store.{Store, Entry, create, complete, cancel}
use browser_web3_signer.Core.Engine.Bind.{Tcp}
use browser_web3_signer.Core.Engine.{Engine, Prepared, poll, finish, shutdown}
use browser_web3_signer.Core.Engine.Start.{start_with-store, prepare-ok, prepare-err}
use browser_web3_signer.Core.Engine.System.{
  System, Step, prepared, unprepared, post, cancelled, resolved, dropped, started, stopped, Reach,
  here, next,
}

module _ {R : Type 0} (net : Oneshot RequestResult) (id : Uuid) where
  create_served :
      (j : Uuid) (r : R) (s : Store R net) (e : Entry R)
      → lookup id s.pending ≡ some e
      → j ≢ id
      → lookup id (create net j r s).1.pending ≡ some e
  unfolding create
  create_served j r s e h ne =
      ground (arith, lookup-insert j id (record { request = r; tx = s.next }) s.pending)

module _ {R L Routes : Type 0} {json : Serde} (net : Oneshot RequestResult) (q : Request json R)
    (show_id : ℕ → String) (tcp : Tcp L) (id : Uuid) where
  -- The step neither completes nor cancels `id`.
  abbrev pub Spares : {s t : System R net Routes} → Step net q show_id tcp s t → Type 0
  Spares (post s j result) = j ≢ id
  Spares (cancelled s j) = j ≢ id
  Spares _ = Unit

  abbrev pub AllSpare : {s t : System R net Routes} → Reach net q show_id tcp s t → Type 0
  AllSpare here = Unit
  AllSpare (next r st) = AllSpare r × Spares st

  -- Nobody awaits the request, and the bridge still serves it.
  pub record IsAbandoned (e : Entry R) (s : System R net Routes) : Type 0 where
    pub unawaited : lookup id s.waiting ≡ none
    pub served : lookup id s.engine.store.pending ≡ some e

  finish_served :
      (p : Prepared) (o : Result String SignerError) (g : Engine R net Routes) (e : Entry R)
      → lookup id g.store.pending ≡ some e
      → p.id ≢ id
      → lookup id (finish net p.id (some o) g).store.pending ≡ some e
  unfolding finish cancel
  finish_served p (ok v) g e h ne = h
  finish_served p (err x) g e h ne = ground (arith, lookup-erase p.id id g.store.pending)

  Step-IsAbandoned :
      {s t : System R net Routes} (st : Step net q show_id tcp s t)
      → Spares st
      → {e : Entry R} → IsAbandoned e s
      → IsAbandoned e t
  unfolding poll complete cancel shutdown
  Step-IsAbandoned (prepared s r p g fresh h) k {e} a =
      let (same_id, _, same_store) = prepare-ok net tcp q show_id r s.engine p g h in
      let ne : q.id r ≢ id = λ same. ground (arith, fresh.no_entry, a.served) in
      record {
        unawaited = ground (arith, a.unawaited, lookup-insert p.id id p.rx s.waiting);
        served = rw same_store (create_served net id (q.id r) r s.engine.store e a.served ne);
      }
  Step-IsAbandoned (unprepared s r x g h) k a = record {
    unawaited = a.unawaited;
    served = rw (prepare-err net tcp q show_id r s.engine x g h) a.served;
  }
  Step-IsAbandoned (post s j result) k a = record {
    unawaited = a.unawaited;
    served = ground (arith, a.served, lookup-erase j id s.engine.store.pending);
  }
  Step-IsAbandoned (cancelled s j) k a = record {
    unawaited = a.unawaited;
    served = ground (arith, a.served, lookup-erase j id s.engine.store.pending);
  }
  Step-IsAbandoned (resolved s p elapsed o h g) k {e} a = record {
    unawaited = ground (arith, a.unawaited, lookup-erase p.id id s.waiting);
    served = rw g (finish_served p o s.engine e a.served (λ same. ground (arith, a.unawaited)));
  }
  Step-IsAbandoned (dropped s j) k a = record {
    unawaited = ground (arith, a.unawaited, lookup-erase j id s.waiting);
    served = a.served;
  }
  Step-IsAbandoned (started s extra) k a = record {
    unawaited = a.unawaited;
    served = rw (start_with-store net tcp extra s.engine) a.served;
  }
  Step-IsAbandoned (stopped s) k a = record { unawaited = a.unawaited; served = a.served }

  -- A request in the store that no future awaits stays there, with nobody awaiting it, through every run that neither completes nor cancels it: no timeout removes it.
  pub Reach-IsAbandoned :
      {s t : System R net Routes} (run : Reach net q show_id tcp s t)
      → AllSpare run
      → {e : Entry R} → IsAbandoned e s
      → IsAbandoned e t
  Reach-IsAbandoned here k a = a
  Reach-IsAbandoned (next r st) k a = Step-IsAbandoned st k.1 (Reach-IsAbandoned r k.0 a)
