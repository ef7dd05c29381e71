-- ===== src/Core/Engine/Reach.antt =====
-- What holds in every state that a run of the engine and its tasks can reach.
use browser_web3_signer.Prelude.{ℕ, String}
use browser_web3_signer.Prelude.Dict.{lookup}
use browser_web3_signer.Core.Json.{Serde}
use browser_web3_signer.Core.Config.{BindPort}
use browser_web3_signer.Core.Browser.{BrowserChoice}
use browser_web3_signer.Core.Types.{Request, RequestResult}
use browser_web3_signer.Core.Oneshot.{Oneshot}
use browser_web3_signer.Core.Store.Invariant.{new-IsValid}
use browser_web3_signer.Core.Engine.Bind.{Tcp}
use browser_web3_signer.Core.Engine.{Engine, Prepared, shutdown}
use browser_web3_signer.Core.Engine
use browser_web3_signer.Core.Engine.Invariant.{IsValid, abandon-IsValid, cancel-IsValid_futures}
use browser_web3_signer.Core.Engine.Preserve.{register-IsValid, post-IsValid}
use browser_web3_signer.Core.Engine.Settle.{poll-IsValid}
use browser_web3_signer.Core.Engine.Start.{start_with-store, prepare-ok, prepare-err}
use browser_web3_signer.Core.Engine.System.{
  System, initial, Step, prepared, unprepared, post, cancelled, resolved, dropped, started, stopped,
  Reach, here, next,
}

module _ {R L Routes : Type 0} {json : Serde} (net : Oneshot RequestResult) (q : Request json R)
    (show_id : ℕ → String) (tcp : Tcp L) where
  abbrev pub IsConsistent : System R net Routes → Type 0
  IsConsistent s = IsValid net s.engine.store s.waiting s.outcomes s.accepted

  -- Every step keeps the invariant.
  pub Step-IsConsistent :
      {s t : System R net Routes} → Step net q show_id tcp s t → IsConsistent s → IsConsistent t
  unfolding shutdown
  Step-IsConsistent (prepared s r p e fresh h) v =
      let (same_id, same_rx, same_store) = prepare-ok net tcp q show_id r s.engine p e h in
      rw (same_id, same_rx, same_store)
        (register-IsValid net v (q.id r) r fresh.no_entry fresh.no_future fresh.no_outcome
          fresh.no_result)
  Step-IsConsistent (unprepared s r x e h) v = rw (prepare-err net tcp q show_id r s.engine x e h) v
  Step-IsConsistent (post s id result) v = post-IsValid net v id result
  Step-IsConsistent (cancelled s id) v = cancel-IsValid_futures net v id
  Step-IsConsistent (resolved s p elapsed o h k) v =
      poll-IsValid net s.engine v show_id p elapsed o h k
  Step-IsConsistent (dropped s id) v = abandon-IsValid net v id
  Step-IsConsistent (started s extra) v = rw (start_with-store net tcp extra s.engine) v
  Step-IsConsistent (stopped s) v = v

  pub Reach-IsConsistent :
      {s t : System R net Routes} → Reach net q show_id tcp s t → IsConsistent s → IsConsistent t
  Reach-IsConsistent here v = v
  Reach-IsConsistent (next r st) v = Step-IsConsistent st (Reach-IsConsistent r v)

module _ {R L : Type 0} (Routes : Type 0) {json : Serde} (net : Oneshot RequestResult)
    (q : Request json R) (show_id : ℕ → String) (tcp : Tcp L) where
  pub initial-IsConsistent :
      (html : String) (bind : BindPort) (choice : BrowserChoice)
      → IsConsistent {Routes = Routes} net q show_id tcp
          (initial net q show_id tcp html bind choice)
  unfolding Engine.new lookup
  initial-IsConsistent html bind choice = record {
    stored = new-IsValid net;
    made = λ i rx h. cc;
    matched = λ i rx e h k. cc;
    apart = λ i j rx e h k p. cc;
    answered = λ i rx h k. cc;
    posted = λ i rx r h k. cc;
    delivered = λ i rx r h k. cc;
    taken = λ i r h. cc;
    ended = λ i o h. cc;
    genuine = λ i o r h k. cc;
  }

  -- Every state that a new engine and its tasks can reach is consistent.
  pub Reach-initial :
      (html : String) (bind : BindPort) (choice : BrowserChoice) {t : System R net Routes}
      → Reach net q show_id tcp (initial net q show_id tcp html bind choice) t
      → IsConsistent net q show_id tcp t
  Reach-initial html bind choice run =
      Reach-IsConsistent net q show_id tcp run (initial-IsConsistent html bind choice)
