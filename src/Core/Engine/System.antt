-- ===== src/Core/Engine/System.antt =====
-- The engine among its tasks: callers that register requests and await or drop the futures, and the
-- bridge's handlers that accept results. A run is a sequence of such steps in any order.
use browser_web3_signer.Prelude.{
  ℕ, ◌≡◌, String, Bool, Option, none, some, Result, ok, err, [], if◌then◌else◌,
}
use browser_web3_signer.Prelude.Dict.{Dict, lookup, insert, erase}
use browser_web3_signer.Core.Json.{Serde}
use browser_web3_signer.Core.Errors.{SignerError}
use browser_web3_signer.Core.Config.{BindPort}
use browser_web3_signer.Core.Browser.{BrowserChoice}
use browser_web3_signer.Core.Types.{Uuid, Request, RequestResult}
use browser_web3_signer.Core.Oneshot.{Oneshot}
use browser_web3_signer.Core.Store.{Store, complete, cancel}
use browser_web3_signer.Core.Engine.Bind.{Tcp}
use browser_web3_signer.Core.Engine.{Engine, Prepared, prepare, poll, start_with, shutdown}
use browser_web3_signer.Core.Engine
use browser_web3_signer.Core.Engine.Invariant.{Outcomes}

module _ (R : Type 0) (net : Oneshot RequestResult) (Routes : Type 0) where
  -- The futures not yet resolved or dropped (by id, their receiver), the outcomes of those that
  -- resolved, and the results that a handler has accepted.
  pub record System : Type 0 where
    pub engine : Engine R net Routes
    pub waiting : Dict ℕ
    pub outcomes : Outcomes
    pub accepted : Dict RequestResult

-- An id that `Uuid::new_v4` may draw: none that is, or was, in use.
pub record IsFresh {R : Type 0} {net : Oneshot RequestResult} {Routes : Type 0} (id : Uuid)
    (s : System R net Routes) : Type 0 where
  pub no_entry : lookup id s.engine.store.pending ≡ none
  pub no_future : lookup id s.waiting ≡ none
  pub no_outcome : lookup id s.outcomes ≡ none
  pub no_result : lookup id s.accepted ≡ none

module _ {R L Routes : Type 0} {json : Serde} (net : Oneshot RequestResult) (q : Request json R)
    (show_id : ℕ → String) (tcp : Tcp L) where
  abbrev pub initial : String → BindPort → BrowserChoice → System R net Routes
  initial html bind choice = record {
    engine = Engine.new net html bind choice;
    waiting = [];
    outcomes = [];
    accepted = [];
  }

  abbrev pub with_store : System R net Routes → Store R net → System R net Routes
  with_store s st = record s { engine = record (s.engine) { store = st } }

  abbrev pub posted : Uuid → RequestResult → System R net Routes → System R net Routes
  posted id result s = record (with_store s (complete net id result s.engine.store).1) {
    accepted =
        if (complete net id result s.engine.store).0
        then insert id result s.accepted
        else s.accepted;
  }

  pub data Step : System R net Routes → System R net Routes → Type 0 where
    prepared :
        (s : System R net Routes) (r : R) (p : Prepared) (e : Engine R net Routes)
        → IsFresh (q.id r) s
        → prepare net q show_id tcp r s.engine ≡ (ok p, e)
        → Step s (record s { engine = e; waiting = insert p.id p.rx s.waiting })
    unprepared :
        (s : System R net Routes) (r : R) (x : SignerError) (e : Engine R net Routes)
        → prepare net q show_id tcp r s.engine ≡ (err x, e)
        → Step s (record s { engine = e })
    post :
        (s : System R net Routes) (id : Uuid) (result : RequestResult) → Step s (posted id result s)
    cancelled :
        (s : System R net Routes) (id : Uuid)
        → Step s (with_store s (cancel net id s.engine.store).1)
    resolved :
        (s : System R net Routes) (p : Prepared) (elapsed : Bool) (o : Result String SignerError)
        → lookup p.id s.waiting ≡ some p.rx
        → (poll net show_id p elapsed s.engine).0 ≡ some o
        → Step s (record s {
          engine = (poll net show_id p elapsed s.engine).1;
          waiting = erase p.id s.waiting;
          outcomes = insert p.id o s.outcomes;
        })
    dropped :
        (s : System R net Routes) (id : Uuid) → Step s (record s { waiting = erase id s.waiting })
    started :
        (s : System R net Routes) (extra : Option Routes)
        → Step s (record s { engine = (start_with net tcp extra s.engine).1 })
    stopped : (s : System R net Routes) → Step s (record s { engine = shutdown net s.engine })

  pub data Reach (s : System R net Routes) : System R net Routes → Type 0 where
    here : Reach s s
    next : {t u : System R net Routes} → Reach s t → Step t u → Reach s u
