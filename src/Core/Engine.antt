-- ===== src/Core/Engine.antt =====
-- core/src/engine.rs: the engine owns the store and the bridge, and turns a request into an approval
-- URL and a future of the wallet's answer.
pub mod Bind
pub mod Invariant
pub mod Preserve
pub mod Settle
pub mod System
pub mod Reach
pub mod Answers
pub mod Abandoned
pub mod Start
pub mod Lifecycle
pub mod Ask
pub mod Submit
use browser_web3_signer.Prelude.{
  ℕ, String, Bool, true, false, Option, none, some, Result, ok, err, if◌then◌else◌,
}
use browser_web3_signer.Core.Json.{Serde}
use browser_web3_signer.Core.Errors.{SignerError, rejected, timeout, cancelled}
use browser_web3_signer.Core.Types.{Uuid, Request, RequestResult, success, error}
use browser_web3_signer.Core.Config.{Port, BindPort}
use browser_web3_signer.Core.Browser.{BrowserChoice, build_url, opened}
use browser_web3_signer.Core.Oneshot.{Oneshot, Recv, pending, received, closed}
use browser_web3_signer.Core.Store.{Store, create, cancel, request_timeout}
use browser_web3_signer.Core.Store
use browser_web3_signer.Core.Engine.Bind.{Tcp, bind_listener}

unfoldable pub map_result : RequestResult → Result String SignerError
map_result (success v) = ok v
map_result (error message code) = err (rejected message code)

-- A registered request: its future is the receiver `rx` until it is resolved.
pub record Prepared : Type 0 where
  pub id : Uuid
  pub url : String
  pub rx : ℕ

-- A running bridge: its port, and the routes that the caller added to it.
pub record ServerState (Routes : Type 0) : Type 0 where
  pub port : Port
  pub extra : Option Routes

module _ (R : Type 0) (net : Oneshot RequestResult) (Routes : Type 0) where
  pub record Engine : Type 0 where
    pub store : Store R net
    pub index_html : String
    pub bind : BindPort
    pub browser : BrowserChoice
    pub server : Option (ServerState Routes)

-- What the `timeout` of a receiver gives at a poll: the value if it is there, else the deadline.
unfoldable pub settle :
    (ℕ → String) → Uuid → Bool → Recv RequestResult → Option (Result String SignerError)
unfolding map_result
settle show_id id elapsed (received r) = some (map_result r)
settle show_id id elapsed closed = some (err (cancelled (show_id id)))
settle show_id id elapsed pending = if elapsed then some (err (timeout request_timeout)) else none

module _ {R Routes : Type 0} (net : Oneshot RequestResult) where
  unfoldable pub new : String → BindPort → BrowserChoice → Engine R net Routes
  new html b choice = record {
    store = Store.new net;
    index_html = html;
    bind = b;
    browser = choice;
    server = none;
  }

  -- The end of the future: an error takes the entry out of the store.
  unfoldable pub finish :
      Uuid → Option (Result String SignerError) → Engine R net Routes → Engine R net Routes
  finish id none e = e
  finish id (some (ok v)) e = e
  finish id (some (err x)) e = record e { store = (cancel net id e.store).1 }

  -- One poll of the future of `Prepared`; `elapsed` says that the deadline has passed.
  unfoldable pub poll :
      (ℕ → String)
      → Prepared
      → Bool
      → Engine R net Routes
      → Option (Result String SignerError) × Engine R net Routes
  unfolding settle finish
  poll show_id p elapsed e =
      let outcome = settle show_id p.id elapsed (Oneshot.recv net (e.store.channels p.rx)) in
      (outcome, finish p.id outcome e)

  unfoldable pub shutdown : Engine R net Routes → Engine R net Routes
  shutdown e = record e { server = none }

  -- What the bind gave starts the server.
  unfoldable pub launch :
      {L : Type 0}
      → Option Routes
      → Result (L × Port) SignerError
      → Engine R net Routes
      → Result Port SignerError × Engine R net Routes
  launch extra (err x) e = (err x, e)
  launch extra (ok (listener, port)) e =
      (ok port, record e { server = some (record { port = port; extra = extra }) })

  unfoldable pub start_from :
      {L : Type 0}
      → Tcp L
      → Option Routes
      → Option (ServerState Routes)
      → Engine R net Routes
      → Result Port SignerError × Engine R net Routes
  unfolding launch bind_listener
  start_from tcp extra (some state) e = (ok state.port, e)
  start_from tcp extra none e = launch extra (bind_listener tcp e.bind) e

  unfoldable pub start_with :
      {L : Type 0}
      → Tcp L
      → Option Routes
      → Engine R net Routes
      → Result Port SignerError × Engine R net Routes
  unfolding start_from
  start_with tcp extra e = start_from tcp extra e.server e

  unfoldable pub start :
      {L : Type 0} → Tcp L → Engine R net Routes → Result Port SignerError × Engine R net Routes
  unfolding start_with
  start tcp e = start_with tcp none e

  module _ {json : Serde} (q : Request json R) (show_id : ℕ → String) where
    unfoldable pub register :
        R
        → Result Port SignerError × Engine R net Routes
        → Result Prepared SignerError × Engine R net Routes
    register r (err x, e) = (err x, e)
    register r (ok port, e) =
        let (rx, s) = create net (q.id r) r e.store in
        (
          ok (record {
            id = q.id r;
            url = build_url show_id port.get (q.id r) (q.url_kind r);
            rx = rx;
          }),
          record e { store = s },
        )

    unfoldable pub prepare :
        {L : Type 0}
        → Tcp L
        → R
        → Engine R net Routes
        → Result Prepared SignerError × Engine R net Routes
    unfolding register start
    prepare tcp r e = register r (start tcp e)

    -- `prepare`, `open` and the await: `env` is what the other tasks do until the last poll of the
    -- future, and `elapsed` whether the deadline has passed then. `none` is a future still pending.
    unfoldable pub await :
        (Engine R net Routes → Engine R net Routes)
        → Bool
        → Result Prepared SignerError × Engine R net Routes
        → Option (Result String SignerError) × Engine R net Routes
    unfolding poll
    await env elapsed (err x, e) = (some (err x), e)
    await env elapsed (ok p, e) = poll show_id p elapsed (env e)

    unfoldable pub submit :
        {L : Type 0}
        → Tcp L
        → (Engine R net Routes → Engine R net Routes)
        → Bool
        → R
        → Engine R net Routes
        → Option (Result String SignerError) × Engine R net Routes
    unfolding prepare await
    submit tcp env elapsed r e = await env elapsed (prepare tcp r e)
