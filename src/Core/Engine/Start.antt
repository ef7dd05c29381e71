-- ===== src/Core/Engine/Start.antt =====
-- core/src/engine.rs: the bridge's port and life, and what a registration leaves in the store.
use browser_web3_signer.Prelude.{
  ℕ, zero, suc, ◌<◌, ◌≡◌, String, Option, some, ok, err, arith, inl, inr, Result-cases,
  Option-cases,
}
use browser_web3_signer.Core.Json.{Serde}
use browser_web3_signer.Core.Errors.{SignerError}
use browser_web3_signer.Core.Types.{Request, RequestResult}
use browser_web3_signer.Core.Config.{Port, ephemeral, try_new}
use browser_web3_signer.Core.Oneshot.{Oneshot}
use browser_web3_signer.Core.Store.{create}
use browser_web3_signer.Core.Engine.Bind.{Tcp, bind_listener, bind_ephemeral}
use browser_web3_signer.Core.Engine.{
  Engine, Prepared, start_with, start_from, launch, start, prepare, register,
}

try_new-pos : (n : ℕ) (p : Port) → try_new n ≡ some p → (p.get ≡ n) × (0 < n)
unfolding try_new
try_new-pos zero p h = cc
try_new-pos (suc n) p h = ground arith

module _ {L : Type 0} (tcp : Tcp L) where
  ephemeral_bound :
      (l : L) (p : Port)
      → bind_ephemeral tcp ≡ ok (l, p)
      → (tcp.bind 0 ≡ ok l) × (tcp.local_port l ≡ ok p.get) × (0 < p.get)
  unfolding bind_ephemeral
  ephemeral_bound l p h = elim (Result-cases (tcp.bind 0)) [
    | inl (m, b) ↦ elim (Result-cases (tcp.local_port m)) [
      | inl (n, k) ↦ elim (Option-cases (try_new n)) [
        | inl z ↦ ground arith
        | inr (port, z) ↦ ground (arith, try_new-pos n port)
      ]
      | inr (e, k) ↦ ground arith
    ]
    | inr (e, b) ↦ ground arith
  ]

  pub bind_listener_ephemeral :
      (l : L) (port : Port)
      → bind_listener tcp ephemeral ≡ ok (l, port)
      → (tcp.bind 0 ≡ ok l) × (tcp.local_port l ≡ ok port.get) × (0 < port.get)
  unfolding bind_listener
  bind_listener_ephemeral l port h = ephemeral_bound l port h

module _ {R L Routes : Type 0} (net : Oneshot RequestResult) (tcp : Tcp L) where
  pub start_with-store :
      (extra : Option Routes) (e : Engine R net Routes)
      → (start_with net tcp extra e).1.store ≡ e.store
  unfolding start_with start_from launch
  start_with-store extra e = ground arith

  -- A started bridge stays as it is: later calls give its port, whatever routes they bring.
  pub start_with_once :
      (extra later : Option Routes) (e e' : Engine R net Routes) (port : Port)
      → start_with net tcp extra e ≡ (ok port, e')
      → start_with net tcp later e' ≡ (ok port, e')
  unfolding start_with start_from launch
  start_with_once extra later e e' port h = ground arith

  module _ {json : Serde} (q : Request json R) (show_id : ℕ → String) where
    pub prepare-ok :
        (r : R) (e : Engine R net Routes) (p : Prepared) (e' : Engine R net Routes)
        → prepare net q show_id tcp r e ≡ (ok p, e')
        → (p.id ≡ q.id r) × (p.rx ≡ e.store.next) × (e'.store ≡ (create net (q.id r) r e.store).1)
    unfolding prepare register start start_with start_from launch create
    prepare-ok r e p e' h = ground arith

    pub prepare-err :
        (r : R) (e : Engine R net Routes) (x : SignerError) (e' : Engine R net Routes)
        → prepare net q show_id tcp r e ≡ (err x, e')
        → e'.store ≡ e.store
    unfolding prepare register start start_with start_from launch
    prepare-err r e x e' h = ground arith
