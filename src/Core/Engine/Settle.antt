-- ===== src/Core/Engine/Settle.antt =====
-- core/src/engine.rs: a future that resolves, and the invariant.
use browser_web3_signer.Prelude.{
  ℕ, ◌≡◌, refl, String, Bool, true, false, none, some, Result, ok, err, arith,
}
use browser_web3_signer.Prelude.Dict.{Dict, lookup, insert, erase, lookup-insert, lookup-erase}
use browser_web3_signer.Core.Errors.{SignerError, rejected}
use browser_web3_signer.Core.Types.{Uuid, RequestResult, success, error}
use browser_web3_signer.Core.Oneshot.{Oneshot, Recv, pending, received, closed}
use browser_web3_signer.Core.Store.{Store, cancel}
use browser_web3_signer.Core.Engine.{Engine, Prepared, settle, finish, poll}
use browser_web3_signer.Core.Engine.Invariant.{
  Outcomes, IsValid, reported, abandon-IsValid, cancel-IsValid_futures,
}

module _ (show_id : ℕ → String) (id : Uuid) (elapsed : Bool) where
  pub settle-reported :
      (got : Recv RequestResult) (o : Result String SignerError) (r : RequestResult)
      → settle show_id id elapsed got ≡ some o
      → reported o ≡ some r
      → got ≡ received r
  unfolding settle
  settle-reported (received (success w)) o r h k = ground arith
  settle-reported (received (error m c)) o r h k = ground arith
  settle-reported closed o r h k = ground arith
  settle-reported pending o r h k = ground arith

  pub settle_waits : (got : Recv RequestResult) → settle show_id id false got ≡ none → got ≡ pending
  unfolding settle
  settle_waits (received r) h = cc
  settle_waits closed h = cc
  settle_waits pending h = refl

  pub settle_elapsed :
      (got : Recv RequestResult)
      → (o : Result String SignerError) × (settle show_id id true got ≡ some o)
  unfolding settle
  settle_elapsed (received (success w)) = (ok w, refl)
  settle_elapsed (received (error m c)) = (err (rejected m c), refl)
  settle_elapsed closed = (_, refl)
  settle_elapsed pending = (_, refl)

module _ {R Routes : Type 0} (net : Oneshot RequestResult) where
  module _ (e : Engine R net Routes) {waiting : Dict ℕ} {outcomes : Outcomes}
      {accepted : Dict RequestResult} (v : IsValid net e.store waiting outcomes accepted) where
    -- The outcome is recorded once the entry is gone.
    record_outcome :
        {s : Store R net} (id : Uuid) (o : Result String SignerError)
        → IsValid net s (erase id waiting) outcomes accepted
        → lookup id s.pending ≡ none
        → ((r : RequestResult) → reported o ≡ some r → lookup id accepted ≡ some r)
        → IsValid net s (erase id waiting) (insert id o outcomes) accepted
    record_outcome id o w gone real = record {
      stored = w.stored;
      made = w.made;
      matched = w.matched;
      apart = w.apart;
      answered = w.answered;
      posted = w.posted;
      delivered = w.delivered;
      taken = w.taken;
      ended = λ i x h.
          ground
            (arith, gone, lookup-insert id i o outcomes, lookup-erase id i waiting, w.ended i x);
      genuine = λ i x r h k. ground (arith, lookup-insert id i o outcomes, w.genuine i x r, real r);
    }

    finish-IsValid :
        (id : Uuid) (rx : ℕ) (o : Result String SignerError)
        → lookup id waiting ≡ some rx
        → ((r : RequestResult) → reported o ≡ some r → lookup id accepted ≡ some r)
        → IsValid net
            (finish net id (some o) e).store
            (erase id waiting)
            (insert id o outcomes)
            accepted
    unfolding finish
    finish-IsValid id rx (ok w) h real =
        record_outcome id (ok w) (abandon-IsValid net v id) (v.taken id (success w) (real _ refl))
          real
    finish-IsValid id rx (err x) h real =
        record_outcome id (err x) (cancel-IsValid_futures net (abandon-IsValid net v id) id)
          (unfold cancel in ground (arith, lookup-erase id id e.store.pending)) real

    pub poll-IsValid :
        (show_id : ℕ → String) (p : Prepared) (elapsed : Bool) (o : Result String SignerError)
        → lookup p.id waiting ≡ some p.rx
        → (poll net show_id p elapsed e).0 ≡ some o
        → IsValid net
            (poll net show_id p elapsed e).1.store
            (erase p.id waiting)
            (insert p.id o outcomes)
            accepted
    unfolding poll
    poll-IsValid show_id p elapsed o h k = rw k (
        finish-IsValid p.id p.rx o h
          (λ r q. v.posted p.id p.rx r h (settle-reported show_id p.id elapsed _ o r k q)))
