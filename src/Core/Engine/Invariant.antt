-- ===== src/Core/Engine/Invariant.antt =====
-- What holds between the store, the futures that wait for an answer, the outcomes that they gave and
-- the results that the bridge has accepted.
use browser_web3_signer.Prelude.{
  ℕ, ◌<◌, ◌≡◌, ◌≢◌, String, Option, none, some, Result, ok, err, arith, Option-cases, inl, inr,
}
use browser_web3_signer.Prelude.Dict.{Dict, lookup, erase, lookup-erase}
use browser_web3_signer.Core.Errors.{SignerError, rejected}
use browser_web3_signer.Core.Types.{Uuid, RequestResult, success, error}
use browser_web3_signer.Core.Oneshot.{Oneshot, pending, received}
use browser_web3_signer.Core.Store.{Store, Entry, cancel}
use browser_web3_signer.Core.Store.Invariant.{create-IsValid, complete-IsValid, cancel-IsValid}
use browser_web3_signer.Core.Store.Invariant

-- The result of a request that an outcome reports, if it reports one.
abbrev pub reported : Result String SignerError → Option RequestResult
reported (ok v) = some (success v)
reported (err (rejected message code)) = some (error message code)
reported (err _) = none

abbrev pub Outcomes : Type 0
Outcomes = Dict (Result String SignerError)

module _ {R : Type 0} (net : Oneshot RequestResult) where
  open net use {recv, recv-fresh, recv-send, recv-drop_tx}

  module _ (s : Store R net) (waiting : Dict ℕ) (outcomes : Outcomes)
      (accepted : Dict RequestResult) where
    pub record IsValid : Type 0 where
      pub stored : Invariant.IsValid net s
      -- A waiting future has the receiver of its entry, and only its own.
      pub made : (id : Uuid) (rx : ℕ) → lookup id waiting ≡ some rx → rx < s.next
      pub matched :
          (id : Uuid) (rx : ℕ) (e : Entry R)
          → lookup id waiting ≡ some rx
          → lookup id s.pending ≡ some e
          → e.tx ≡ rx
      pub apart :
          (i j : Uuid) (rx : ℕ) (e : Entry R)
          → lookup i waiting ≡ some rx
          → lookup j s.pending ≡ some e
          → e.tx ≡ rx
          → i ≡ j
      -- Once its entry is gone, it has its answer.
      pub answered :
          (id : Uuid) (rx : ℕ)
          → lookup id waiting ≡ some rx
          → lookup id s.pending ≡ none
          → recv (s.channels rx) ≢ pending
      pub posted :
          (id : Uuid) (rx : ℕ) (r : RequestResult)
          → lookup id waiting ≡ some rx
          → recv (s.channels rx) ≡ received r
          → lookup id accepted ≡ some r
      pub delivered :
          (id : Uuid) (rx : ℕ) (r : RequestResult)
          → lookup id waiting ≡ some rx
          → lookup id accepted ≡ some r
          → recv (s.channels rx) ≡ received r
      -- An accepted result took the entry out.
      pub taken :
          (id : Uuid) (r : RequestResult) → lookup id accepted ≡ some r → lookup id s.pending ≡ none
      pub ended :
          (id : Uuid) (o : Result String SignerError)
          → lookup id outcomes ≡ some o
          → (lookup id s.pending ≡ none) × (lookup id waiting ≡ none)
      pub genuine :
          (id : Uuid) (o : Result String SignerError) (r : RequestResult)
          → lookup id outcomes ≡ some o
          → reported o ≡ some r
          → lookup id accepted ≡ some r

  module _ {s : Store R net} {waiting : Dict ℕ} {outcomes : Outcomes}
      {accepted : Dict RequestResult} (v : IsValid s waiting outcomes accepted) where
    -- A future that nobody awaits any more is dropped; its entry stays.
    pub abandon-IsValid : (id : Uuid) → IsValid s (erase id waiting) outcomes accepted
    abandon-IsValid id = record {
      stored = v.stored;
      made = λ i rx h. ground (arith, lookup-erase id i waiting, v.made i rx);
      matched = λ i rx e h k. ground (arith, lookup-erase id i waiting, v.matched i rx e);
      apart = λ i j rx e h k p. ground (arith, lookup-erase id i waiting, v.apart i j rx e);
      answered = λ i rx h k. ground (arith, lookup-erase id i waiting, v.answered i rx);
      posted = λ i rx r h k. ground (arith, lookup-erase id i waiting, v.posted i rx r);
      delivered = λ i rx r h k. ground (arith, lookup-erase id i waiting, v.delivered i rx r);
      taken = v.taken;
      ended = λ i o h. ground (arith, lookup-erase id i waiting, v.ended i o);
      genuine = v.genuine;
    }

    module _ (id : Uuid) where
      cancel_answered :
          (i : Uuid) (rx : ℕ)
          → lookup i waiting ≡ some rx
          → lookup i (cancel net id s).1.pending ≡ none
          → recv ((cancel net id s).1.channels rx) ≢ pending
      unfolding cancel
      cancel_answered i rx h k = elim (Option-cases (lookup id s.pending)) [
        | inl gone ↦ ground (arith, lookup-erase id i s.pending, v.answered i rx)
        | inr (e, here) ↦ ground (
          arith,
          lookup-erase id i s.pending,
          v.answered i rx,
          v.matched i rx e,
          v.apart i id rx e,
          v.stored.unsent id e,
          recv-drop_tx (s.channels e.tx),
        )
      ]

      cancel_posted :
          (i : Uuid) (rx : ℕ) (r : RequestResult)
          → lookup i waiting ≡ some rx
          → recv ((cancel net id s).1.channels rx) ≡ received r
          → lookup i accepted ≡ some r
      unfolding cancel
      cancel_posted i rx r h k = elim (Option-cases (lookup id s.pending)) [
        | inl gone ↦ ground (arith, v.posted i rx r)
        | inr (e, here) ↦
            ground (arith, v.posted i rx r, v.stored.unsent id e, recv-drop_tx (s.channels e.tx))
      ]

      cancel_delivered :
          (i : Uuid) (rx : ℕ) (r : RequestResult)
          → lookup i waiting ≡ some rx
          → lookup i accepted ≡ some r
          → recv ((cancel net id s).1.channels rx) ≡ received r
      unfolding cancel
      cancel_delivered i rx r h k = elim (Option-cases (lookup id s.pending)) [
        | inl gone ↦ ground (arith, v.delivered i rx r)
        | inr (e, here) ↦ ground (arith, v.delivered i rx r, v.taken i r, v.apart i id rx e)
      ]

      pub cancel-IsValid_futures : IsValid (cancel net id s).1 waiting outcomes accepted
      unfolding cancel
      cancel-IsValid_futures = record {
        stored = cancel-IsValid net id s v.stored;
        made = λ i rx h. v.made i rx h;
        matched = λ i rx e h k. ground (arith, lookup-erase id i s.pending, v.matched i rx e);
        apart = λ i j rx e h k p. ground (arith, lookup-erase id j s.pending, v.apart i j rx e);
        answered = cancel_answered;
        posted = cancel_posted;
        delivered = cancel_delivered;
        taken = λ i r h. ground (arith, lookup-erase id i s.pending, v.taken i r);
        ended = λ i o h. ground (arith, lookup-erase id i s.pending, v.ended i o);
        genuine = v.genuine;
      }
