-- ===== src/Core/Engine/Preserve.antt =====
-- core/src/engine.rs: the invariant of the futures under a registration and a result that is posted.
use browser_web3_signer.Prelude.{
  ℕ, ◌≡◌, ◌≢◌, none, some, if◌then◌else◌, arith, Option-cases, inl, inr,
}
use browser_web3_signer.Prelude.Dict.{Dict, lookup, insert, lookup-insert, lookup-erase}
use browser_web3_signer.Core.Types.{Uuid, RequestResult}
use browser_web3_signer.Core.Oneshot.{Oneshot, pending, received}
use browser_web3_signer.Core.Store.{Store, Entry, create, complete}
use browser_web3_signer.Core.Store.Invariant.{create-IsValid, complete-IsValid}
use browser_web3_signer.Core.Engine.Invariant.{Outcomes, IsValid}

module _ {R : Type 0} (net : Oneshot RequestResult) where
  open net use {recv, recv-fresh, recv-send}

  module _ {s : Store R net} {waiting : Dict ℕ} {outcomes : Outcomes}
      {accepted : Dict RequestResult} (v : IsValid net s waiting outcomes accepted)
      (id : Uuid) where
    entry : R → Entry R
    entry r = record { request = r; tx = s.next }

    module _ (r : R) (no_entry : lookup id s.pending ≡ none)
        (no_future : lookup id waiting ≡ none) where
      register_answered :
          (i : Uuid) (rx : ℕ)
          → lookup i (insert id s.next waiting) ≡ some rx
          → lookup i (create net id r s).1.pending ≡ none
          → recv ((create net id r s).1.channels rx) ≢ pending
      unfolding create entry
      register_answered i rx h k = ground (
        arith,
        no_entry,
        lookup-insert id i s.next waiting,
        lookup-insert id i (entry r) s.pending,
        v.answered i rx,
        v.made i rx,
      )

      register_posted :
          (i : Uuid) (rx : ℕ) (x : RequestResult)
          → lookup i (insert id s.next waiting) ≡ some rx
          → recv ((create net id r s).1.channels rx) ≡ received x
          → lookup i accepted ≡ some x
      unfolding create entry
      register_posted i rx x h k = ground (
        arith,
        no_entry,
        lookup-insert id i s.next waiting,
        v.posted i rx x,
        v.made i rx,
        recv-fresh,
      )

      register_delivered :
          (i : Uuid) (rx : ℕ) (x : RequestResult)
          → lookup id accepted ≡ none
          → lookup i (insert id s.next waiting) ≡ some rx
          → lookup i accepted ≡ some x
          → recv ((create net id r s).1.channels rx) ≡ received x
      unfolding create entry
      register_delivered i rx x no_result h k =
          ground
            (arith, no_entry, lookup-insert id i s.next waiting, v.delivered i rx x, v.made i rx)

      pub register-IsValid :
          lookup id outcomes ≡ none
          → lookup id accepted ≡ none
          → IsValid net (create net id r s).1 (insert id s.next waiting) outcomes accepted
      unfolding create entry
      register-IsValid no_outcome no_result = record {
        stored = create-IsValid net id r s v.stored;
        made = λ i rx h. ground (arith, lookup-insert id i s.next waiting, v.made i rx);
        matched = λ i rx e h k. ground (
          arith,
          lookup-insert id i s.next waiting,
          lookup-insert id i (entry r) s.pending,
          v.matched i rx e,
        );
        apart = λ i j rx e h k p. ground (
          arith,
          lookup-insert id i s.next waiting,
          lookup-insert id j (entry r) s.pending,
          v.apart i j rx e,
          v.made i rx,
          v.stored.bounded j e,
        );
        answered = register_answered;
        posted = register_posted;
        delivered = λ i rx x h k. register_delivered i rx x no_result h k;
        taken = λ i x h. ground (arith, lookup-insert id i (entry r) s.pending, v.taken i x);
        ended = λ i o h. ground (
          arith,
          lookup-insert id i (entry r) s.pending,
          lookup-insert id i s.next waiting,
          v.ended i o,
        );
        genuine = v.genuine;
      }

    module _ (result : RequestResult) where
      post_absent :
          lookup id s.pending ≡ none
          → IsValid net (complete net id result s).1 waiting outcomes accepted
      unfolding complete
      post_absent gone = record {
        stored = complete-IsValid net id s v.stored result;
        made = λ i rx h. ground (arith, v.made i rx);
        matched = λ i rx e h k. ground (arith, lookup-erase id i s.pending, v.matched i rx e);
        apart = λ i j rx e h k p. ground (arith, lookup-erase id j s.pending, v.apart i j rx e);
        answered = λ i rx h k. ground (arith, lookup-erase id i s.pending, v.answered i rx);
        posted = λ i rx r h k. ground (arith, v.posted i rx r);
        delivered = λ i rx r h k. ground (arith, v.delivered i rx r);
        taken = λ i r h. ground (arith, lookup-erase id i s.pending, v.taken i r);
        ended = λ i o h. ground (arith, lookup-erase id i s.pending, v.ended i o);
        genuine = v.genuine;
      }

      module _ (e : Entry R) (here : lookup id s.pending ≡ some e) where
        post_answered :
            (i : Uuid) (rx : ℕ)
            → lookup i waiting ≡ some rx
            → lookup i (complete net id result s).1.pending ≡ none
            → recv ((complete net id result s).1.channels rx) ≢ pending
        unfolding complete
        post_answered i rx h k = ground (
          arith,
          lookup-erase id i s.pending,
          v.answered i rx,
          v.matched i rx e,
          v.apart i id rx e,
          v.stored.unsent id e,
          recv-send result (s.channels e.tx),
        )

        post_posted :
            (i : Uuid) (rx : ℕ) (r : RequestResult)
            → lookup i waiting ≡ some rx
            → recv ((complete net id result s).1.channels rx) ≡ received r
            → lookup i (insert id result accepted) ≡ some r
        unfolding complete
        post_posted i rx r h k = ground (
          arith,
          lookup-insert id i result accepted,
          v.posted i rx r,
          v.matched i rx e,
          v.apart i id rx e,
          v.stored.unsent id e,
          recv-send result (s.channels e.tx),
        )

        post_delivered :
            (i : Uuid) (rx : ℕ) (r : RequestResult)
            → lookup i waiting ≡ some rx
            → lookup i (insert id result accepted) ≡ some r
            → recv ((complete net id result s).1.channels rx) ≡ received r
        unfolding complete
        post_delivered i rx r h k = ground (
          arith,
          lookup-insert id i result accepted,
          v.delivered i rx r,
          v.matched i rx e,
          v.apart i id rx e,
          v.stored.unsent id e,
          recv-send result (s.channels e.tx),
        )

        post_present :
            IsValid net (complete net id result s).1 waiting outcomes (insert id result accepted)
        unfolding complete
        post_present = record {
          stored = complete-IsValid net id s v.stored result;
          made = λ i rx h. ground (arith, v.made i rx);
          matched = λ i rx f h k. ground (arith, lookup-erase id i s.pending, v.matched i rx f);
          apart = λ i j rx f h k p. ground (arith, lookup-erase id j s.pending, v.apart i j rx f);
          answered = post_answered;
          posted = post_posted;
          delivered = post_delivered;
          taken = λ i r h.
              ground (
                arith,
                lookup-erase id i s.pending,
                lookup-insert id i result accepted,
                v.taken i r,
              );
          ended = λ i o h. ground (arith, lookup-erase id i s.pending, v.ended i o);
          genuine = λ i o r h k. ground (
            arith,
            lookup-insert id i result accepted,
            v.genuine i o r,
            v.taken i r,
            v.ended i o,
          );
        }

      pub post-IsValid :
          IsValid net
            (complete net id result s).1
            waiting
            outcomes
            (if (complete net id result s).0 then insert id result accepted else accepted)
      unfolding complete
      post-IsValid = elim (Option-cases (lookup id s.pending)) [
        | inl gone ↦ rw gone (rw gone at (post_absent gone))
        | inr (e, here) ↦ rw here (rw here at (post_present e here))
      ]
