-- ===== src/Core/Store/Invariant.antt =====
-- core/src/pending_store.rs: the store's invariant, on the entries and their senders.
use browser_web3_signer.Prelude.{◌<◌, ◌≡◌, some, arith, Option-cases, inl, inr}
use browser_web3_signer.Prelude.Dict.{lookup, lookup-insert, lookup-erase}
use browser_web3_signer.Core.Types.{Uuid, RequestResult}
use browser_web3_signer.Core.Oneshot.{Oneshot, pending}
use browser_web3_signer.Core.Store.{Store, Entry, new, create, complete, cancel}

module _ {R : Type 0} (net : Oneshot RequestResult) where
  open net use {recv, recv-fresh}

  pub record IsValid (s : Store R net) : Type 0 where
    pub bounded : (id : Uuid) (e : Entry R) → lookup id s.pending ≡ some e → e.tx < s.next
    pub unsent :
        (id : Uuid) (e : Entry R) → lookup id s.pending ≡ some e → recv (s.channels e.tx) ≡ pending
    pub own :
        (i j : Uuid) (e f : Entry R)
        → lookup i s.pending ≡ some e
        → lookup j s.pending ≡ some f
        → e.tx ≡ f.tx
        → i ≡ j

  pub new-IsValid : IsValid (new net)
  unfolding new lookup
  new-IsValid = record { bounded = λ id e h. cc; unsent = λ id e h. cc; own = λ i j e f h k p. cc }

  module _ (id : Uuid) (r : R) (s : Store R net) (v : IsValid s) where
    entry : Entry R
    entry = record { request = r; tx = s.next }

    create_bounded :
        (j : Uuid) (e : Entry R)
        → lookup j (create net id r s).1.pending ≡ some e
        → e.tx < (create net id r s).1.next
    unfolding create entry
    create_bounded j e h = ground (arith, lookup-insert id j entry s.pending, v.bounded j e)

    create_unsent :
        (j : Uuid) (e : Entry R)
        → lookup j (create net id r s).1.pending ≡ some e
        → recv ((create net id r s).1.channels e.tx) ≡ pending
    unfolding create entry
    create_unsent j e h = elim (Option-cases (lookup id s.pending)) [
      | inl none_before ↦
          ground
            (arith, lookup-insert id j entry s.pending, v.bounded j e, v.unsent j e, recv-fresh)
      | inr (old, before) ↦ ground (
        arith,
        lookup-insert id j entry s.pending,
        v.bounded j e,
        v.unsent j e,
        v.own id j old e,
        recv-fresh,
      )
    ]

    create_own :
        (i j : Uuid) (e f : Entry R)
        → lookup i (create net id r s).1.pending ≡ some e
        → lookup j (create net id r s).1.pending ≡ some f
        → e.tx ≡ f.tx
        → i ≡ j
    unfolding create entry
    create_own i j e f h k p = ground (
      arith,
      lookup-insert id i entry s.pending,
      lookup-insert id j entry s.pending,
      v.bounded i e,
      v.bounded j f,
      v.own i j e f,
    )

    pub create-IsValid : IsValid (create net id r s).1
    create-IsValid = record { bounded = create_bounded; unsent = create_unsent; own = create_own }

  module _ (id : Uuid) (s : Store R net) (v : IsValid s) where
    pub complete-IsValid : (result : RequestResult) → IsValid (complete net id result s).1
    unfolding complete
    complete-IsValid result = elim (Option-cases (lookup id s.pending)) [
      | inl none_before ↦ record {
        bounded = λ j e h. ground (arith, lookup-erase id j s.pending, v.bounded j e);
        unsent = λ j e h. ground (arith, lookup-erase id j s.pending, v.unsent j e);
        own = λ i j e f h k p.
            ground (arith, lookup-erase id i s.pending, lookup-erase id j s.pending, v.own i j e f);
      }
      | inr (old, before) ↦ record {
        bounded = λ j e h. ground (arith, lookup-erase id j s.pending, v.bounded j e);
        unsent =
            λ j e h. ground (arith, lookup-erase id j s.pending, v.unsent j e, v.own id j old e);
        own = λ i j e f h k p.
            ground (arith, lookup-erase id i s.pending, lookup-erase id j s.pending, v.own i j e f);
      }
    ]

    pub cancel-IsValid : IsValid (cancel net id s).1
    unfolding cancel
    cancel-IsValid = record {
      bounded = λ j e h. ground (arith, lookup-erase id j s.pending, v.bounded j e);
      unsent = λ j e h. elim (Option-cases (lookup id s.pending)) [
        | inl none_before ↦ ground (arith, lookup-erase id j s.pending, v.unsent j e)
        | inr (old, before) ↦
            ground (arith, lookup-erase id j s.pending, v.unsent j e, v.own id j old e)
      ];
      own = λ i j e f h k p.
          ground (arith, lookup-erase id i s.pending, lookup-erase id j s.pending, v.own i j e f);
    }
