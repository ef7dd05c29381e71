-- ===== src/Core/Store/Laws.antt =====
-- The store as a map: what each operation answers and what it leaves in the store.
use browser_web3_signer.Prelude.{
  ◌+◌, ◌≡◌, refl, false, none, some, is_some, ◌==◌, if◌then◌else◌, arith, Option-cases, inl, inr,
}
use browser_web3_signer.Prelude.Dict.{
  lookup, erase, lookup-insert, lookup-erase, length-insert_new, erase_absent,
}
use browser_web3_signer.Core.Types.{Uuid, RequestResult}
use browser_web3_signer.Core.Oneshot.{Oneshot}
use browser_web3_signer.Core.Store.{Store, create, get, complete, cancel, has, len}

module _ {R : Type 0} (net : Oneshot RequestResult) where
  pub pending-complete :
      (id : Uuid) (result : RequestResult) (s : Store R net)
      → (complete net id result s).1.pending ≡ erase id s.pending
  unfolding complete
  pending-complete id result s = ground arith

  pub get-create :
      (id j : Uuid) (r : R) (s : Store R net)
      → get net j (create net id r s).1 ≡ (if id == j then some r else get net j s)
  unfolding get create
  get-create id j r s =
      ground (arith, lookup-insert id j (record { request = r; tx = s.next }) s.pending)

  pub get-complete :
      (id j : Uuid) (result : RequestResult) (s : Store R net)
      → get net j (complete net id result s).1 ≡ (if id == j then none else get net j s)
  unfolding get
  get-complete id j result s =
      rw (pending-complete id result s) (ground (arith, lookup-erase id j s.pending))

  pub get-cancel :
      (id j : Uuid) (s : Store R net)
      → get net j (cancel net id s).1 ≡ (if id == j then none else get net j s)
  unfolding get cancel
  get-cancel id j s = ground (arith, lookup-erase id j s.pending)

  pub has-get : (id : Uuid) (s : Store R net) → has net id s ≡ is_some (get net id s)
  unfolding has get
  has-get id s = ground arith

  -- `complete` and `cancel` answer whether the request was pending.
  pub complete-has :
      (id : Uuid) (result : RequestResult) (s : Store R net)
      → (complete net id result s).0 ≡ has net id s
  unfolding complete has
  complete-has id result s = ground arith

  pub cancel-has : (id : Uuid) (s : Store R net) → (cancel net id s).0 ≡ has net id s
  unfolding cancel has
  cancel-has id s = refl

  pub len-create_new :
      (id : Uuid) (r : R) (s : Store R net)
      → has net id s ≡ false
      → len net (create net id r s).1 ≡ len net s + 1
  unfolding len create has
  len-create_new id r s h =
      length-insert_new id (record { request = r; tx = s.next }) s.pending (ground arith)

  pub complete_absent :
      (id : Uuid) (result : RequestResult) (s : Store R net)
      → has net id s ≡ false
      → (complete net id result s).1 ≡ s
  unfolding complete has
  complete_absent id result s h = elim (Option-cases (lookup id s.pending)) [
    | inl gone ↦ rw (gone, erase_absent id s.pending gone) refl
    | inr (e, here) ↦ ground arith
  ]
