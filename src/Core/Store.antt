-- ===== src/Core/Store.antt =====
-- core/src/pending_store.rs: the requests that await the browser. The store is a map from ids to
-- entries; an entry's sender is the number of its channel, and the channels are part of the state.
-- `Mutex` makes each operation one step.
pub mod Laws
pub mod Invariant
use browser_web3_signer.Prelude.{
  ℕ, zero, suc, ◌+◌, String, Bool, true, false, Option, none, some, List, [], is_some, length, ◌==◌,
  if◌then◌else◌,
}
use browser_web3_signer.Prelude.Dict.{Dict, lookup, insert, erase, keys}
use browser_web3_signer.Core.Types.{Uuid, RequestResult}
use browser_web3_signer.Core.Oneshot.{Oneshot}
use mathlib.Core.Option

abbrev pub update : {S : Type 0} → (ℕ → S) → ℕ → S → ℕ → S
update c k s n = if k == n then s else c n

-- Seconds.
abbrev pub request_timeout : ℕ
request_timeout = 300

pub record Entry (R : Type 0) : Type 0 where
  pub request : R
  pub tx : ℕ

module _ (R : Type 0) (net : Oneshot RequestResult) where
  pub record Store : Type 0 where
    pub pending : Dict (Entry R)
    pub channels : ℕ → Oneshot.State net
    pub next : ℕ

module _ {R : Type 0} (net : Oneshot RequestResult) where
  open net use {State, fresh, send, drop_tx}

  unfoldable pub new : Store R net
  new = record { pending = []; channels = λ _. fresh; next = 0 }

  -- The drop of an entry drops its sender.
  unfoldable pub drop_entry : Option (Entry R) → (ℕ → State) → ℕ → State
  drop_entry none c = c
  drop_entry (some e) c = update c e.tx (drop_tx (c e.tx))

  -- `create`, for a request whose id is `id`, with the receiver. An entry that the id had is dropped.
  unfoldable pub create : Uuid → R → Store R net → ℕ × Store R net
  unfolding drop_entry
  create id r s = (
    s.next,
    record {
      pending = insert id (record { request = r; tx = s.next }) s.pending;
      channels = update (drop_entry (lookup id s.pending) s.channels) s.next fresh;
      next = suc s.next;
    },
  )

  unfoldable pub get : Uuid → Store R net → Option R
  get id s = Option.map Entry.request (lookup id s.pending)

  -- The second half of `complete`, on the removed entry.
  unfoldable pub deliver : RequestResult → Option (Entry R) → Store R net → Bool × Store R net
  deliver result none s = (false, s)
  deliver result (some e) s =
      (true, record s { channels = update s.channels e.tx (send result (s.channels e.tx)) })

  unfoldable pub remove : Uuid → Store R net → Store R net
  remove id s = record s { pending = erase id s.pending }

  unfoldable pub complete : Uuid → RequestResult → Store R net → Bool × Store R net
  unfolding deliver remove
  complete id result s = deliver result (lookup id s.pending) (remove id s)

  unfoldable pub cancel : Uuid → Store R net → Bool × Store R net
  unfolding remove drop_entry
  cancel id s = (
    is_some (lookup id s.pending),
    record (remove id s) { channels = drop_entry (lookup id s.pending) s.channels },
  )

  unfoldable pub has : Uuid → Store R net → Bool
  has id s = is_some (lookup id s.pending)

  unfoldable pub pending_ids : Store R net → List Uuid
  pending_ids s = keys s.pending

  unfoldable pub len : Store R net → ℕ
  len s = length s.pending

  unfoldable pub is_empty : Store R net → Bool
  unfolding len
  is_empty s = len s == 0
