-- ===== src/Core/Oneshot.antt =====
-- `tokio::sync::oneshot`, which is not in the repository: a channel's state, its operations, and what
-- the receiver gets. The laws are the documented ones of a channel whose receiver is still held.
use browser_web3_signer.Prelude.{◌≡◌}

pub data Recv (A : Type 0) : Type 0 where
  pending : Recv A
  received : A → Recv A
  closed : Recv A

pub record Oneshot (A : Type 0) : Type 1 where
  pub State : Type 0
  pub fresh : State
  -- `tx.send(a)`, and the drop of a `tx` that has sent nothing.
  pub send : A → State → State
  pub drop_tx : State → State
  pub recv : State → Recv A
  pub recv-fresh : recv fresh ≡ pending
  pub recv-send : (a : A) (s : State) → recv s ≡ pending → recv (send a s) ≡ received a
  pub recv-drop_tx : (s : State) → recv s ≡ pending → recv (drop_tx s) ≡ closed
