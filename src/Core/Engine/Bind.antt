-- ===== src/Core/Engine/Bind.antt =====
-- core/src/engine.rs: `bind_listener` and `bind_ephemeral`. `tokio::net` is a parameter.
use Prim.Native.String.{◌++◌}
use browser_web3_signer.Prelude.{
  ℕ, String, Bool, true, false, Result, ok, err, ◌>>=◌, map_err, ok_or,
}
use browser_web3_signer.Prelude.Decimal.{decimal}
use browser_web3_signer.Core.Errors.{SignerError, http}
use browser_web3_signer.Core.Config.{Port, BindPort, preferred, ephemeral, try_new}

-- `std::io::Error`, with the one kind that the source asks about.
pub record IoError : Type 0 where
  pub addr_in_use : Bool
  pub text : String

pub record Tcp (L : Type 0) : Type 0 where
  -- Binds a port of 127.0.0.1; port 0 asks for a free one.
  pub bind : ℕ → Result L IoError
  pub local_port : L → Result ℕ IoError

module _ {L : Type 0} (tcp : Tcp L) where
  unfoldable pub bind_ephemeral : Result (L × Port) SignerError
  unfolding try_new
  bind_ephemeral = do
    listener ← map_err (λ e. http ("bind ephemeral port: " ++ e.text)) (tcp.bind 0)
    raw ← map_err (λ e. http e.text) (tcp.local_port listener)
    port ← ok_or (try_new raw) (http "OS assigned port 0")
    ok (listener, port)

  -- What `bind_listener` does with the bind of the preferred port.
  unfoldable pub or_ephemeral : Port → Result L IoError → Result (L × Port) SignerError
  unfolding bind_ephemeral decimal
  or_ephemeral port (ok listener) = ok (listener, port)
  or_ephemeral port (err (e)) = elim e.addr_in_use [
    | true ↦ bind_ephemeral
    | false ↦ err (http ("bind 127.0.0.1:" ++ (decimal port.get ++ (": " ++ e.text))))
  ]

  unfoldable pub bind_listener : BindPort → Result (L × Port) SignerError
  unfolding or_ephemeral
  bind_listener ephemeral = bind_ephemeral
  bind_listener (preferred port) = or_ephemeral port (tcp.bind port.get)
