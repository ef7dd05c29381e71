-- ===== src/Cli/Evm/Silent.antt =====
-- crates/browser-web3-signer/src/evm.rs: a command that has not succeeded.
use browser_web3_signer.Prelude.{ℕ, ◌≡◌, ◌≢◌, String, Bool, some, [], Result, ok}
use browser_web3_signer.Core.Json.{Serde}
use browser_web3_signer.Core.Bytes.{Hex}
use browser_web3_signer.Core.Types.{Uuid, RequestResult}
use browser_web3_signer.Core.Oneshot.{Oneshot}
use browser_web3_signer.Core.Engine.{Engine}
use browser_web3_signer.Core.Engine.Bind.{Tcp}
use browser_web3_signer.Evm.Deps.{Deps}
use browser_web3_signer.Evm.Request.{EvmRequest}
use browser_web3_signer.Cli.{Host}
use browser_web3_signer.Cli.Flow.Printed.{printed}
use browser_web3_signer.Cli.Evm.{TypedDataFile, EvmCli, Done}

module _ {L Routes : Type 0} (serde : Serde) (deps : Deps) (net : Oneshot RequestResult)
    (host : Host serde) (hex : Hex) (show_id : ℕ → String) (tcp : Tcp L)
    (parse_typed_data : String → Result (TypedDataFile serde) String)
    (wait : Engine (EvmRequest serde deps) net Routes → Engine (EvmRequest serde deps) net Routes)
    (elapsed : Bool) (fresh : Uuid) (cli : EvmCli serde deps net Routes) where
  abbrev IsSilent :
      Done serde deps net host hex show_id tcp parse_typed_data wait elapsed fresh cli → Type 0
  IsSilent d = d.result ≢ some (ok tt) → printed d.events ≡ []
