-- ===== src/Examples/Start.antt =====
-- The start of a `serve` process.
use browser_web3_signer.Prelude.{ℕ, ◌≡◌, refl, String, Option, some, [], ◌∷◌, ok}
use browser_web3_signer.Prelude.Decimal.{decimal}
use browser_web3_signer.Core.Config.{Port, not_present, ephemeral, account_from_env}
use browser_web3_signer.Core.Browser.{print}
use browser_web3_signer.Core.Engine.{Engine, start_with}
use browser_web3_signer.Core.Engine
use browser_web3_signer.Core.Engine.Bind.{bind_listener}
use browser_web3_signer.Evm.Request.{EvmRequest}
use browser_web3_signer.Evm.Request.Account.{evm_account}
use browser_web3_signer.Serve.{configured}
use browser_web3_signer.Cli.{Run}
use browser_web3_signer.Cli.Flow.Printed.{printed}
use browser_web3_signer.Cli.Serve as Serving
use browser_web3_signer.Cli.Serve.Laws.{Sets, serve_ready}
use browser_web3_signer.Examples.Json.{serde}
use browser_web3_signer.Examples.Parts.{net, tcp, deps, show_id}

abbrev routes : Option String → ℕ
routes a = 5

-- A `serve` process for EVM requests on a free port, with no account set.
abbrev serving : Run (Engine (EvmRequest serde deps) net ℕ) (Unit {0})
serving =
    Serving.run (evm_account serde deps show_id) net tcp routes (λ s. s) not_present "html"
      ephemeral print

serve_ready_example :
    (account : Option String) × (listener : ℕ) × (port : Port) × Sets
      (evm_account serde deps show_id)
      not_present
      account
    × (bind_listener tcp ephemeral ≡ ok (listener, port))
    × (serving.engine.server ≡ some (record { port = port; extra = some 5 }))
    × (printed serving.events ≡ decimal port.get ∷ [])
unfolding Serving.run configured account_from_env start_with Engine.new
serve_ready_example =
    serve_ready (evm_account serde deps show_id) net tcp routes (λ s. s) not_present "html"
      ephemeral print refl
