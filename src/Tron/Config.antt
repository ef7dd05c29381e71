-- ===== src/Tron/Config.antt =====
-- tron/src/config.rs: the built-in networks, and the network and the port that the environment sets.
use browser_web3_signer.Prelude.{
  ℕ, ◌≡◌, refl, String, Bool, true, false, Option, some, List, [], ◌∷◌, to_option, and_then,
  unwrap_or,
}
use browser_web3_signer.Prelude.Lists.{find}
use browser_web3_signer.Core.Config.{Var, var_ok, Port, port_from_env}
use browser_web3_signer.Tron.Domain.{TronNetwork, mainnet, shasta, nile, network_from_str}

abbrev pub default_tron_port : Port
default_tron_port = record { get = 3848 }

pub record NetworkConfig : Type 0 where
  pub id : TronNetwork
  pub name : String
  pub block_explorer : String
  pub symbol : String
  pub decimals : ℕ

unfoldable pub port : (String → String) → Var → Port
port debug var = port_from_env debug var default_tron_port

unfoldable pub default_network : Var → TronNetwork
default_network var =
    unwrap_or (and_then (var_ok var) (λ v. to_option (network_from_str v))) mainnet

abbrev network : TronNetwork → String → String → NetworkConfig
network id name explorer = record {
  id = id;
  name = name;
  block_explorer = explorer;
  symbol = "TRX";
  decimals = 6;
}

abbrev pub networks : List NetworkConfig
networks =
    network mainnet "Tron Mainnet" "https://tronscan.org"
    ∷ network shasta "Shasta Testnet" "https://shasta.tronscan.org"
    ∷ network nile "Nile Testnet" "https://nile.tronscan.org"
    ∷ []

-- The derived equality of networks.
unfoldable pub same_network : TronNetwork → TronNetwork → Bool
same_network mainnet mainnet = true
same_network shasta shasta = true
same_network nile nile = true
same_network _ _ = false

unfoldable pub network_config : TronNetwork → Option NetworkConfig
unfolding same_network
network_config n = find (λ c. same_network c.id n) networks

-- Every network has its configuration.
pub network_config_total :
    (n : TronNetwork) → (c : NetworkConfig) × (network_config n ≡ some c) × (c.id ≡ n)
unfolding network_config find
network_config_total mainnet = (_, refl, refl)
network_config_total shasta = (_, refl, refl)
network_config_total nile = (_, refl, refl)
