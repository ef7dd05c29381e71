-- ===== src/Evm/Config.antt =====
-- evm/src/config.rs: the built-in chains, and the chain id and the port that the environment sets.
use browser_web3_signer.Prelude.{
  ℕ, zero, suc, ◌<◌, ◌≡◌, ◌^◌, String, Option, none, some, List, [], ◌∷◌, to_option, and_then,
  unwrap_or, ◌==◌, arith, Option-cases, inl, inr,
}
use browser_web3_signer.Prelude.Decimal.{parse_unsigned}
use browser_web3_signer.Prelude.Lists.{find}
use browser_web3_signer.Core.Config.{Var, var_ok, Port, default_port, port_from_env}
use browser_web3_signer.Evm.Domain.{ChainId}

pub record ChainConfig : Type 0 where
  pub id : ChainId
  pub name : String
  pub symbol : String
  pub decimals : ℕ
  pub block_explorer : Option String

abbrev pub default_chain : ChainId
default_chain = 1

unfoldable pub port : (String → String) → Var → Port
port debug var = port_from_env debug var default_port

-- The filter on the parsed variable.
unfoldable pub positive : ℕ → Option ℕ
positive zero = none
positive (suc n) = some (suc n)

unfoldable pub default_chain_id : Var → ChainId
unfolding positive
default_chain_id var =
    unwrap_or
      (and_then (and_then (var_ok var) (λ v. to_option (parse_unsigned (2 ^ 64) v))) positive)
      default_chain

abbrev chain : ℕ → String → String → String → ChainConfig
chain id name symbol explorer = record {
  id = id;
  name = name;
  symbol = symbol;
  decimals = 18;
  block_explorer = some explorer;
}

abbrev pub chains : List ChainConfig
chains =
    chain 1 "Ethereum" "ETH" "https://etherscan.io"
    ∷ chain 11155111 "Sepolia" "ETH" "https://sepolia.etherscan.io"
    ∷ chain 137 "Polygon" "MATIC" "https://polygonscan.com"
    ∷ chain 42161 "Arbitrum One" "ETH" "https://arbiscan.io"
    ∷ chain 10 "Optimism" "ETH" "https://optimistic.etherscan.io"
    ∷ chain 8453 "Base" "ETH" "https://basescan.org"
    ∷ chain 43114 "Avalanche" "AVAX" "https://snowtrace.io"
    ∷ chain 56 "BNB Smart Chain" "BNB" "https://bscscan.com"
    ∷ []

unfoldable pub chain_config : ChainId → Option ChainConfig
chain_config id = find (λ c. c.id == id) chains

find_id :
    (id : ChainId) (cs : List ChainConfig) (c : ChainConfig)
    → find (λ x. x.id == id) cs ≡ some c
    → c.id ≡ id
unfolding find
find_id id [] c h = cc
find_id id (x ∷ cs) c h = ground (arith, find_id id cs c)

-- The configuration that is found for a chain is that chain's.
pub chain_config-id : (id : ChainId) (c : ChainConfig) → chain_config id ≡ some c → c.id ≡ id
unfolding chain_config
chain_config-id id c h = find_id id chains c h

positive-pos : (n m : ℕ) → positive n ≡ some m → 0 < m
unfolding positive
positive-pos zero m h = cc
positive-pos (suc n) m h = ground arith

filtered-pos : (o : Option ℕ) (m : ℕ) → and_then o positive ≡ some m → 0 < m
filtered-pos none m h = cc
filtered-pos (some n) m h = positive-pos n m h

-- Whatever the environment holds, the default chain is no chain 0.
pub default_chain_id-pos : (var : Var) → 0 < default_chain_id var
unfolding default_chain_id
default_chain_id-pos var =
    elim (Option-cases
      (and_then (and_then (var_ok var) (λ v. to_option (parse_unsigned (2 ^ 64) v))) positive)) [
        | inl h ↦ rw h (omega arith)
        | inr (m, h) ↦ rw h (filtered-pos _ m h)
      ]
