-- ===== src/Tron/Signer/Laws.antt =====
-- tron/src/signer.rs: what a deployment that the signer reports has done.
use browser_web3_signer.Prelude.{
  ℕ, ◌≡◌, String, Bool, some, ok, map_err-ok, map_err, >>=-ok, length, unwrap_or, ok-injective,
  subst,
}
use browser_web3_signer.Core.Json.{Serde}
use browser_web3_signer.Core.Bytes.{Hex, tx_hash_from_str}
use browser_web3_signer.Core.Bytes.Laws.{tx_hash_from_str-length}
use browser_web3_signer.Core.Errors.{invalid}
use browser_web3_signer.Core.Types.{Uuid, RequestResult}
use browser_web3_signer.Core.Oneshot.{Oneshot}
use browser_web3_signer.Core.Engine.{Engine, submit}
use browser_web3_signer.Core.Engine.Ask.{ask-ok}
use browser_web3_signer.Core.Engine.Bind.{Tcp}
use browser_web3_signer.Core.Parse.{display}
use browser_web3_signer.Tron.Address.{IsTron}
use browser_web3_signer.Tron.Domain.{Base58, address_from_str, shown}
use browser_web3_signer.Tron.Bounds.{address_from_str-IsTron}
use browser_web3_signer.Tron.Request.{TronRequest, DeployContractParams}
use browser_web3_signer.Tron.Request
use browser_web3_signer.Tron.Account.{tron_request}
use browser_web3_signer.Tron.Signer.{
  TronSigner, DeployResult, text_field, parse_deploy_result, deploy_contract,
}

-- A result of a deployment that is read has a hash of 32 bytes and a TRON address.
pub parse_deploy_result_sound :
    (json : Serde) (hex : Hex) (base58 : Base58) (raw : String) (d : DeployResult)
    → parse_deploy_result json hex base58 raw ≡ ok d
    → (length d.tx_hash.bytes ≡ 32) × IsTron d.contract_address
unfolding parse_deploy_result
parse_deploy_result_sound json hex base58 raw d h =
    let (v, _, h1) = >>=-ok (map_err _ (json.from_str raw)) _ h in
    let (t, _, h2) = >>=-ok (text_field json hex base58 "txHash" raw v) _ h1 in
    let (x, hash, h3) = >>=-ok (map_err invalid (tx_hash_from_str hex t)) _ h2 in
    let (c, _, h4) = >>=-ok (text_field json hex base58 "contractAddress" raw v) _ h3 in
    let (a, address, h5) = >>=-ok (map_err invalid (shown (address_from_str base58) c)) _ h4 in
    let hash_ok =
      tx_hash_from_str-length hex t x (map_err-ok invalid (tx_hash_from_str hex t) hash) in
    let address_ok = address_from_str-IsTron base58 c a (
      map_err-ok display (address_from_str base58 c)
        (map_err-ok invalid (shown (address_from_str base58) c) address)) in
    subst (λ r. (length r.tx_hash.bytes ≡ 32) × IsTron r.contract_address) (ok-injective h5)
      (hash_ok, address_ok)

-- A deployment that the signer reports is the caller's, on the network that it named or else the signer's default; it was answered through the engine, with a hash of 32 bytes and a TRON address.
pub deploy_contract_done :
    {L Routes : Type 0} (json : Serde) (net : Oneshot RequestResult) (hex : Hex) (base58 : Base58)
    (show_id : ℕ → String) (tcp : Tcp L)
    (wait : Engine (TronRequest json) net Routes → Engine (TronRequest json) net Routes)
    (elapsed : Bool) (fresh : Uuid) (s : TronSigner json net Routes) (p : DeployContractParams json)
    (d : DeployResult) (e : Engine (TronRequest json) net Routes)
    → deploy_contract json net hex base58 show_id tcp wait elapsed fresh s p ≡ (some (ok d), e)
    → ((raw : String) × (submit net
            (tron_request json base58 hex show_id)
            show_id
            tcp
            wait
            elapsed
            (Request.deploy_contract
              (record { id = fresh })
              (record p { network = some (unwrap_or p.network s.default_network) }))
            s.engine
          ≡ (some (ok raw), e))
        × (parse_deploy_result json hex base58 raw ≡ ok d))
      × (length d.tx_hash.bytes ≡ 32)
      × IsTron d.contract_address
unfolding deploy_contract
deploy_contract_done json net hex base58 show_id tcp wait elapsed fresh s p d e h =
    let (raw, sent, read) =
      ask-ok net (tron_request json base58 hex show_id) show_id tcp
        (parse_deploy_result json hex base58) wait elapsed
        (Request.deploy_contract (record { id = fresh })
          (record p { network = some (unwrap_or p.network s.default_network) }))
        s.engine e d h in
    let (hash_ok, address_ok) = parse_deploy_result_sound json hex base58 raw d read in
    ((raw, sent, read), hash_ok, address_ok)
