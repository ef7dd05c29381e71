-- ===== src/Tron/Signer.antt =====
-- tron/src/signer.rs: `TronSigner`, the typed operations over an engine. Only the engine of a signer
-- changes, so an operation gives the engine after it. An operation takes the fresh id of its request.
pub mod Laws
use Prim.Native.String.{◌++◌}
use browser_web3_signer.Prelude.{
  ℕ, String, Bool, Option, some, Result, ok, ◌>>=◌, map_err, ok_or, and_then, unwrap_or,
}
use browser_web3_signer.Core.Json.{Serde}
use browser_web3_signer.Core.Bytes.{Hex, TxHash, Signature, tx_hash_from_str, signature_from_str}
use browser_web3_signer.Core.Errors.{SignerError, invalid}
use browser_web3_signer.Core.Config.{BindPort}
use browser_web3_signer.Core.Browser.{BrowserChoice}
use browser_web3_signer.Core.Types.{Uuid, RequestMeta, RequestResult}
use browser_web3_signer.Core.Oneshot.{Oneshot}
use browser_web3_signer.Core.Engine.{Engine}
use browser_web3_signer.Core.Engine
use browser_web3_signer.Core.Engine.Ask.{ask}
use browser_web3_signer.Core.Engine.Bind.{Tcp}
use browser_web3_signer.Tron.Domain.{Base58, TronNetwork, TronAddress, address_from_str, shown}
use browser_web3_signer.Tron.Request.{
  TronRequest, TypedData, SendTransactionParams, TriggerContractParams, DeployContractParams,
  connect,
}
use browser_web3_signer.Tron.Request
use browser_web3_signer.Tron.Account.{tron_request}

pub record DeployResult : Type 0 where
  pub tx_hash : TxHash
  pub contract_address : TronAddress

-- `parse_signed`, for a parser with its error as text; `debug` is the `{:?}` of a text.
unfoldable pub parse_signed :
    {T : Type 0}
    → (String → String)
    → (String → Result T String)
    → String
    → String
    → Result T SignerError
parse_signed debug from_str what raw =
    map_err
      (λ e. invalid ("wallet returned invalid " ++ (what ++ (" " ++ (debug raw ++ (": " ++ e))))))
      (from_str raw)

module _ (json : Serde) (hex : Hex) (base58 : Base58) where
  open json use {Value, get, as_str, from_str}

  -- A field of the result that must hold a text.
  unfoldable pub text_field : String → String → Value → Result String SignerError
  text_field what raw v =
      ok_or (and_then (get v what) as_str)
        (invalid ("deploy result missing " ++ (what ++ (": " ++ raw))))

  unfoldable pub parse_deploy_result : String → Result DeployResult SignerError
  unfolding text_field
  parse_deploy_result raw = do
    v ←
        map_err (λ e. invalid ("malformed deploy result " ++ (hex.debug raw ++ (": " ++ e))))
          (from_str raw)
    t ← text_field "txHash" raw v
    h ← map_err invalid (tx_hash_from_str hex t)
    c ← text_field "contractAddress" raw v
    a ← map_err invalid (shown (address_from_str base58) c)
    ok (record { tx_hash = h; contract_address = a })

module _ (json : Serde) (net : Oneshot RequestResult) (Routes : Type 0) where
  pub record TronSigner : Type 0 where
    pub engine : Engine (TronRequest json) net Routes
    pub default_network : TronNetwork

module _ {Routes : Type 0} (json : Serde) (net : Oneshot RequestResult) where
  unfoldable pub new : String → BindPort → TronNetwork → BrowserChoice → TronSigner json net Routes
  new web_ui bind n choice = record {
    engine = Engine.new net web_ui bind choice;
    default_network = n;
  }

  unfoldable pub network_or_default : TronSigner json net Routes → Option TronNetwork → TronNetwork
  network_or_default s n = unwrap_or n s.default_network

  module _ {L : Type 0} (hex : Hex) (base58 : Base58) (show_id : ℕ → String) (tcp : Tcp L)
      (wait : Engine (TronRequest json) net Routes → Engine (TronRequest json) net Routes)
      (elapsed : Bool) (fresh : Uuid) (s : TronSigner json net Routes) where
    -- An answer of the wallet, and the engine after the call.
    abbrev pub Answer : Type 0 → Type 0
    Answer T = Option (Result T SignerError) × Engine (TronRequest json) net Routes

    abbrev pub asked : {T : Type 0} → (String → Result T SignerError) → TronRequest json → Answer T
    asked parse r =
        ask net (tron_request json base58 hex show_id) show_id tcp parse wait elapsed r s.engine

    abbrev pub meta : RequestMeta
    meta = record { id = fresh }

    -- The signer's network for a request that names none.
    abbrev pub on : Option TronNetwork → Option TronNetwork
    on n = some (unwrap_or n s.default_network)

    unfoldable pub connect_wallet : Option TronNetwork → Option TronAddress → Answer TronAddress
    connect_wallet n a =
        asked (parse_signed hex.debug (shown (address_from_str base58)) "tron address")
          (connect meta (on n) a)

    unfoldable pub send_transaction : SendTransactionParams json → Answer TxHash
    send_transaction p =
        asked (parse_signed hex.debug (tx_hash_from_str hex) "tx hash")
          (Request.send_transaction meta (record p { network = on p.network }))

    unfoldable pub trigger_contract : TriggerContractParams json → Answer TxHash
    trigger_contract p =
        asked (parse_signed hex.debug (tx_hash_from_str hex) "tx hash")
          (Request.trigger_contract meta (record p { network = on p.network }))

    unfoldable pub deploy_contract : DeployContractParams json → Answer DeployResult
    unfolding parse_deploy_result
    deploy_contract p =
        asked (parse_deploy_result json hex base58)
          (Request.deploy_contract meta (record p { network = on p.network }))

    unfoldable pub sign_message :
        String → Option TronAddress → Option TronNetwork → Answer Signature
    sign_message t a n =
        asked (parse_signed hex.debug (signature_from_str hex) "signature")
          (Request.sign_message meta (on n) t a)

    unfoldable pub sign_typed_data :
        TypedData json → Option TronAddress → Option TronNetwork → Answer Signature
    sign_typed_data t a n =
        asked (parse_signed hex.debug (signature_from_str hex) "signature")
          (Request.sign_typed_data meta (on n) t a)
