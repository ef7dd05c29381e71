-- ===== src/Evm/Signer.antt =====
-- evm/src/signer.rs: `EvmSigner`, the typed operations over an engine. Only the engine of a signer
-- changes, so an operation gives the engine after it. An operation takes the fresh id of its request.
pub mod Laws
use Prim.Native.String.{◌++◌}
use browser_web3_signer.Prelude.{
  ℕ, String, Bool, Option, none, some, Result, ok, err, map_err, unwrap_or,
}
use browser_web3_signer.Core.Json.{Serde}
use browser_web3_signer.Core.Bytes.{Hex, TxHash, Signature, tx_hash_from_str, signature_from_str}
use browser_web3_signer.Core.Errors.{SignerError, invalid}
use browser_web3_signer.Core.Config.{BindPort}
use browser_web3_signer.Core.Browser.{BrowserChoice}
use browser_web3_signer.Core.Types.{Uuid, RequestMeta, RequestResult}
use browser_web3_signer.Core.Oneshot.{Oneshot}
use browser_web3_signer.Core.Engine.{Engine}
use browser_web3_signer.Core.Engine
use browser_web3_signer.Core.Engine.Ask.{ask}
use browser_web3_signer.Core.Engine.Bind.{Tcp}
use browser_web3_signer.Evm.Deps.{Deps}
use browser_web3_signer.Evm.Domain.{ChainId, address_text}
use browser_web3_signer.Evm.Request.{
  EvmRequest, TypedData, SignableMessage, SendTransactionParams, connect, check,
}
use browser_web3_signer.Evm.Request
use browser_web3_signer.Evm.Request.Account.{evm_request}

-- `parse_signed`, for a parser with its error as text; `debug` is the `{:?}` of a text.
unfoldable pub parse_signed :
    {T : Type 0}
    → (String → String)
    → (String → Result T String)
    → String
    → String
    → Result T SignerError
parse_signed debug from_str what raw =
    map_err
      (λ e. invalid ("wallet returned invalid " ++ (what ++ (" " ++ (debug raw ++ (": " ++ e))))))
      (from_str raw)

module _ (json : Serde) (deps : Deps) (net : Oneshot RequestResult) (Routes : Type 0) where
  pub record EvmSigner : Type 0 where
    pub engine : Engine (EvmRequest json deps) net Routes
    pub default_chain_id : ChainId

module _ {Routes : Type 0} (json : Serde) (deps : Deps) (net : Oneshot RequestResult) where
  open deps use {Address}

  unfoldable pub new : String → BindPort → ChainId → BrowserChoice → EvmSigner json deps net Routes
  new web_ui bind c choice = record {
    engine = Engine.new net web_ui bind choice;
    default_chain_id = c;
  }

  unfoldable pub chain_or_default : EvmSigner json deps net Routes → Option ChainId → ChainId
  chain_or_default s c = unwrap_or c s.default_chain_id

  module _ {L : Type 0} (hex : Hex) (show_id : ℕ → String) (tcp : Tcp L)
      (wait : Engine (EvmRequest json deps) net Routes → Engine (EvmRequest json deps) net Routes)
      (elapsed : Bool) (fresh : Uuid) (s : EvmSigner json deps net Routes) where
    abbrev pub asked :
        {T : Type 0}
        → (String → Result T String)
        → String
        → EvmRequest json deps
        → Option (Result T SignerError) × Engine (EvmRequest json deps) net Routes
    asked from_str what r =
        ask net (evm_request json deps show_id) show_id tcp (parse_signed hex.debug from_str what)
          wait elapsed r s.engine

    unfoldable pub connect_wallet :
        Option ChainId
        → Option Address
        → Option (Result Address SignerError) × Engine (EvmRequest json deps) net Routes
    unfolding chain_or_default
    connect_wallet c a = asked (address_text deps) "address" (
        connect (record { id = fresh })
          (record {
            chain_id = some (chain_or_default s c);
            address = a;
            rpc_url = none;
            chain_name = none;
          }))

    -- A transaction with the signer's chain if it names none.
    unfoldable pub on_chain : SendTransactionParams json deps → SendTransactionParams json deps
    unfolding chain_or_default
    on_chain p = record p { chain_id = some (chain_or_default s p.chain_id) }

    -- The call, on what `check` gave.
    unfoldable pub send_checked :
        Result (Unit {0}) String
        → SendTransactionParams json deps
        → Option (Result TxHash SignerError) × Engine (EvmRequest json deps) net Routes
    unfolding on_chain
    send_checked (err e) p = (some (err (invalid e)), s.engine)
    send_checked (ok u) p =
        asked (tx_hash_from_str hex) "tx hash"
          (Request.send_transaction (record { id = fresh }) (on_chain p))

    unfoldable pub send_transaction :
        SendTransactionParams json deps
        → Option (Result TxHash SignerError) × Engine (EvmRequest json deps) net Routes
    unfolding send_checked
    send_transaction p = send_checked (check json deps p) p

    unfoldable pub sign_message :
        SignableMessage json deps
        → Option Address
        → Option ChainId
        → Option (Result Signature SignerError) × Engine (EvmRequest json deps) net Routes
    unfolding chain_or_default
    sign_message t a c =
        asked (signature_from_str hex) "signature"
          (Request.sign_message (record { id = fresh }) (some (chain_or_default s c)) t a)

    unfoldable pub sign_typed_data :
        TypedData json deps
        → Option Address
        → Option ChainId
        → Option (Result Signature SignerError) × Engine (EvmRequest json deps) net Routes
    unfolding chain_or_default
    sign_typed_data t a c =
        asked (signature_from_str hex) "signature"
          (Request.sign_typed_data (record { id = fresh }) (some (chain_or_default s c)) t a)
