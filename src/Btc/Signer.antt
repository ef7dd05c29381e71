-- ===== src/Btc/Signer.antt =====
-- btc/src/signer.rs: `BtcSigner`, the typed operations over an engine. An operation takes the fresh id
-- of its request, and `wait` and `elapsed` for the await as `submit` does; `none` is one that waits.
pub mod Laws
use mathlib.Core.Option
use browser_web3_signer.Prelude.{
  ℕ, String, Bool, Option, none, some, Result, ok, err, ◌>>=◌, unwrap_or,
}
use browser_web3_signer.Core.Json.{Serde}
use browser_web3_signer.Core.Errors.{SignerError, invalid}
use browser_web3_signer.Core.Config.{Var, Port, BindPort, preferred}
use browser_web3_signer.Core.Browser.{BrowserChoice}
use browser_web3_signer.Core.Types.{Uuid, RequestResult}
use browser_web3_signer.Core.Oneshot.{Oneshot}
use browser_web3_signer.Core.Parse.{DomainParseError, display}
use browser_web3_signer.Core.Engine.{Engine}
use browser_web3_signer.Core.Engine
use browser_web3_signer.Core.Engine.Bind.{Tcp}
use browser_web3_signer.Core.Engine.Ask.{ask}
use browser_web3_signer.Btc.Deps.{Deps}
use browser_web3_signer.Btc.Domain.{BtcNetwork, UncheckedAddress, shown, signature_from_str}
use browser_web3_signer.Btc.Request.{
  BtcRequest, SendTransferParams, SignPsbtParams, SignMessageParams, new_connect, new_send_transfer,
  new_sign_psbt, new_sign_message,
}
use browser_web3_signer.Btc.Answer.{
  BtcAccount, SignedPsbt, parse_signed, parse_account, parse_signed_psbt, btc_request,
}

module _ (deps : Deps) (net : Oneshot RequestResult) (Routes : Type 0) where
  pub record BtcSigner : Type 0 where
    pub engine : Engine (BtcRequest deps) net Routes
    pub default_network : BtcNetwork

module _ {Routes : Type 0} (deps : Deps) (net : Oneshot RequestResult) where
  unfoldable pub new : String → BindPort → BtcNetwork → BrowserChoice → BtcSigner deps net Routes
  new web_ui bind n choice = record {
    engine = Engine.new net web_ui bind choice;
    default_network = n;
  }

module _ {L : Type 0} {Routes : Type 0} (json : Serde) (deps : Deps) (env : Var)
    (show_id : ℕ → String) (net : Oneshot RequestResult) (tcp : Tcp L) where
  -- The signer with the engine after a call.
  abbrev pub with_engine :
      {T : Type 0}
      → BtcSigner deps net Routes
      → T × Engine (BtcRequest deps) net Routes
      → T × BtcSigner deps net Routes
  with_engine s (answer, e) = (answer, record s { engine = e })

  -- A request that is built is submitted and its answer parsed; an error of the builder ends the call.
  unfoldable pub call :
      {T : Type 0}
      → (String → Result T SignerError)
      → (Engine (BtcRequest deps) net Routes → Engine (BtcRequest deps) net Routes)
      → Bool
      → BtcSigner deps net Routes
      → Result (BtcRequest deps) DomainParseError
      → Option (Result T SignerError) × BtcSigner deps net Routes
  unfolding ask
  call parse wait elapsed s (err x) = (some (err (invalid (display x))), s)
  call parse wait elapsed s (ok r) =
      with_engine s
        (ask net (btc_request json deps env show_id) show_id tcp parse wait elapsed r s.engine)

  module _ (wait : Engine (BtcRequest deps) net Routes → Engine (BtcRequest deps) net Routes)
      (elapsed : Bool) (fresh : Uuid) where
    unfoldable pub connect_wallet :
        Option BtcNetwork
        → Option (UncheckedAddress deps)
        → BtcSigner deps net Routes
        → Option (Result (BtcAccount deps) SignerError) × BtcSigner deps net Routes
    unfolding call
    connect_wallet network address s =
        let n = unwrap_or network s.default_network in
        call (λ raw. parse_account json deps raw n) wait elapsed s
          (new_connect deps (record { id = fresh }) n address)

    unfoldable pub send_transfer :
        SendTransferParams deps
        → BtcSigner deps net Routes
        → Option (Result deps.Txid SignerError) × BtcSigner deps net Routes
    unfolding call
    send_transfer p s =
        call (λ raw. parse_signed deps deps.parse_txid raw "txid") wait elapsed s
          (new_send_transfer deps (record { id = fresh }) p)

    unfoldable pub sign_psbt :
        SignPsbtParams deps
        → BtcSigner deps net Routes
        → Option (Result (SignedPsbt deps) SignerError) × BtcSigner deps net Routes
    unfolding call
    sign_psbt p s =
        call (parse_signed_psbt json deps p.psbt) wait elapsed s
          (new_sign_psbt deps (record { id = fresh }) p)

    unfoldable pub sign_message :
        SignMessageParams deps
        → BtcSigner deps net Routes
        → Option (Result deps.Bytes SignerError) × BtcSigner deps net Routes
    unfolding call
    sign_message p s =
        call (λ raw. parse_signed deps (shown (signature_from_str deps)) raw "signature") wait
          elapsed s (new_sign_message deps (record { id = fresh }) p)
