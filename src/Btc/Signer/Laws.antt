-- ===== src/Btc/Signer/Laws.antt =====
-- btc/src/signer.rs: what a typed operation that succeeds has done.
use browser_web3_signer.Prelude.{
  ℕ, ◌≡◌, ◌⊎◌, refl, String, Bool, Option, none, some, Result, ok, err, unwrap_or, true,
}
use browser_web3_signer.Core.Json.{Serde}
use browser_web3_signer.Core.Errors.{SignerError}
use browser_web3_signer.Core.Config.{Var}
use browser_web3_signer.Core.Types.{Uuid, RequestResult}
use browser_web3_signer.Core.Oneshot.{Oneshot}
use browser_web3_signer.Core.Parse.{DomainParseError}
use browser_web3_signer.Core.Engine.{Engine, submit}
use browser_web3_signer.Core.Engine.Ask.{ask-ok}
use browser_web3_signer.Core.Engine.Bind.{Tcp}
use browser_web3_signer.Btc.Deps.{Deps}
use browser_web3_signer.Btc.Domain.{BtcNetwork, to_bitcoin}
use browser_web3_signer.Btc.Request.{BtcRequest, SignPsbtParams, new_sign_psbt, new_connect}
use browser_web3_signer.Btc.Answer.{
  BtcAccount, SignedPsbt, parse_account, parse_signed_psbt, btc_request,
}
use browser_web3_signer.Btc.Answer.Laws.{parse_signed_psbt_same, parse_account_on}
use browser_web3_signer.Btc.Signer.{BtcSigner, call, sign_psbt, connect_wallet}

module _ {L Routes : Type 0} (json : Serde) (deps : Deps) (env : Var) (show_id : ℕ → String)
    (net : Oneshot RequestResult) (tcp : Tcp L) where
  open deps use {compute_txid}

  call-ok :
      {T : Type 0} (parse : String → Result T SignerError)
      (wait : Engine (BtcRequest deps) net Routes → Engine (BtcRequest deps) net Routes)
      (elapsed : Bool) (s s' : BtcSigner deps net Routes)
      (built : Result (BtcRequest deps) DomainParseError) (t : T)
      → call json deps env show_id net tcp parse wait elapsed s built ≡ (some (ok t), s')
      → (r : BtcRequest deps) × (raw : String) × (built ≡ ok r)
        × (submit net (btc_request json deps env show_id) show_id tcp wait elapsed r s.engine
            ≡ (some (ok raw), s'.engine))
        × (parse raw ≡ ok t)
  unfolding call
  call-ok parse wait elapsed s s' (err x) t h = cc
  call-ok parse wait elapsed s s' (ok r) t h =
      let (raw, sent, parsed) =
        ask-ok net (btc_request json deps env show_id) show_id tcp parse wait elapsed r s.engine
          s'.engine t (λ i. ((h i).0, (h i).1.engine)) in
      (r, raw, refl, sent, parsed)

  module _ (wait : Engine (BtcRequest deps) net Routes → Engine (BtcRequest deps) net Routes)
      (elapsed : Bool) (fresh : Uuid) (s s' : BtcSigner deps net Routes) where
    -- A PSBT that the signer returns is of the transaction that the caller passed, its request was built from the caller's parameters and answered through the engine, and the broadcast that it reports, if any, is of that transaction.
    pub sign_psbt_same :
        (p : SignPsbtParams deps) (signed : SignedPsbt deps)
        → sign_psbt json deps env show_id net tcp wait elapsed fresh p s ≡ (some (ok signed), s')
        → (r : BtcRequest deps) × (raw : String) × (new_sign_psbt deps (record { id = fresh }) p
            ≡ ok r)
          × (submit net (btc_request json deps env show_id) show_id tcp wait elapsed r s.engine
              ≡ (some (ok raw), s'.engine))
          × (compute_txid signed.psbt ≡ compute_txid p.psbt)
          × ((signed.txid ≡ none) ⊎ (signed.txid ≡ some (compute_txid p.psbt)))
    unfolding sign_psbt
    sign_psbt_same p signed h =
        let (r, raw, built, sent, parsed) =
          call-ok (parse_signed_psbt json deps p.psbt) wait elapsed s s'
            (new_sign_psbt deps (record { id = fresh }) p) signed h in
        let (same, broadcast) = parse_signed_psbt_same json deps p.psbt raw signed parsed in
        (r, raw, built, sent, same, broadcast)

    -- The account that the signer returns is one of the network that the caller asked for, or of the signer's default network if the caller named none.
    pub connect_wallet_on :
        (network : Option BtcNetwork) (address : Option deps.Address) (a : BtcAccount deps)
        → connect_wallet json deps env show_id net tcp wait elapsed fresh network address s
          ≡ (some (ok a), s')
        → deps.is_valid_for_network a.address
            (to_bitcoin deps (unwrap_or network s.default_network))
          ≡ true
    unfolding connect_wallet
    connect_wallet_on network address a h =
        let n = unwrap_or network s.default_network in
        let (r, raw, built, sent, parsed) =
          call-ok (λ x. parse_account json deps x n) wait elapsed s s'
            (new_connect deps (record { id = fresh }) n address) a h in
        parse_account_on json deps raw n a parsed
