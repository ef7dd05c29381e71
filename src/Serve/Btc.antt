-- ===== src/Serve/Btc.antt =====
-- serve.rs for Bitcoin requests: the answer to a PSBT.
use browser_web3_signer.Prelude.{
  ℕ, ◌≡◌, ◌⊎◌, sym, subst, ◌∙◌, String, Bool, true, Option, none, some, ok, ok-injective,
}
use browser_web3_signer.Core.Json.{Serde}
use browser_web3_signer.Core.Config.{Var}
use browser_web3_signer.Core.Types.{Uuid, RequestMeta, RequestResult}
use browser_web3_signer.Core.Oneshot.{Oneshot}
use browser_web3_signer.Core.Engine.{Engine}
use browser_web3_signer.Core.Engine.Bind.{Tcp}
use browser_web3_signer.Core.Http.{Response, reply}
use browser_web3_signer.Btc.Deps.{Deps}
use browser_web3_signer.Btc.Request.{BtcRequest, sign_psbt, PsbtFields}
use browser_web3_signer.Btc.Answer.{SignedPsbt, parse_signed_psbt, check_result, btc_account}
use browser_web3_signer.Btc.Answer.Laws.{parse_signed_psbt_same, check_psbt}
use browser_web3_signer.Serve.{request, handle_request, answer_response}
use browser_web3_signer.Serve.Laws.{answered_200}

module _ {L Routes : Type 0} (json : Serde) (deps : Deps) (env_var : Var) (show_id : ℕ → String)
    (net : Oneshot RequestResult) (tcp : Tcp L) where
  open deps use {compute_txid}
  open json use {object, insert, string, bool, empty}

  -- When the control API answers 200 to a PSBT, the response's JSON says success and carries a text that holds a PSBT of the very transaction that was asked for, and no id of another broadcast.
  pub psbt_served :
      (env : Engine (BtcRequest deps) net Routes → Engine (BtcRequest deps) net Routes)
      (elapsed : Bool) (account : Option deps.Address) (fresh : Uuid) (body : Serde.Value json)
      (e e' : Engine (BtcRequest deps) net Routes) (resp : Response json) (m : RequestMeta)
      (p : PsbtFields deps)
      → request json (btc_account json deps env_var show_id) account fresh body ≡ ok (sign_psbt m p)
      → handle_request json
          (btc_account json deps env_var show_id)
          net
          show_id
          tcp
          env
          elapsed
          account
          fresh
          body
          e
        ≡ (some resp, e')
      → resp.status ≡ 200
      → (v : String) × (s : SignedPsbt deps) × (resp
          ≡ reply 200 (object (insert "result" (string v) (insert "success" (bool true) empty))))
        × (parse_signed_psbt json deps p.psbt v ≡ ok s)
        × (compute_txid s.psbt ≡ compute_txid p.psbt)
        × ((s.txid ≡ none) ⊎ (s.txid ≡ some (compute_txid p.psbt)))
  unfolding answer_response
  psbt_served env elapsed account fresh body e e' resp m p asked h k =
      let (r, v, read, _, passed, said) =
        answered_200 (btc_account json deps env_var show_id) net show_id tcp env elapsed account
          fresh body e e' resp h k in
      let same : r ≡ sign_psbt m p = ok-injective (sym read ∙ asked) in
      let (s, parsed) =
        check_psbt json deps m p v (subst (λ x. check_result json deps x v ≡ ok tt) same passed) in
      let (of_it, sent) = parse_signed_psbt_same json deps p.psbt v s parsed in
      (v, s, said, parsed, of_it, sent)
