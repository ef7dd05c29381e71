-- ===== src/Tron/Account.antt =====
-- tron/src/types.rs: `impl ExpectedAccount`, and the request as the engine uses it.
use browser_web3_signer.Prelude.{
  ℕ, ◌≡◌, refl, ap, ◌∙◌, String, Option, some, Result, ok, map_ok, map_ok-ok,
}
use browser_web3_signer.Core.Json.{Serde}
use browser_web3_signer.Core.Bytes.{Hex}
use browser_web3_signer.Core.Types.{Request, ExpectedAccount, expect_account}
use browser_web3_signer.Core.Types.Laws.{expect_account-ok}
use browser_web3_signer.Tron.Domain.{
  Base58, TronAddress, same_address, same_address_iff, address_from_str, to_base58, shown,
}
use browser_web3_signer.Tron.Request.{
  TronRequest, connect, send_transaction, trigger_contract, deploy_contract, sign_message,
  sign_typed_data, meta, url_kind,
}
use browser_web3_signer.Tron.Wire.{from_json, to_value}

module _ (json : Serde) (base58 : Base58) where
  -- The field that holds the account, and the request with it set.
  abbrev pub account : TronRequest json → Option TronAddress
  account (connect m n a) = a
  account (send_transaction m p) = p.from
  account (trigger_contract m p) = p.from
  account (deploy_contract m p) = p.from
  account (sign_message m n t a) = a
  account (sign_typed_data m n t a) = a

  abbrev pub with_account : Option TronAddress → TronRequest json → TronRequest json
  with_account x (connect m n a) = connect m n x
  with_account x (send_transaction m p) = send_transaction m (record p { from = x })
  with_account x (trigger_contract m p) = trigger_contract m (record p { from = x })
  with_account x (deploy_contract m p) = deploy_contract m (record p { from = x })
  with_account x (sign_message m n t a) = sign_message m n t x
  with_account x (sign_typed_data m n t a) = sign_typed_data m n t x

  unfoldable pub expecting : TronRequest json → TronAddress → Result (TronRequest json) String
  unfolding to_base58 expect_account
  expecting r a =
      map_ok (λ x. with_account x r) (expect_account same_address (to_base58 base58) (account r) a)

  abbrev pub account_env : String
  account_env = "BROWSER_WEB3_TRON_ACCOUNT"

  -- `impl Request` and `impl ExpectedAccount`; a TRON result is not checked here.
  module _ (hex : Hex) (show_id : ℕ → String) where
    abbrev pub tron_request : Request json (TronRequest json)
    tron_request = record {
      id = λ r. (meta json r).id;
      url_kind = url_kind json;
      to_value = to_value json hex base58 show_id;
      from_json = from_json json hex base58;
      check_result = λ r result. ok tt;
    }

    abbrev pub tron_account : ExpectedAccount json (TronRequest json) TronAddress
    tron_account = record {
      request = tron_request;
      account_env = account_env;
      parse_account = shown (address_from_str base58);
      expecting = expecting;
    }

  account-with_account :
      (a : Option TronAddress) (r : TronRequest json) → account (with_account a r) ≡ a
  account-with_account x (connect m n a) = refl
  account-with_account x (send_transaction m p) = refl
  account-with_account x (trigger_contract m p) = refl
  account-with_account x (deploy_contract m p) = refl
  account-with_account x (sign_message m n t a) = refl
  account-with_account x (sign_typed_data m n t a) = refl

  -- A TRON request that is made to expect an account names that account, and is otherwise the request that it was.
  pub tron_expecting_sound :
      (r r' : TronRequest json) (a : TronAddress)
      → expecting r a ≡ ok r'
      → (account r' ≡ some a) × (r' ≡ with_account (some a) r)
  unfolding expecting
  tron_expecting_sound r r' a h =
      let (x, e, is) =
        map_ok-ok (λ y. with_account y r)
          (expect_account same_address (to_base58 base58) (account r) a) h in
      let named : x ≡ some a =
        expect_account-ok same_address (to_base58 base58) same_address_iff (account r) x a e in
      let set : r' ≡ with_account (some a) r = is ∙ ap (λ y. with_account y r) named in
      (rw set (account-with_account (some a) r), set)
