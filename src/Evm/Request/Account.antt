-- ===== src/Evm/Request/Account.antt =====
-- evm/src/types.rs: `ExpectedAccount` of an EVM request, and the request as the engine uses it.
use browser_web3_signer.Prelude.{
  ℕ, ◌≡◌, ◌≢◌, ◌↔◌, refl, String, Option, some, Result, ok, err, map_ok, ap, sym, ◌∙◌, ok-injective,
  ok≢err, Option-cases, Bool-cases, inl, inr,
}
use Prim.Native.String.{◌++◌}
use mathlib.Core.Bool.{false≢true}
use browser_web3_signer.Core.Json.{Serde}
use browser_web3_signer.Core.Types.{Request, ExpectedAccount, expect_account}
use browser_web3_signer.Core.Types.Laws.{expect_account-ok}
use browser_web3_signer.Evm.Deps.{Deps}
use browser_web3_signer.Evm.Domain.{address_text}
use browser_web3_signer.Evm.Request.{
  EvmRequest, connect, send_transaction, sign_message, sign_typed_data, meta, url_kind, from_json,
  to_value,
}

module _ (json : Serde) (deps : Deps) where
  open deps use {Address, show_address, same_address, same_address_iff}

  -- The field that holds the account, and the request with it set.
  abbrev pub account : EvmRequest json deps → Option Address
  account (connect m p) = p.address
  account (send_transaction m p) = p.from
  account (sign_message m c t a) = a
  account (sign_typed_data m c t a) = a

  abbrev pub with_account : Option Address → EvmRequest json deps → EvmRequest json deps
  with_account a (connect m p) = connect m (record p { address = a })
  with_account a (send_transaction m p) = send_transaction m (record p { from = a })
  with_account a (sign_message m c t _) = sign_message m c t a
  with_account a (sign_typed_data m c t _) = sign_typed_data m c t a

  unfoldable pub expecting : EvmRequest json deps → Address → Result (EvmRequest json deps) String
  expecting r a =
      map_ok (λ x. with_account x r) (expect_account same_address show_address (account r) a)

  abbrev pub account_env : String
  account_env = "BROWSER_WEB3_EVM_ACCOUNT"

  -- `impl Request` and `impl ExpectedAccount`; an EVM result is not checked here.
  module _ (show_id : ℕ → String) where
    abbrev pub evm_request : Request json (EvmRequest json deps)
    evm_request = record {
      id = λ r. (meta json deps r).id;
      url_kind = url_kind json deps;
      to_value = to_value json deps show_id;
      from_json = from_json json deps;
      check_result = λ r result. ok tt;
    }

    abbrev pub evm_account : ExpectedAccount json (EvmRequest json deps) Address
    evm_account = record {
      request = evm_request;
      account_env = account_env;
      parse_account = address_text deps;
      expecting = expecting;
    }

  account-with_account :
      (a : Option Address) (r : EvmRequest json deps) → account (with_account a r) ≡ a
  account-with_account a (connect m p) = refl
  account-with_account a (send_transaction m p) = refl
  account-with_account a (sign_message m c t _) = refl
  account-with_account a (sign_typed_data m c t _) = refl

  -- A request that is made to expect an account names that account, and is otherwise the request that it was.
  pub expecting_sound :
      (r r' : EvmRequest json deps) (a : Address)
      → expecting r a ≡ ok r'
      → (account r' ≡ some a) × (r' ≡ with_account (some a) r)
  unfolding expecting
  expecting_sound r r' a h = found (expect_account same_address show_address (account r) a) refl h
    where
      found :
          (e : Result (Option Address) String)
          → expect_account same_address show_address (account r) a ≡ e
          → map_ok (λ x. with_account x r) e ≡ ok r'
          → (account r' ≡ some a) × (r' ≡ with_account (some a) r)
      found (err e) k h = cc
      found (ok x) k h =
          let same : x ≡ some a =
            expect_account-ok same_address show_address same_address_iff (account r) x a k in
          let is : r' ≡ with_account (some a) r =
            sym (ok-injective h) ∙ ap (λ y. with_account y r) same in
          (rw is (account-with_account (some a) r), is)

  -- A request is refused exactly when it names another account.
  pub expecting_refused :
      (r : EvmRequest json deps) (a : Address)
      → ((reason : String) × (expecting r a ≡ err reason))
        ↔ ((named : Address) × (account r ≡ some named) × (named ≢ a))
  unfolding expecting expect_account
  expecting_refused r a = elim (Option-cases (account r)) [
    | inl unset ↦ (λ w. absurd (ok≢err (rw unset at w.1)), λ w. cc (unset, w.1))
    | inr (b, set) ↦ elim (Bool-cases (same_address b a)) [
      | inl same ↦ (
        λ w. absurd (ok≢err (rw (set, same) at w.1)),
        λ w. absurd (w.2 (cc (w.1, set, (same_address_iff b a).0 same))),
      )
      | inr differs ↦ (
        λ w. (b, set, λ e. false≢true (sym differs ∙ (same_address_iff b a).1 e)),
        λ w. (
          "the request names account "
              ++ (show_address b ++ (", not the expected " ++ show_address a)),
          rw (set, differs) refl,
        ),
      )
    ]
  ]
