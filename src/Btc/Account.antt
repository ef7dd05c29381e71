-- ===== src/Btc/Account.antt =====
-- btc/src/types.rs: `impl ExpectedAccount`. The account must be one of the request's network.
use Prim.Native.String.{◌++◌}
use browser_web3_signer.Prelude.{
  ◌≡◌, refl, sym, ap, subst, ◌∙◌, String, Option, some, Result, ok, ◌>>=◌, >>=-ok, map_err,
  map_err-ok, map_ok,
}
use browser_web3_signer.Prelude.{map_ok-ok}
use browser_web3_signer.Core.Types.{expect_account}
use browser_web3_signer.Core.Types.Laws.{expect_account-ok}
use browser_web3_signer.Core.Parse.{display}
use browser_web3_signer.Btc.Deps.{Deps}
use browser_web3_signer.Btc.Domain.{require_network}
use browser_web3_signer.Btc.Request.{
  BtcRequest, connect, send_transfer, sign_psbt, sign_message, network,
}
use browser_web3_signer.Btc.Wire.Acceptable.{IsOn, IsAcceptable, require_network-IsOn}

module _ (deps : Deps) where
  open deps use {Address, show_address, same_address, same_address_iff}

  -- The field that holds the account, and the request with it set.
  abbrev pub account : BtcRequest deps → Option Address
  account (connect m n a) = a
  account (send_transfer m n t f a r) = f
  account (sign_psbt m p) = p.from
  account (sign_message m n t a p) = a

  abbrev pub with_account : Option Address → BtcRequest deps → BtcRequest deps
  with_account x (connect m n a) = connect m n x
  with_account x (send_transfer m n t f a r) = send_transfer m n t x a r
  with_account x (sign_psbt m p) = sign_psbt m (record p { from = x })
  with_account x (sign_message m n t a p) = sign_message m n t x p

  unfoldable pub expecting : BtcRequest deps → Address → Result (BtcRequest deps) String
  unfolding expect_account
  expecting r a = do
    b ← map_err (λ e. "expected account: " ++ display e) (require_network deps a (network deps r))
    map_ok (λ x. with_account x r) (expect_account same_address show_address (account r) b)

  with_account-IsAcceptable :
      (a : Address) (r : BtcRequest deps)
      → IsOn deps (network deps r) (some a)
      → IsAcceptable deps r
      → IsAcceptable deps (with_account (some a) r)
  with_account-IsAcceptable a (connect m n _) on h = on
  with_account-IsAcceptable a (send_transfer m n t f x r) on h = (h.0, on, h.2, h.3)
  with_account-IsAcceptable a (sign_psbt m p) on h = record {
    from_on = on;
    indexes_fit = h.indexes_fit;
    in_psbt = h.in_psbt;
    script_paths = h.script_paths;
    finalized = h.finalized;
  }
  with_account-IsAcceptable a (sign_message m n t _ p) on h = on

  account-with_account : (a : Option Address) (r : BtcRequest deps) → account (with_account a r) ≡ a
  account-with_account a (connect m n _) = refl
  account-with_account a (send_transfer m n t f x r) = refl
  account-with_account a (sign_psbt m p) = refl
  account-with_account a (sign_message m n t _ p) = refl

  -- An acceptable Bitcoin request that is made to expect an account names that account, is otherwise the request that it was, and is acceptable: the account is one of its network.
  pub expecting-IsAcceptable :
      (r r' : BtcRequest deps) (a : Address)
      → IsAcceptable deps r
      → expecting r a ≡ ok r'
      → (account r' ≡ some a) × (r' ≡ with_account (some a) r) × IsAcceptable deps r'
  unfolding expecting
  expecting-IsAcceptable r r' a good h =
      let (b, checked, h1) = >>=-ok (map_err _ (require_network deps a (network deps r))) _ h in
      let (same, on) =
        require_network-IsOn deps a b (network deps r)
          (map_err-ok _ (require_network deps a (network deps r)) checked) in
      let (x, e, is) =
        map_ok-ok (λ y. with_account y r) (expect_account same_address show_address (account r) b)
          h1 in
      let named : x ≡ some a =
        expect_account-ok same_address show_address same_address_iff (account r) x b e
        ∙ ap some (sym same) in
      let set : r' ≡ with_account (some a) r = is ∙ ap (λ y. with_account y r) named in
      (
        rw set (account-with_account (some a) r),
        set,
        subst (IsAcceptable deps) (sym set) (
            with_account-IsAcceptable a r
              (subst (λ y. IsOn deps (network deps r) (some y)) (sym same) on) good),
      )
