-- ===== src/Core/Types/Laws.antt =====
-- `expect_account`, for any account type whose equality is equality.
use browser_web3_signer.Prelude.{◌≡◌, ◌↔◌, String, Bool, true, Option, none, some, ok, arith}
use browser_web3_signer.Core.Types.{expect_account}

module _ {A : Type 0} (same : A → A → Bool) (show : A → String)
    (same_iff : (a b : A) → (same a b ≡ true) ↔ (a ≡ b)) where
  pub expect_account-ok :
      (field x : Option A) (a : A) → expect_account same show field a ≡ ok x → x ≡ some a
  unfolding expect_account
  expect_account-ok none x a h = ground arith
  expect_account-ok (some b) x a h = ground (arith, same_iff b a)
