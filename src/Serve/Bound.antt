-- ===== src/Serve/Bound.antt =====
-- serve.rs: the request of a body, for the configured account.
use Prim.Native.String.{◌++◌}
use browser_web3_signer.Prelude.{
  ◌≡◌, sym, ap, String, Option, none, some, Result, ok, err, ◌>>=◌, >>=-ok, ok-injective,
  map_err-ok, Result-cases, inl, inr, arith,
}
use browser_web3_signer.Core.Json.{Serde}
use browser_web3_signer.Core.Types.{Uuid, ExpectedAccount}
use browser_web3_signer.Serve.{request, bind_account}

module _ {json : Serde} {R A : Type 0} (x : ExpectedAccount json R A) where
  -- The request of a body, for the configured account if there is one.
  abbrev pub IsFor : Option A → R → R → Type 0
  IsFor none asked r = r ≡ asked
  IsFor (some a) asked r = x.expecting asked a ≡ ok r

  -- Why a body is refused: it is no request, or it is one that the configured account cannot sign.
  abbrev pub IsDenied : Option A → Result R String → String → Type 0
  IsDenied account (err why) reason = reason ≡ why
  IsDenied none (ok asked) reason = ⊥
  IsDenied (some a) (ok asked) reason =
      (why : String) × (x.expecting asked a ≡ err why)
      × (reason ≡ why ++ (" (set by " ++ (x.account_env ++ ")")))

  pub request-IsFor :
      (account : Option A) (fresh : Uuid) (body : Serde.Value json) (r : R)
      → request json x account fresh body ≡ ok r
      → (asked : R) × (x.request.from_json fresh body ≡ ok asked) × IsFor account asked r
  unfolding request bind_account
  request-IsFor none fresh body r h =
      let (asked, read, k) = >>=-ok (x.request.from_json fresh body) _ h in
      (asked, read, sym (ok-injective k))
  request-IsFor (some a) fresh body r h =
      let (asked, read, k) = >>=-ok (x.request.from_json fresh body) _ h in
      (asked, read, map_err-ok _ (x.expecting asked a) k)

  pub request-IsDenied :
      (account : Option A) (fresh : Uuid) (body : Serde.Value json) (reason : String)
      → request json x account fresh body ≡ err reason
      → IsDenied account (x.request.from_json fresh body) reason
  unfolding request bind_account
  request-IsDenied account fresh body reason h = from account (x.request.from_json fresh body) h
    where
      from :
          (account : Option A) (w : Result R String)
          → (w >>= (λ r. bind_account json x account r)) ≡ err reason
          → IsDenied account w reason
      from account (err why) k = ground arith
      from none (ok asked) k = cc
      from (some a) (ok asked) k = elim (Result-cases (x.expecting asked a)) [
        | inl (r, e) ↦ absurd (ground (arith, e, k))
        | inr (why, e) ↦ (why, e, ground (arith, e, k))
      ]

  pub IsDenied-request :
      (account : Option A) (fresh : Uuid) (body : Serde.Value json) (reason : String)
      → IsDenied account (x.request.from_json fresh body) reason
      → request json x account fresh body ≡ err reason
  unfolding request bind_account
  IsDenied-request account fresh body reason h = from account (x.request.from_json fresh body) h
    where
      from :
          (account : Option A) (w : Result R String)
          → IsDenied account w reason
          → (w >>= (λ r. bind_account json x account r)) ≡ err reason
      from account (err why) k = ap err (sym k)
      from none (ok asked) k = absurd k
      from (some a) (ok asked) (why, e, k) = rw e (ap err (sym k))
