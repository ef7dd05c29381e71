-- ===== src/Serve/Laws.antt =====
-- serve.rs: the statuses of the control API, and what is behind each.
use browser_web3_signer.Prelude.{
  ℕ, ◌≡◌, ◌≢◌, ◌⊎◌, refl, String, Bool, Option, none, some, Result, ok, err, arith, Result-cases,
  inl, inr, ap, sym, ◌∙◌, true,
}
use browser_web3_signer.Serve.Bound.{
  IsFor, IsDenied, request-IsFor, request-IsDenied, IsDenied-request,
}
use browser_web3_signer.Core.Json.{Serde}
use browser_web3_signer.Core.Errors.{SignerError, rejected, timeout, cancelled, http, rpc, invalid}
use browser_web3_signer.Core.Types.{Uuid, Request, ExpectedAccount, RequestResult, success}
use browser_web3_signer.Core.Oneshot.{Oneshot, received}
use browser_web3_signer.Core.Engine.{Engine, Prepared, submit, prepare, await, poll}
use browser_web3_signer.Core.Engine.Settle.{settle-reported}
use browser_web3_signer.Core.Engine.Bind.{Tcp}
use browser_web3_signer.Core.Http.{Response, reply, json_error}
use browser_web3_signer.Serve.{
  request, error_status, signer_error_response, check_answer, answer_response, answered, dispatch,
  handle_request,
}

pub error_status_cases : (y : SignerError) → (error_status y ≡ 409) ⊎ (error_status y ≡ 500)
unfolding error_status
error_status_cases (rejected m c) = inl refl
error_status_cases (timeout n) = inl refl
error_status_cases (cancelled i) = inl refl
error_status_cases (http y) = inr refl
error_status_cases (rpc y) = inr refl
error_status_cases (invalid y) = inr refl

module _ (json : Serde) where
  err-status : (y : SignerError) → (answer_response json (err y)).status ≡ error_status y
  unfolding answer_response signer_error_response
  err-status y = refl

  answer_200 :
      (a : Result String SignerError)
      → (answer_response json a).status ≡ 200
      → (v : String) × (a ≡ ok v)
  answer_200 (ok v) h = (v, refl)
  answer_200 (err y) h = absurd (not_200 (error_status_cases y) (sym (err-status y) ∙ h))
    where
      not_200 : {n : ℕ} → (n ≡ 409) ⊎ (n ≡ 500) → n ≢ 200
      not_200 (inl p) q = omega arith
      not_200 (inr p) q = omega arith

  answer-ne-400 : (a : Result String SignerError) → (answer_response json a).status ≢ 400
  unfolding answer_response
  answer-ne-400 (ok v) h = omega arith
  answer-ne-400 (err y) h = not_400 (error_status_cases y) (sym (err-status y) ∙ h)
    where
      not_400 : {n : ℕ} → (n ≡ 409) ⊎ (n ≡ 500) → n ≢ 400
      not_400 (inl p) q = omega arith
      not_400 (inr p) q = omega arith

module _ {json : Serde} {R A : Type 0} (x : ExpectedAccount json R A) where
  checked :
      (sent : R) (a : Result String SignerError) (v : String)
      → check_answer json x sent a ≡ ok v
      → (a ≡ ok v) × (x.request.check_result sent v ≡ ok tt)
  unfolding check_answer
  checked sent (err y) v h = cc
  checked sent (ok w) v h = elim (Result-cases (x.request.check_result sent w)) [
    | inl (u, passed) ↦ (ground arith, ground arith)
    | inr (y, failed) ↦ ground arith
  ]

module _ {json : Serde} {R A Routes L : Type 0} (x : ExpectedAccount json R A)
    (net : Oneshot RequestResult) (show_id : ℕ → String) (tcp : Tcp L) where
  open json use {object, insert, empty, string, bool}

  -- A value comes from the channel of the request that was registered, and from no other place.
  pub submit_value :
      (q : Request json R) (env : Engine R net Routes → Engine R net Routes) (elapsed : Bool)
      (r : R) (e e' : Engine R net Routes) (v : String)
      → submit net q show_id tcp env elapsed r e ≡ (some (ok v), e')
      → (p : Prepared) × (e₁ : Engine R net Routes) × (prepare net q show_id tcp r e ≡ (ok p, e₁))
        × (Oneshot.recv net ((env e₁).store.channels p.rx) ≡ received (success v))
  unfolding submit await poll
  submit_value q env elapsed r e e' v h = from (prepare net q show_id tcp r e) refl h
    where
      from :
          (w : Result Prepared SignerError × Engine R net Routes)
          → prepare net q show_id tcp r e ≡ w
          → await net q show_id env elapsed w ≡ (some (ok v), e')
          → (p : Prepared) × (e₁ : Engine R net Routes) × (prepare net q show_id tcp r e
              ≡ (ok p, e₁))
            × (Oneshot.recv net ((env e₁).store.channels p.rx) ≡ received (success v))
      from (err y, e₁) k h = cc
      from (ok p, e₁) k h = (
        p,
        e₁,
        k,
        settle-reported show_id p.id elapsed _ (ok v) (success v) (ap (λ w. w.0) h) refl,
      )

  module _ (env : Engine R net Routes → Engine R net Routes) (elapsed : Bool) (account : Option A)
      (fresh : Uuid) (body : Serde.Value json) where
    -- What a 200 comes from.
    pub answered_200 :
        (e e' : Engine R net Routes) (resp : Response json)
        → handle_request json x net show_id tcp env elapsed account fresh body e ≡ (some resp, e')
        → resp.status ≡ 200
        → (r : R) × (v : String) × (request json x account fresh body ≡ ok r)
          × (submit net x.request show_id tcp env elapsed r e ≡ (some (ok v), e'))
          × (x.request.check_result r v ≡ ok tt)
          × (resp ≡ answer_response json (ok v))
    unfolding handle_request dispatch
    answered_200 e e' resp h k = of_request (request json x account fresh body) refl h
      where
        of_answer :
            (r : R) (w : Option (Result String SignerError) × Engine R net Routes)
            → answered json x net show_id tcp r w ≡ (some resp, e')
            → (v : String) × (w ≡ (some (ok v), e'))
              × (x.request.check_result r v ≡ ok tt)
              × (resp ≡ answer_response json (ok v))
        of_answer r (none, g) h = cc
        of_answer r (some a, g) h =
            let (v, good) = answer_200 json (check_answer json x r a) (ground arith) in
            let (same, passed) = checked x r a v good in (v, ground arith, passed, ground arith)

        of_request :
            (q : Result R String)
            → request json x account fresh body ≡ q
            → dispatch json x net show_id tcp env elapsed q e ≡ (some resp, e')
            → (r : R) × (v : String) × (request json x account fresh body ≡ ok r)
              × (submit net x.request show_id tcp env elapsed r e ≡ (some (ok v), e'))
              × (x.request.check_result r v ≡ ok tt)
              × (resp ≡ answer_response json (ok v))
        of_request (err reason) q h = ground arith
        of_request (ok r) q h =
            let (v, sent, passed, said) = of_answer r _ h in (r, v, q, sent, passed, said)

    -- What a 400 comes from.
    answered_400 :
        (e e' : Engine R net Routes) (resp : Response json)
        → handle_request json x net show_id tcp env elapsed account fresh body e ≡ (some resp, e')
        → resp.status ≡ 400
        → (reason : String) × (request json x account fresh body ≡ err reason)
          × (resp ≡ json_error json 400 reason)
          × (e' ≡ e)
    unfolding handle_request dispatch
    answered_400 e e' resp h k = of_request (request json x account fresh body) refl h
      where
        of_request :
            (q : Result R String)
            → request json x account fresh body ≡ q
            → dispatch json x net show_id tcp env elapsed q e ≡ (some resp, e')
            → (reason : String) × (request json x account fresh body ≡ err reason)
              × (resp ≡ json_error json 400 reason)
              × (e' ≡ e)
        of_request (err reason) q h = (reason, q, ground arith, ground arith)
        of_request (ok r) q h =
            absurd (not_400 (submit net x.request show_id tcp env elapsed r e) h)
          where
            not_400 :
                (w : Option (Result String SignerError) × Engine R net Routes)
                → answered json x net show_id tcp r w ≢ (some resp, e')
            not_400 (none, g) h = cc
            not_400 (some a, g) h = answer-ne-400 json (check_answer json x r a) (ground arith)

    -- When the handler answers 200, the body was a request, for the configured account if there is one, the wallet's value passed the request's check, and the answer's JSON says success and that value.
    pub handle_request_served :
        (e e' : Engine R net Routes) (resp : Response json)
        → handle_request json x net show_id tcp env elapsed account fresh body e ≡ (some resp, e')
        → resp.status ≡ 200
        → (asked : R) × (r : R) × (v : String) × (x.request.from_json fresh body ≡ ok asked)
          × IsFor x account asked r
          × (submit net x.request show_id tcp env elapsed r e ≡ (some (ok v), e'))
          × (x.request.check_result r v ≡ ok tt)
          × (resp
              ≡ reply 200
                  (object (insert "result" (string v) (insert "success" (bool true) empty))))
    unfolding answer_response
    handle_request_served e e' resp h k =
        let (r, v, read, sent, passed, said) = answered_200 e e' resp h k in
        let (asked, parsed, for_it) = request-IsFor x account fresh body r read in
        (asked, r, v, parsed, for_it, sent, passed, said)

    -- When the handler answers 400, the body was no request or one that the configured account cannot sign, the answer's JSON names the reason, and the engine is as it was: no page is served and no browser opened.
    pub handle_request_refused :
        (e e' : Engine R net Routes) (resp : Response json)
        → handle_request json x net show_id tcp env elapsed account fresh body e ≡ (some resp, e')
        → resp.status ≡ 400
        → (reason : String) × IsDenied x account (x.request.from_json fresh body) reason
          × (resp ≡ reply 400 (object (insert "error" (string reason) empty)))
          × (e' ≡ e)
    unfolding json_error
    handle_request_refused e e' resp h k =
        let (reason, refused, said, same) = answered_400 e e' resp h k in
        (reason, request-IsDenied x account fresh body reason refused, said, same)

    -- A body that is no request, or one that the configured account cannot sign, is answered 400 with the reason in the answer's JSON, whatever the other tasks do, and the engine stays as it was.
    pub handle_request_denies :
        (e : Engine R net Routes) (reason : String)
        → IsDenied x account (x.request.from_json fresh body) reason
        → handle_request json x net show_id tcp env elapsed account fresh body e
          ≡ (some (reply 400 (object (insert "error" (string reason) empty))), e)
    unfolding handle_request dispatch json_error
    handle_request_denies e reason h = rw (IsDenied-request x account fresh body reason h) refl
