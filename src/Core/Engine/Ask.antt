-- ===== src/Core/Engine/Ask.antt =====
-- A typed operation of a signer: a request is submitted to the engine, and what comes back is parsed.
-- As for `submit`, `wait` and `elapsed` are the other tasks and the deadline, and `none` is one that
-- waits.
use mathlib.Core.Option
use browser_web3_signer.Prelude.{
  ℕ, ◌≡◌, String, Bool, Option, none, some, Result, ok, err, ◌>>=◌, arith,
}
use browser_web3_signer.Core.Json.{Serde}
use browser_web3_signer.Core.Errors.{SignerError}
use browser_web3_signer.Core.Types.{Request, RequestResult}
use browser_web3_signer.Core.Oneshot.{Oneshot}
use browser_web3_signer.Core.Engine.Bind.{Tcp}
use browser_web3_signer.Core.Engine.{Engine, submit}

module _ {R Routes : Type 0} {net : Oneshot RequestResult} {T : Type 0}
    (parse : String → Result T SignerError) where
  unfoldable pub parsed :
      Option (Result String SignerError) × Engine R net Routes
      → Option (Result T SignerError) × Engine R net Routes
  parsed (answer, e) = (Option.map (λ r. r >>= parse) answer, e)

  pub parsed-ok :
      (w : Option (Result String SignerError) × Engine R net Routes) (t : T)
      (e : Engine R net Routes)
      → parsed w ≡ (some (ok t), e)
      → (raw : String) × (w ≡ (some (ok raw), e)) × (parse raw ≡ ok t)
  unfolding parsed
  parsed-ok (none, g) t e h = cc
  parsed-ok (some (err x), g) t e h = cc
  parsed-ok (some (ok raw), g) t e h = (raw, ground arith, ground arith)

module _ {R L Routes : Type 0} {json : Serde} (net : Oneshot RequestResult) (q : Request json R)
    (show_id : ℕ → String) (tcp : Tcp L) {T : Type 0} (parse : String → Result T SignerError)
    (wait : Engine R net Routes → Engine R net Routes) (elapsed : Bool) where
  unfoldable pub ask : R → Engine R net Routes → Option (Result T SignerError) × Engine R net Routes
  unfolding parsed
  ask r e = parsed parse (submit net q show_id tcp wait elapsed r e)

  pub ask-ok :
      (r : R) (e e' : Engine R net Routes) (t : T)
      → ask r e ≡ (some (ok t), e')
      → (raw : String) × (submit net q show_id tcp wait elapsed r e ≡ (some (ok raw), e'))
        × (parse raw ≡ ok t)
  unfolding ask
  ask-ok r e e' t h = parsed-ok parse (submit net q show_id tcp wait elapsed r e) t e' h
