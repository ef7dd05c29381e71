-- ===== src/Evm/Signer/Laws.antt =====
-- evm/src/signer.rs: what the typed operations have done, and what they refuse.
use browser_web3_signer.Prelude.{
  ℕ, ◌≡◌, ◌≢◌, String, Bool, some, unwrap_or, Result, ok, err, map_err-ok, Result-cases, inl, inr,
  length,
}
use browser_web3_signer.Core.Json.{Serde}
use browser_web3_signer.Core.Bytes.{Hex, TxHash, tx_hash_from_str}
use browser_web3_signer.Core.Bytes.Laws.{tx_hash_from_str-length}
use browser_web3_signer.Core.Types.{Uuid, RequestResult}
use browser_web3_signer.Core.Oneshot.{Oneshot}
use browser_web3_signer.Core.Engine.{Engine, submit}
use browser_web3_signer.Core.Engine.Ask.{ask-ok}
use browser_web3_signer.Core.Engine.Bind.{Tcp}
use browser_web3_signer.Evm.Deps.{Deps}
use browser_web3_signer.Evm.Request.{EvmRequest, SendTransactionParams, check}
use browser_web3_signer.Evm.Request
use browser_web3_signer.Evm.Request.WellFormed.{IsSendable, check-IsSendable}
use browser_web3_signer.Evm.Request.Account.{evm_request}
use browser_web3_signer.Evm.Signer.{
  EvmSigner, parse_signed, on_chain, chain_or_default, send_checked, send_transaction,
}

module _ {L Routes : Type 0} (json : Serde) (deps : Deps) (net : Oneshot RequestResult) (hex : Hex)
    (show_id : ℕ → String) (tcp : Tcp L)
    (wait : Engine (EvmRequest json deps) net Routes → Engine (EvmRequest json deps) net Routes)
    (elapsed : Bool) (fresh : Uuid) (s : EvmSigner json deps net Routes)
    (p : SendTransactionParams json deps) where
  -- The request that a transaction becomes: it names the caller's chain, or else the default one.
  abbrev pub transaction : EvmRequest json deps
  transaction =
      Request.send_transaction (record { id = fresh })
        (record p { chain_id = some (unwrap_or p.chain_id s.default_chain_id) })

  send_checked-ok :
      (u : Result (Unit {0}) String) (h : TxHash) (e : Engine (EvmRequest json deps) net Routes)
      → send_checked json deps net hex show_id tcp wait elapsed fresh s u p ≡ (some (ok h), e)
      → (raw : String) × (submit net
            (evm_request json deps show_id)
            show_id
            tcp
            wait
            elapsed
            transaction
            s.engine
          ≡ (some (ok raw), e))
        × (tx_hash_from_str hex raw ≡ ok h)
  unfolding send_checked parse_signed on_chain chain_or_default
  send_checked-ok (err x) h e k = cc
  send_checked-ok (ok u) h e k =
      let (raw, sent, read) =
        ask-ok net (evm_request json deps show_id) show_id tcp
          (parse_signed hex.debug (tx_hash_from_str hex) "tx hash") wait elapsed transaction
          s.engine e h k in
      (raw, sent, map_err-ok _ (tx_hash_from_str hex raw) read)

  refused :
      (x : String) (h : TxHash) (e : Engine (EvmRequest json deps) net Routes)
      → send_checked json deps net hex show_id tcp wait elapsed fresh s (err x) p ≢ (some (ok h), e)
  unfolding send_checked
  refused x h e k = cc

  -- A transaction that the signer reports as sent has a recipient or init code that is not empty; its request names the chain that the caller named or else the signer's default; the hash is of 32 bytes and is what the wallet answered to that request.
  pub send_transaction_sent :
      (h : TxHash) (e : Engine (EvmRequest json deps) net Routes)
      → send_transaction json deps net hex show_id tcp wait elapsed fresh s p ≡ (some (ok h), e)
      → IsSendable json deps p.to p.calldata
        × (length h.bytes ≡ 32)
        × ((raw : String) × (submit net
                (evm_request json deps show_id)
                show_id
                tcp
                wait
                elapsed
                transaction
                s.engine
              ≡ (some (ok raw), e))
            × (tx_hash_from_str hex raw ≡ ok h))
  unfolding send_transaction
  send_transaction_sent h e k = elim (Result-cases (check json deps p)) [
    | inl (u, c) ↦
        let (raw, sent, read) = send_checked-ok (ok tt) h e (rw c at k) in
        (
          check-IsSendable json deps p u c,
          tx_hash_from_str-length hex raw h read,
          (raw, sent, read),
        )
    | inr (x, c) ↦ absurd (refused x h e (rw c at k))
  ]
