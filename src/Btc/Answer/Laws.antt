-- ===== src/Btc/Answer/Laws.antt =====
-- btc/src/signer.rs: the answers of a wallet that are accepted.
use browser_web3_signer.Prelude.{
  ◌≡◌, ◌⊎◌, inl, inr, refl, sym, String, true, Option, none, some, ok, >>=-ok, map_err, map_err-ok,
  ok-injective, ok≢err, Result-cases, ok_or, and_then, arith,
}
use browser_web3_signer.Core.Json.{Serde}
use browser_web3_signer.Core.Types.{RequestMeta}
use browser_web3_signer.Btc.Deps.{Deps}
use browser_web3_signer.Btc.Domain.{
  BtcNetwork, shown, require_network, to_bitcoin, address_from_str, public_key_from_str,
  psbt_from_str,
}
use browser_web3_signer.Btc.Request.{sign_psbt, PsbtFields}
use browser_web3_signer.Btc.Wire.Acceptable.{require_network-IsOn}
use browser_web3_signer.Btc.Answer.{
  BtcAccount, SignedPsbt, parse_signed, same_transaction, same_broadcast, parse_json, text_field,
  parse_account, txid_field, parse_signed_psbt, check_result,
}

module _ (deps : Deps) where
  open deps use {Txid, same_txid_iff}

  same_transaction-ok : (a b : Txid) → same_transaction deps a b ≡ ok tt → a ≡ b
  unfolding same_transaction
  same_transaction-ok a b h = ground (arith, same_txid_iff a b)

  same_broadcast-ok :
      (a : Txid) (t : Option Txid) → same_broadcast deps a t ≡ ok tt → (t ≡ none) ⊎ (t ≡ some a)
  unfolding same_broadcast
  same_broadcast-ok a none h = inl refl
  same_broadcast-ok a (some t) h = inr (ground (arith, same_txid_iff t a))

module _ (json : Serde) (deps : Deps) where
  open deps use {compute_txid}

  -- A signed PSBT that is accepted is of the transaction that the wallet was given, and so is the broadcast that it reports, if it reports one.
  pub parse_signed_psbt_same :
      (unsigned : deps.Psbt) (raw : String) (s : SignedPsbt deps)
      → parse_signed_psbt json deps unsigned raw ≡ ok s
      → (compute_txid s.psbt ≡ compute_txid unsigned)
        × ((s.txid ≡ none) ⊎ (s.txid ≡ some (compute_txid unsigned)))
  unfolding parse_signed_psbt
  parse_signed_psbt_same unsigned raw s h =
      let (v, _, h1) = >>=-ok (parse_json json deps "sign_psbt" raw) _ h in
      let (t, _, h2) = >>=-ok (ok_or (and_then (json.get v "psbt") json.as_str) _) _ h1 in
      let (p, _, h3) = >>=-ok (parse_signed deps (shown (psbt_from_str deps)) t "psbt") _ h2 in
      let (_, same, h4) =
        >>=-ok (same_transaction deps (compute_txid unsigned) (compute_txid p)) _ h3 in
      let (x, _, h5) =
        >>=-ok (txid_field json deps (and_then (json.get v "txid") json.as_str)) _ h4 in
      let (_, sent, h6) = >>=-ok (same_broadcast deps (compute_txid unsigned) x) _ h5 in
      rw (sym (ok-injective h6))
        (sym (same_transaction-ok deps _ _ same), same_broadcast-ok deps _ x sent)

  -- A connected account that is accepted is one of the network that was asked for.
  pub parse_account_on :
      (raw : String) (n : BtcNetwork) (a : BtcAccount deps)
      → parse_account json deps raw n ≡ ok a
      → deps.is_valid_for_network a.address (to_bitcoin deps n) ≡ true
  unfolding parse_account
  parse_account_on raw n a h =
      let (v, _, h1) = >>=-ok (parse_json json deps "connect" raw) _ h in
      let (s, _, h2) = >>=-ok (text_field json deps "address" raw v) _ h1 in
      let (u, _, h3) =
        >>=-ok (parse_signed deps (shown (address_from_str deps)) s "address") _ h2 in
      let (b, on, h4) = >>=-ok (map_err _ (require_network deps u n)) _ h3 in
      let (k, _, h5) = >>=-ok (text_field json deps "publicKey" raw v) _ h4 in
      let (p, _, h6) =
        >>=-ok (parse_signed deps (shown (public_key_from_str deps)) k "public key") _ h5 in
      rw (sym (ok-injective h6))
        (require_network-IsOn deps u b n (map_err-ok _ (require_network deps u n) on)).1

  pub check_psbt :
      (m : RequestMeta) (p : PsbtFields deps) (v : String)
      → check_result json deps (sign_psbt m p) v ≡ ok tt
      → (s : SignedPsbt deps) × (parse_signed_psbt json deps p.psbt v ≡ ok s)
  unfolding check_result
  check_psbt m p v h = elim (Result-cases (parse_signed_psbt json deps p.psbt v)) [
    | inl (s, e) ↦ (s, e)
    | inr (x, e) ↦ absurd (ok≢err (sym (rw e at h)))
  ]
