-- ===== src/Btc/Answer.antt =====
-- btc/src/signer.rs: what a wallet returned, parsed and checked against the request; and `check_result`
-- of btc/src/types.rs, which applies the same checks.
pub mod Laws
use Prim.Native.String.{◌++◌}
use mathlib.Core.Option
use browser_web3_signer.Prelude.{
  ℕ, String, Bool, Option, none, some, Result, ok, err, ◌>>=◌, ◌>>◌, map_err, map_ok, ok_or,
  transpose, and_then, if◌then◌else◌,
}
use browser_web3_signer.Core.Json.{Serde}
use browser_web3_signer.Core.Errors.{SignerError, invalid, to_string}
use browser_web3_signer.Core.Config.{Var}
use browser_web3_signer.Core.Types.{Request, ExpectedAccount}
use browser_web3_signer.Core.Parse.{display}
use browser_web3_signer.Btc.Deps.{Deps}
use browser_web3_signer.Btc.Domain.{
  BtcNetwork, BtcAddress, PsbtData, shown, require_network, address_from_str, public_key_from_str,
  psbt_from_str, signature_from_str,
}
use browser_web3_signer.Btc.Request.{
  BtcRequest, connect, send_transfer, sign_psbt, sign_message, meta, url_kind,
}
use browser_web3_signer.Btc.Wire.{from_json, to_value}
use browser_web3_signer.Btc.Account.{expecting}

module _ (deps : Deps) where
  pub record BtcAccount : Type 0 where
    pub address : BtcAddress deps
    pub public_key : deps.PublicKey

  pub record SignedPsbt : Type 0 where
    pub psbt : PsbtData deps
    pub txid : Option deps.Txid

  -- `parse_signed`, for a parser with its error as text.
  unfoldable pub parse_signed :
      {T : Type 0} → (String → Result T String) → String → String → Result T SignerError
  parse_signed from_str raw what =
      map_err
        (λ e.
          invalid
            ("wallet returned invalid " ++ (what ++ (" " ++ (deps.debug raw ++ (": " ++ e))))))
        (from_str raw)

  -- The check that a wallet signed the transaction that it was given.
  unfoldable pub same_transaction : deps.Txid → deps.Txid → Result (Unit {0}) SignerError
  same_transaction expected got =
      if deps.same_txid expected got
      then ok tt
      else err (
          invalid (
            "wallet returned a PSBT for a different transaction: expected txid "
            ++ (deps.show_txid expected ++ (", got " ++ deps.show_txid got))))

  -- The check of the id that a wallet broadcast, if it did.
  unfoldable pub same_broadcast : deps.Txid → Option deps.Txid → Result (Unit {0}) SignerError
  same_broadcast expected none = ok tt
  same_broadcast expected (some txid) =
      if deps.same_txid txid expected
      then ok tt
      else err (
          invalid (
            "wallet broadcast txid "
            ++ (deps.show_txid txid ++ (", but the PSBT's txid is " ++ deps.show_txid expected))))

module _ (json : Serde) (deps : Deps) where
  open json use {Value, get, as_str, from_str}
  open deps use {debug, compute_txid, parse_txid}

  unfoldable pub parse_json : String → String → Result Value SignerError
  parse_json what raw =
      map_err (λ e. invalid ("malformed " ++ (what ++ (" result " ++ (debug raw ++ (": " ++ e))))))
        (from_str raw)

  unfoldable pub text_field : String → String → Value → Result String SignerError
  text_field what raw parsed =
      ok_or (and_then (get parsed what) as_str)
        (invalid ("connect result missing " ++ (what ++ (": " ++ raw))))

  unfoldable pub parse_account : String → BtcNetwork → Result (BtcAccount deps) SignerError
  unfolding parse_json text_field parse_signed
  parse_account raw n = do
    parsed ← parse_json "connect" raw
    s ← text_field "address" raw parsed
    u ← parse_signed deps (shown (address_from_str deps)) s "address"
    a ← map_err (λ e. invalid (display e)) (require_network deps u n)
    k ← text_field "publicKey" raw parsed
    p ← parse_signed deps (shown (public_key_from_str deps)) k "public key"
    ok (record { address = a; public_key = p })

  unfoldable pub txid_field : Option String → Result (Option deps.Txid) SignerError
  unfolding parse_signed
  txid_field t = transpose (Option.map (λ s. parse_signed deps parse_txid s "txid") t)

  unfoldable pub parse_signed_psbt : PsbtData deps → String → Result (SignedPsbt deps) SignerError
  unfolding parse_json parse_signed same_transaction txid_field same_broadcast
  parse_signed_psbt unsigned raw = do
    parsed ← parse_json "sign_psbt" raw
    s ←
        ok_or (and_then (get parsed "psbt") as_str)
          (invalid ("sign_psbt result missing psbt: " ++ raw))
    p ← parse_signed deps (shown (psbt_from_str deps)) s "psbt"
    same_transaction deps (compute_txid unsigned) (compute_txid p)
    t ← txid_field (and_then (get parsed "txid") as_str)
    same_broadcast deps (compute_txid unsigned) t
    ok (record { psbt = p; txid = t })

  abbrev pub drop : {T : Type 0} → Result T SignerError → Result (Unit {0}) SignerError
  drop r = map_ok (λ t. tt) r

  unfoldable pub check_result : BtcRequest deps → String → Result (Unit {0}) String
  unfolding parse_account parse_signed_psbt parse_signed
  check_result (connect m n a) result = map_err to_string (drop (parse_account result n))
  check_result (send_transfer m n t f a r) result =
      map_err to_string (drop (parse_signed deps parse_txid result "txid"))
  check_result (sign_psbt m p) result = map_err to_string (drop (parse_signed_psbt p.psbt result))
  check_result (sign_message m n t a p) result =
      map_err to_string
        (drop (parse_signed deps (shown (signature_from_str deps)) result "signature"))

  abbrev pub account_env : String
  account_env = "BROWSER_WEB3_BTC_ACCOUNT"

  -- `impl Request` and `impl ExpectedAccount`.
  module _ (env : Var) (show_id : ℕ → String) where
    abbrev pub btc_request : Request json (BtcRequest deps)
    btc_request = record {
      id = λ r. (meta deps r).id;
      url_kind = url_kind deps;
      to_value = to_value json deps show_id;
      from_json = from_json json deps env;
      check_result = check_result;
    }

    abbrev pub btc_account : ExpectedAccount json (BtcRequest deps) deps.Address
    btc_account = record {
      request = btc_request;
      account_env = account_env;
      parse_account = shown (address_from_str deps);
      expecting = expecting deps;
    }
