-- ===== src/Examples/Signing.antt =====
-- A `BtcSigner` whose wallet answers with its account and with a signed PSBT.
use browser_web3_signer.Prelude.{
  ℕ, ◌≡◌, ◌⊎◌, refl, String, true, false, Option, none, some, [], ◌∷◌, ok,
}
use browser_web3_signer.Prelude.Dict.{lookup, insert}
use browser_web3_signer.Prelude.Text.{trim, all_hex}
use browser_web3_signer.Prelude.Lists.{find, filter, get_elem?}
use browser_web3_signer.Core.Config.{not_present}
use browser_web3_signer.Core.Store.{complete, create}
use browser_web3_signer.Core.Store
use browser_web3_signer.Core.Engine.{Engine, submit}
use browser_web3_signer.Core.Engine
use browser_web3_signer.Btc.Domain.{
  mainnet, to_bitcoin, psbt_from_str, spends_script_path, require_network, address_from_str,
  public_key_from_str,
}
use browser_web3_signer.Btc.Request.{BtcRequest, SignPsbtParams, new_sign_psbt, new_connect}
use browser_web3_signer.Btc.Answer.{btc_request, parse_signed_psbt, parse_account}
use browser_web3_signer.Btc.Signer.{BtcSigner, sign_psbt, connect_wallet}
use browser_web3_signer.Btc.Signer.Laws.{sign_psbt_same, connect_wallet_on}
use browser_web3_signer.Examples.Json.{serde}
use browser_web3_signer.Examples.Parts.{net, tcp, btc_deps, show_id}
use browser_web3_signer.Examples.Btc.{engine, approve, signed}

abbrev signer : BtcSigner btc_deps net ℕ
signer = record { engine = engine; default_network = mainnet }

abbrev params : SignPsbtParams btc_deps
params = record {
  network = mainnet;
  psbt = false;
  from = none;
  sign_inputs = some (0 ∷ []);
  finalize = false;
  broadcast = true;
}

abbrev done : BtcSigner btc_deps net ℕ
done = (sign_psbt serde btc_deps not_present show_id net tcp approve false 7 params signer).1

sign_psbt_same_example :
    (r : BtcRequest btc_deps) × (raw : String) × (new_sign_psbt btc_deps (record { id = 7 }) params
      ≡ ok r)
    × (submit net
          (btc_request serde btc_deps not_present show_id)
          show_id
          tcp
          approve
          false
          r
          engine
        ≡ (some (ok raw), done.engine))
    × (◌≡◌ {A = String} "t0" "t0")
    × (◌≡◌ {A = Option String} none none ⊎ ◌≡◌ {A = Option String} none (some "t0"))
unfolding sign_psbt new_sign_psbt psbt_from_str find filter spends_script_path get_elem? all_hex
    trim submit complete create Engine.new lookup insert Store.new parse_signed_psbt
sign_psbt_same_example =
    sign_psbt_same serde btc_deps not_present show_id net tcp approve false 7 signer done params
      signed refl

abbrev connected : BtcSigner btc_deps net ℕ
connected =
    (connect_wallet serde btc_deps not_present show_id net tcp approve false 7 none none signer).1

connect_wallet_on_example :
    btc_deps.is_valid_for_network "main" (to_bitcoin btc_deps mainnet) ≡ true
unfolding connect_wallet new_connect submit complete create Engine.new lookup insert Store.new
    parse_account require_network address_from_str public_key_from_str
connect_wallet_on_example =
    connect_wallet_on serde btc_deps not_present show_id net tcp approve false 7 signer connected
      none none (record { address = "main"; public_key = "k" }) refl
