-- ===== src/Examples/Btc.antt =====
-- Bitcoin requests: a PSBT to broadcast, a transfer on signet, and a `serve --chain btc` process.
use browser_web3_signer.Prelude.{
  ℕ, ◌≡◌, ◌⊎◌, refl, String, true, false, Option, none, some, [], ◌∷◌, ok, arith,
}
use browser_web3_signer.Core.Config.{not_present, ephemeral}
use browser_web3_signer.Core.Browser.{print}
use browser_web3_signer.Core.Types.{success}
use browser_web3_signer.Core.Store.{complete, create}
use browser_web3_signer.Core.Store
use browser_web3_signer.Prelude.Dict.{lookup, insert}
use browser_web3_signer.Core.Engine.{Engine, submit}
use browser_web3_signer.Core.Engine
use browser_web3_signer.Prelude.Text.{trim, all_hex}
use browser_web3_signer.Prelude.Lists.{find, filter, traverse, get_elem?}
use browser_web3_signer.Core.Parse.{str_field, req_parsed, opt_parsed, read_str, read_req, read_opt}
use browser_web3_signer.Btc.Domain.{
  require_network, mainnet, network_from_str, default_network, psbt_from_str, spends_script_path,
}
use browser_web3_signer.Btc.Request.{BtcRequest, PsbtFields, sign_psbt, bad_index, new_sign_psbt}
use browser_web3_signer.Btc.Wire.{from_json, to_value}
use browser_web3_signer.Btc.Wire.Acceptable.{IsAcceptable}
use browser_web3_signer.Btc.Wire.RoundTrip.{btc_round_trip}
use browser_web3_signer.Btc.Wire.Built.{from_json-IsAcceptable}
use browser_web3_signer.Btc.Account.{account, with_account, expecting, expecting-IsAcceptable}
use browser_web3_signer.Btc.Answer.{SignedPsbt, parse_signed_psbt, btc_request, check_result}
use browser_web3_signer.Btc.Answer.Laws.{parse_signed_psbt_same}
use browser_web3_signer.Core.Http.{reply}
use browser_web3_signer.Serve.{request, handle_request, answer_response}
use browser_web3_signer.Serve.Btc.{psbt_served}
use browser_web3_signer.Examples.Json.{
  Json, serde, object, member, end, number, text, bool, array, cons, nil, answer_text,
}
use browser_web3_signer.Examples.Parts.{net, tcp, btc_deps, show_id}

abbrev pub psbt_fields : PsbtFields btc_deps
psbt_fields = record {
  network = mainnet;
  psbt = false;
  from = none;
  sign_inputs = some (0 ∷ []);
  script_path_inputs = 0 ∷ [];
  finalize = true;
  broadcast = true;
}

abbrev pub psbt_request : BtcRequest btc_deps
psbt_request = sign_psbt (record { id = 7 }) psbt_fields

psbt_request-IsAcceptable : IsAcceptable btc_deps psbt_request
unfolding bad_index find filter spends_script_path get_elem?
psbt_request-IsAcceptable = record {
  from_on = tt;
  indexes_fit = (omega arith, tt);
  in_psbt = (omega arith, tt);
  script_paths = refl;
  finalized = refl;
}

btc_round_trip_example :
    from_json serde btc_deps not_present 9 (to_value serde btc_deps show_id psbt_request)
    ≡ ok (sign_psbt (record { id = 9 }) psbt_fields)
btc_round_trip_example =
    btc_round_trip serde btc_deps show_id not_present 9 psbt_request psbt_request-IsAcceptable

abbrev psbt_body : Json
psbt_body = object (
    member "type" (text "sign_psbt") (
      member "psbt" (text "00")
        (member "signInputs" (array (cons (number 0) nil)) (member "broadcast" (bool true) end))))

psbt_read : from_json serde btc_deps not_present 7 psbt_body ≡ ok psbt_request
unfolding from_json str_field req_parsed opt_parsed read_str read_req read_opt network_from_str
    psbt_from_str trim all_hex traverse new_sign_psbt find filter spends_script_path get_elem?
    default_network
psbt_read = refl

from_json-IsAcceptable_example : (◌≡◌ {A = ℕ} 7 7) × IsAcceptable btc_deps psbt_request
from_json-IsAcceptable_example =
    from_json-IsAcceptable serde btc_deps not_present 7 psbt_body psbt_request psbt_read

abbrev pinned_psbt : BtcRequest btc_deps
pinned_psbt = with_account btc_deps (some "main") psbt_request

expecting-IsAcceptable_example :
    (account btc_deps pinned_psbt ≡ some "main")
    × (pinned_psbt ≡ with_account btc_deps (some "main") psbt_request)
    × IsAcceptable btc_deps pinned_psbt
unfolding expecting require_network
expecting-IsAcceptable_example =
    expecting-IsAcceptable btc_deps psbt_request pinned_psbt "main" psbt_request-IsAcceptable refl

abbrev pub signed : SignedPsbt btc_deps
signed = record { psbt = false; txid = none }

parse_signed_psbt_same_example :
    (◌≡◌ {A = String} "t0" "t0")
    × (◌≡◌ {A = Option String} none none ⊎ ◌≡◌ {A = Option String} none (some "t0"))
unfolding parse_signed_psbt psbt_from_str trim all_hex
parse_signed_psbt_same_example = parse_signed_psbt_same serde btc_deps false answer_text signed refl

abbrev pub engine : Engine (BtcRequest btc_deps) net ℕ
engine = Engine.new net "html" ephemeral print

-- While the handler waits, the browser posts the signed PSBT.
abbrev pub approve : Engine (BtcRequest btc_deps) net ℕ → Engine (BtcRequest btc_deps) net ℕ
approve e = record e { store = (complete net 7 (success answer_text) e.store).1 }

abbrev ended : Engine (BtcRequest btc_deps) net ℕ
ended =
    (submit net (btc_request serde btc_deps not_present show_id) show_id tcp approve false
      psbt_request engine).1

psbt_served_example :
    (v : String) × (s : SignedPsbt btc_deps) × (answer_response serde (ok answer_text)
      ≡ reply 200 (object (member "result" (text v) (member "success" (bool true) end))))
    × (parse_signed_psbt serde btc_deps false v ≡ ok s)
    × (btc_deps.compute_txid s.psbt ≡ "t0")
    × ((s.txid ≡ none) ⊎ (s.txid ≡ some "t0"))
unfolding handle_request request answer_response from_json str_field opt_parsed read_str read_opt
    req_parsed traverse read_req new_sign_psbt psbt_from_str find filter spends_script_path
    get_elem? default_network all_hex trim submit complete create Engine.new lookup insert Store.new
    check_result parse_signed_psbt
psbt_served_example =
    psbt_served serde btc_deps not_present show_id net tcp approve false none 7 psbt_body engine
      ended (answer_response serde (ok answer_text)) (record { id = 7 }) psbt_fields refl refl refl
