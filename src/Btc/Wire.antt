-- ===== src/Btc/Wire.antt =====
-- btc/src/types.rs: the JSON of the requests, both ways.
pub mod Acceptable
pub mod Built
pub mod RoundTrip
use Prim.Native.String.{◌++◌}
use mathlib.Core.Option
use browser_web3_signer.Prelude.{
  ℕ, ◌^◌, String, Bool, true, false, Option, none, some, List, [], ◌∷◌, map, Result, ok, err, ◌>>=◌,
  ◌>>◌, map_err, ok_or, map_ok, transpose, and_then, unwrap_or, str_eq, if◌then◌else◌, length, leb,
  ltb, ◌||◌,
}
use browser_web3_signer.Prelude.Decimal.{decimal}
use browser_web3_signer.Prelude.Lists.{filter, find, traverse}
use browser_web3_signer.Core.Json.{Serde}
use browser_web3_signer.Core.Browser.{UrlKind}
use browser_web3_signer.Core.Config.{Var}
use browser_web3_signer.Core.Types.{Uuid, RequestMeta, put_opt}
use browser_web3_signer.Core.Parse.{
  DomainParseError, parse_error, display, str_field, req_parsed, opt_parsed,
}
use browser_web3_signer.Btc.Deps.{Deps}
use browser_web3_signer.Btc.Domain.{
  BtcNetwork, network_id, network_from_str, default_network, Sats, SatPerVb, sats_from_str,
  fee_rate_from_str, MessageProtocol, bip322, protocol_id, protocol_from_str, shown,
  UncheckedAddress, BtcAddress, require_network, address_from_str, PsbtData, psbt_from_str,
  spends_script_path,
}
use browser_web3_signer.Btc.Request.{
  BtcRequest, connect, send_transfer, sign_psbt, sign_message, new_connect, new_send_transfer,
  new_sign_psbt, new_sign_message,
}

module _ (json : Serde) (deps : Deps) where
  open json use {
    Value, Map, get, as_bool, as_u64, as_array, bool, u64, string, array, object, empty, insert,
  }
  open deps use {show_address, serialize_hex}

  -- `bool_field`, on the field's value.
  unfoldable pub read_bool : String → Option Value → Result Bool String
  read_bool key none = ok false
  read_bool key (some v) = ok_or (as_bool v) ("non-boolean field '" ++ (key ++ "'"))

  unfoldable pub bool_field : Value → String → Result Bool String
  unfolding read_bool
  bool_field body key = read_bool key (get body key)

  -- One element of `signInputs`: a number of 32 bits.
  unfoldable pub u32_from : Option ℕ → Option ℕ
  u32_from none = none
  u32_from (some n) = if ltb n (2 ^ 32) then some n else none

  unfoldable pub read_index : Value → Result ℕ String
  unfolding u32_from
  read_index i =
      ok_or (u32_from (as_u64 i)) ("invalid 'signInputs' index " ++ Serde.to_string json i)

  unfoldable pub read_indexes : Value → Result (List ℕ) String
  unfolding read_index
  read_indexes v = do
    is ← ok_or (as_array v) "'signInputs' must be an array"
    traverse read_index is

  -- `sign_inputs_field`, on the field's value.
  unfoldable pub read_sign_inputs : Option Value → Result (Option (List ℕ)) String
  unfolding read_indexes
  read_sign_inputs v = transpose (Option.map read_indexes v)

  unfoldable pub sign_inputs_field : Value → Result (Option (List ℕ)) String
  unfolding read_sign_inputs
  sign_inputs_field body = read_sign_inputs (get body "signInputs")

  -- The arms of `from_json`; `m` is the fresh metadata and `n` the network.
  module _ (m : RequestMeta) (n : BtcNetwork) (body : Value) where
    abbrev address_field : String → Result (Option (UncheckedAddress deps)) String
    address_field = opt_parsed json (shown (address_from_str deps)) body

    unfoldable pub connect_arm : Result (BtcRequest deps) String
    connect_arm = do a ← address_field "address"; map_err display (new_connect deps m n a)

    unfoldable pub send_transfer_arm : Result (BtcRequest deps) String
    send_transfer_arm = do
      t ← req_parsed json (shown (address_from_str deps)) body "to"
      f ← address_field "from"
      a ← req_parsed json (shown sats_from_str) body "amount"
      r ← opt_parsed json (shown fee_rate_from_str) body "feeRate"
      map_err display (
          new_send_transfer deps m
            (record { network = n; to = t; from = f; amount = a; fee_rate = r }))

    unfoldable pub sign_psbt_arm : Result (BtcRequest deps) String
    unfolding sign_inputs_field bool_field
    sign_psbt_arm = do
      p ← req_parsed json (shown (psbt_from_str deps)) body "psbt"
      f ← address_field "from"
      is ← sign_inputs_field body
      z ← bool_field body "finalize"
      b ← bool_field body "broadcast"
      map_err display (
          new_sign_psbt deps m (record {
            network = n;
            psbt = p;
            from = f;
            sign_inputs = is;
            finalize = z;
            broadcast = b;
          }))

    unfoldable pub sign_message_arm : Result (BtcRequest deps) String
    sign_message_arm = do
      t ← str_field json body "message"
      a ← address_field "address"
      p ← opt_parsed json (shown protocol_from_str) body "protocol"
      map_err display (
          new_sign_message deps m
            (record { network = n; message = t; address = a; protocol = unwrap_or p bip322 }))

    unfoldable pub from_json_as : String → Result (BtcRequest deps) String
    unfolding connect_arm send_transfer_arm sign_psbt_arm sign_message_arm
    from_json_as typ =
        if str_eq typ "connect"
        then connect_arm
        else if str_eq typ "send_transfer"
        then send_transfer_arm
        else if str_eq typ "sign_psbt"
        then sign_psbt_arm
        else if str_eq typ "sign_message"
        then sign_message_arm
        else err ("unknown request type: " ++ typ)

  -- `env` is the variable that holds the default network.
  unfoldable pub from_json : Var → Uuid → Value → Result (BtcRequest deps) String
  unfolding from_json_as
  from_json env fresh body = do
    typ ← str_field json body "type"
    n ← opt_parsed json (shown network_from_str) body "network"
    from_json_as (record { id = fresh }) (unwrap_or n (default_network env)) body typ

  -- `Serialize`; `show_id` is the `uuid` crate's.
  module _ (show_id : ℕ → String) where
    abbrev put_address : String → Option (BtcAddress deps) → Map → Map
    put_address = put_opt json (λ a. string (show_address a))

    unfoldable pub head_of : String → RequestMeta → BtcNetwork → Map
    head_of tag m n =
        insert "network" (string (network_id n))
          (insert "id" (string (show_id m.id)) (insert "type" (string tag) empty))

    abbrev pub indexes : List ℕ → Value
    indexes is = array (map u64 is)

    -- `skip_serializing_if = "Vec::is_empty"`.
    unfoldable pub put_indexes : String → List ℕ → Map → Map
    put_indexes key [] e = e
    put_indexes key (i ∷ is) e = insert key (indexes (i ∷ is)) e

    unfoldable pub to_map : BtcRequest deps → Map
    unfolding head_of put_indexes
    to_map (connect m n a) = put_address "address" a (head_of "connect" m n)
    to_map (send_transfer m n t f a r) =
        put_opt json (λ x. string (decimal x)) "feeRate" r
          (insert "amount" (string (decimal a)) (
            put_address "from" f
              (insert "to" (string (show_address t)) (head_of "send_transfer" m n))))
    to_map (sign_psbt m p) = insert "broadcast" (bool p.broadcast) (
        insert "finalize" (bool p.finalize) (
          put_indexes "scriptPathInputs" p.script_path_inputs (
            put_opt json indexes "signInputs" p.sign_inputs (
              put_address "from" p.from (
                insert "psbt" (string (serialize_hex p.psbt)) (head_of "sign_psbt" m p.network))))))
    to_map (sign_message m n t a p) =
        insert "protocol" (string (protocol_id p))
          (put_address "address" a (insert "message" (string t) (head_of "sign_message" m n)))

    unfoldable pub to_value : BtcRequest deps → Value
    unfolding to_map
    to_value r = object (to_map r)
