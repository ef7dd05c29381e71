-- ===== src/Tron/Wire.antt =====
-- tron/src/types.rs: the JSON of the requests, both ways.
pub mod RoundTrip
pub mod Sound
use Prim.Native.String.{◌++◌}
use browser_web3_signer.Prelude.{
  ℕ, String, Option, none, some, Result, ok, err, ◌>>=◌, ok_or, and_then, unwrap_or, str_eq,
  if◌then◌else◌,
}
use browser_web3_signer.Prelude.Decimal.{decimal}
use browser_web3_signer.Core.Json.{Serde}
use browser_web3_signer.Core.Bytes.{Hex, HexData, hex_data_from_str, to_hex_prefixed}
use browser_web3_signer.Core.Types.{Uuid, RequestMeta, put_opt}
use browser_web3_signer.Core.Parse.{str_field, req_parsed, opt_parsed}
use browser_web3_signer.Tron.Domain.{
  Base58, TronNetwork, network_id, network_from_str, TronAddress, address_from_str, to_base58,
  sun_from_str, energy_limit_from_str, Percentage, percentage_from_str, shown,
}
use browser_web3_signer.Tron.Request.{
  TronRequest, connect, send_transaction, trigger_contract, deploy_contract, sign_message,
  sign_typed_data,
}

module _ (json : Serde) (hex : Hex) (base58 : Base58) where
  open json use {Value, Map, get, as_str, u64, string, object, empty, insert}

  unfoldable pub json_field : Value → String → Value
  json_field body key = unwrap_or (get body key) (object empty)

  -- The arms of `from_json`; `m` is the fresh metadata and `n` the network.
  module _ (m : RequestMeta) (n : Option TronNetwork) (body : Value) where
    abbrev address_field : String → Result (Option TronAddress) String
    address_field = opt_parsed json (shown (address_from_str base58)) body

    abbrev sun_field : String → Result (Option ℕ) String
    sun_field = opt_parsed json (shown sun_from_str) body

    unfoldable pub connect_arm : Result (TronRequest json) String
    connect_arm = do a ← address_field "address"; ok (connect m n a)

    unfoldable pub send_transaction_arm : Result (TronRequest json) String
    send_transaction_arm = do
      t ← req_parsed json (shown (address_from_str base58)) body "to"
      f ← address_field "from"
      a ← req_parsed json (shown sun_from_str) body "amount"
      d ← opt_parsed json (hex_data_from_str hex) body "data"
      ok (send_transaction m (record { to = t; from = f; amount = a; memo = d; network = n }))

    unfoldable pub trigger_contract_arm : Result (TronRequest json) String
    trigger_contract_arm = do
      c ← req_parsed json (shown (address_from_str base58)) body "contractAddress"
      f ← address_field "from"
      s ← str_field json body "functionSelector"
      l ← sun_field "feeLimit"
      v ← sun_field "callValue"
      ok (
          trigger_contract m (record {
            contract_address = c;
            from = f;
            function_selector = s;
            parameters = get body "parameters";
            fee_limit = l;
            call_value = v;
            network = n;
          }))

    unfoldable pub deploy_contract_arm : Result (TronRequest json) String
    deploy_contract_arm = do
      a ← ok_or (get body "abi") "missing field 'abi'"
      b ← req_parsed json (hex_data_from_str hex) body "bytecode"
      f ← address_field "from"
      l ← sun_field "feeLimit"
      v ← sun_field "callValue"
      e ← opt_parsed json (shown energy_limit_from_str) body "originEnergyLimit"
      p ← opt_parsed json (shown percentage_from_str) body "userFeePercentage"
      ok (
          deploy_contract m (record {
            abi = a;
            bytecode = b;
            contract_name = and_then (get body "contractName") as_str;
            parameters = get body "parameters";
            from = f;
            fee_limit = l;
            call_value = v;
            origin_energy_limit = e;
            user_fee_percentage = p;
            network = n;
          }))

    unfoldable pub sign_message_arm : Result (TronRequest json) String
    sign_message_arm = do
      t ← str_field json body "message"
      a ← address_field "address"
      ok (sign_message m n t a)

    unfoldable pub sign_typed_data_arm : Result (TronRequest json) String
    unfolding json_field
    sign_typed_data_arm = do
      p ← str_field json body "primaryType"
      a ← address_field "address"
      ok (
          sign_typed_data m n
            (record {
              domain = json_field body "domain";
              types = json_field body "types";
              primary_type = p;
              message = json_field body "message";
            })
            a)

    unfoldable pub from_json_as : String → Result (TronRequest json) String
    unfolding connect_arm send_transaction_arm trigger_contract_arm deploy_contract_arm
        sign_message_arm sign_typed_data_arm
    from_json_as typ =
        if str_eq typ "connect"
        then connect_arm
        else if str_eq typ "send_transaction"
        then send_transaction_arm
        else if str_eq typ "trigger_contract"
        then trigger_contract_arm
        else if str_eq typ "deploy_contract"
        then deploy_contract_arm
        else if str_eq typ "sign_message"
        then sign_message_arm
        else if str_eq typ "sign_typed_data"
        then sign_typed_data_arm
        else err ("unknown request type: " ++ typ)

  unfoldable pub from_json : Uuid → Value → Result (TronRequest json) String
  unfolding from_json_as
  from_json fresh body = do
    typ ← str_field json body "type"
    n ← opt_parsed json (shown network_from_str) body "network"
    from_json_as (record { id = fresh }) n body typ

  -- `Serialize`; `show_id` is the `uuid` crate's.
  module _ (show_id : ℕ → String) where
    abbrev put_address : String → Option TronAddress → Map → Map
    put_address = put_opt json (λ a. string (to_base58 base58 a))

    abbrev put_sun : String → Option ℕ → Map → Map
    put_sun = put_opt json (λ x. string (decimal x))

    abbrev put_json : String → Option Value → Map → Map
    put_json = put_opt json (λ v. v)

    unfoldable pub head_of : String → RequestMeta → Option TronNetwork → Map
    head_of tag m n =
        put_opt json (λ x. string (network_id x)) "network" n
          (insert "id" (string (show_id m.id)) (insert "type" (string tag) empty))

    unfoldable pub to_map : TronRequest json → Map
    unfolding head_of
    to_map (connect m n a) = put_address "address" a (head_of "connect" m n)
    to_map (send_transaction m p) =
        put_opt json (λ d. string (to_hex_prefixed hex (HexData.bytes d))) "data" p.memo
          (insert "amount" (string (decimal p.amount)) (
            put_address "from" p.from (
              insert "to" (string (to_base58 base58 p.to))
                (head_of "send_transaction" m p.network))))
    to_map (trigger_contract m p) = put_sun "callValue" p.call_value (
        put_sun "feeLimit" p.fee_limit (
          put_json "parameters" p.parameters (
            insert "functionSelector" (string p.function_selector) (
              put_address "from" p.from (
                insert "contractAddress" (string (to_base58 base58 p.contract_address))
                  (head_of "trigger_contract" m p.network))))))
    to_map (deploy_contract m p) =
        put_opt json (λ x. u64 (Percentage.get x)) "userFeePercentage" p.user_fee_percentage
          (put_opt json u64 "originEnergyLimit" p.origin_energy_limit (
            put_sun "callValue" p.call_value (
              put_sun "feeLimit" p.fee_limit (
                put_json "parameters" p.parameters (
                  insert "bytecode" (string (to_hex_prefixed hex (p.bytecode.bytes))) (
                    insert "abi" p.abi (
                      put_opt json string "contractName" p.contract_name
                        (put_address "from" p.from (head_of "deploy_contract" m p.network)))))))))
    to_map (sign_message m n t a) =
        put_address "address" a (insert "message" (string t) (head_of "sign_message" m n))
    to_map (sign_typed_data m n t a) = put_address "address" a (
        insert "message" t.message (
          insert "primaryType" (string t.primary_type)
            (insert "types" t.types (insert "domain" t.domain (head_of "sign_typed_data" m n)))))

    unfoldable pub to_value : TronRequest json → Value
    unfolding to_map
    to_value r = object (to_map r)
