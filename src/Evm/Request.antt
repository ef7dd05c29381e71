-- ===== src/Evm/Request.antt =====
-- evm/src/types.rs: the requests, their builders, their JSON and the account that they expect.
pub mod WellFormed
pub mod RoundTrip
pub mod Account
use Prim.Native.String.{◌++◌}
use mathlib.Core.Option
use browser_web3_signer.Prelude.{
  ℕ, String, Bool, true, false, Option, none, some, Result, ok, err, ◌>>=◌, ◌>>◌, map_ok, and_then,
  unwrap_or, str_eq, if◌then◌else◌,
}
use browser_web3_signer.Core.Json.{Serde}
use browser_web3_signer.Core.Browser.{UrlKind}
use browser_web3_signer.Core.Types.{
  Uuid, RequestMeta, Request, ExpectedAccount, expect_account, put_opt,
}
use browser_web3_signer.Core.Parse.{str_field, req_parsed, opt_parsed}
use browser_web3_signer.Evm.Deps.{Deps}
use browser_web3_signer.Evm.Domain.{ChainId, Wei, CallData, address_text, wei_text, call_data_text}

module _ (json : Serde) (deps : Deps) where
  open json use {Value, Map, get, as_str, as_u64, is_object, string, object, empty, insert, u64}
  open deps use {
    Address, Bytes, Url, parse_bytes, parse_url, show_address, show_u256, show_bytes, show_url,
    bytes_is_empty, same_address,
  }

  pub record TypedData : Type 0 where
    pub domain : Value
    pub types : Value
    pub primary_type : String
    pub message : Value

  pub data SignableMessage : Type 0 where
    text : String → SignableMessage
    raw : Bytes → SignableMessage

  pub record ConnectParams : Type 0 where
    pub chain_id : Option ChainId
    pub address : Option Address
    pub rpc_url : Option Url
    pub chain_name : Option String

  pub record SendTransactionParams : Type 0 where
    pub to : Option Address
    pub from : Option Address
    pub value : Option (Wei deps)
    pub calldata : Option (CallData deps)
    pub chain_id : Option ChainId
    pub gas_limit : Option (Wei deps)
    pub max_fee_per_gas : Option (Wei deps)
    pub max_priority_fee_per_gas : Option (Wei deps)

  -- A variant's fields that its builder takes are the builder's parameters.
  pub data EvmRequest : Type 0 where
    connect : RequestMeta → ConnectParams → EvmRequest
    send_transaction : RequestMeta → SendTransactionParams → EvmRequest
    sign_message :
        RequestMeta
        → (chain_id : Option ChainId) → SignableMessage
        → (address : Option Address) → EvmRequest
    sign_typed_data :
        RequestMeta
        → (chain_id : Option ChainId) → TypedData
        → (address : Option Address) → EvmRequest

  abbrev pub meta : EvmRequest → RequestMeta
  meta (connect m _) = m
  meta (send_transaction m _) = m
  meta (sign_message m _ _ _) = m
  meta (sign_typed_data m _ _ _) = m

  unfoldable pub url_kind : EvmRequest → UrlKind
  url_kind (connect _ _) = UrlKind.connect
  url_kind _ = UrlKind.sign

  -- `SendTransactionParams::check`, on `to` and `data`.
  unfoldable pub check_creation : Option Address → Option Bytes → Result (Unit {0}) String
  check_creation none none =
      err "a transaction without 'to' deploys a contract from 'data', which it lacks"
  check_creation none (some b) =
      if bytes_is_empty b
      then err "a transaction without 'to' deploys a contract from 'data', which is empty"
      else ok tt
  check_creation (some a) d = ok tt

  unfoldable pub check : SendTransactionParams → Result (Unit {0}) String
  unfolding check_creation
  check p = check_creation p.to p.calldata

  unfoldable pub checked_send : RequestMeta → SendTransactionParams → Result EvmRequest String
  unfolding check
  checked_send m p = check p >> ok (send_transaction m p)

  -- `json_field` and `str_opt`, on the value of the field.
  unfoldable pub json_field : Value → String → Value
  json_field body key = unwrap_or (get body key) (object empty)

  unfoldable pub str_opt : Value → String → Option String
  str_opt body key = and_then (get body key) as_str

  abbrev pub no_message : String
  no_message = "missing 'message': expected a string or { raw: \"0x…\" }"

  -- `SignableMessage::from_json` on the `message` field.
  unfoldable pub read_object : Value → Bool → Result SignableMessage String
  read_object v true = map_ok raw (req_parsed json parse_bytes v "raw")
  read_object v false = err no_message

  unfoldable pub read_value : Value → Option String → Result SignableMessage String
  unfolding read_object
  read_value v (some t) = ok (text t)
  read_value v none = read_object v (is_object v)

  unfoldable pub read_message : Option Value → Result SignableMessage String
  unfolding read_value
  read_message none = err no_message
  read_message (some v) = read_value v (as_str v)

  unfoldable pub message_from_json : Value → Result SignableMessage String
  unfolding read_message
  message_from_json body = read_message (get body "message")

  -- The arms of `from_json`; `m` is the fresh metadata.
  module _ (m : RequestMeta) (body : Value) where
    abbrev chain_id_field : Option ChainId
    chain_id_field = and_then (get body "chainId") as_u64

    unfoldable pub connect_arm : Result EvmRequest String
    unfolding str_opt
    connect_arm = do
      a ← opt_parsed json (address_text deps) body "address"
      u ← opt_parsed json parse_url body "rpcUrl"
      ok (
          connect m (record {
            chain_id = chain_id_field;
            address = a;
            rpc_url = u;
            chain_name = str_opt body "chainName";
          }))

    unfoldable pub send_transaction_arm : Result EvmRequest String
    send_transaction_arm = do
      t ← opt_parsed json (address_text deps) body "to"
      f ← opt_parsed json (address_text deps) body "from"
      v ← opt_parsed json (wei_text deps) body "value"
      d ← opt_parsed json (call_data_text deps) body "data"
      g ← opt_parsed json (wei_text deps) body "gasLimit"
      x ← opt_parsed json (wei_text deps) body "maxFeePerGas"
      y ← opt_parsed json (wei_text deps) body "maxPriorityFeePerGas"
      checked_send m (record {
        to = t;
        from = f;
        value = v;
        calldata = d;
        chain_id = chain_id_field;
        gas_limit = g;
        max_fee_per_gas = x;
        max_priority_fee_per_gas = y;
      })

    unfoldable pub sign_message_arm : Result EvmRequest String
    unfolding message_from_json
    sign_message_arm = do
      t ← message_from_json body
      a ← opt_parsed json (address_text deps) body "address"
      ok (sign_message m chain_id_field t a)

    unfoldable pub sign_typed_data_arm : Result EvmRequest String
    unfolding json_field
    sign_typed_data_arm = do
      p ← str_field json body "primaryType"
      a ← opt_parsed json (address_text deps) body "address"
      ok (
          sign_typed_data m chain_id_field
            (record {
              domain = json_field body "domain";
              types = json_field body "types";
              primary_type = p;
              message = json_field body "message";
            })
            a)

    unfoldable pub from_json_as : String → Result EvmRequest String
    unfolding connect_arm send_transaction_arm sign_message_arm sign_typed_data_arm
    from_json_as typ =
        if str_eq typ "connect"
        then connect_arm
        else if str_eq typ "send_transaction"
        then send_transaction_arm
        else if str_eq typ "sign_message"
        then sign_message_arm
        else if str_eq typ "sign_typed_data"
        then sign_typed_data_arm
        else err ("unknown request type: " ++ typ)

  unfoldable pub from_json : Uuid → Value → Result EvmRequest String
  unfolding from_json_as
  from_json fresh body = do
    typ ← str_field json body "type"
    from_json_as (record { id = fresh }) body typ

  -- `Serialize`: the tag, the metadata, then the fields in the order of the declaration.
  unfoldable pub head_of : String → RequestMeta → (ℕ → String) → Map
  head_of tag m show_id = insert "id" (string (show_id m.id)) (insert "type" (string tag) empty)

  unfoldable pub message_to_value : SignableMessage → Value
  message_to_value (text t) = string t
  message_to_value (raw b) = object (insert "raw" (string (show_bytes b)) empty)

  -- `show_id` is the `uuid` crate's `Serialize`.
  module _ (show_id : ℕ → String) where
    abbrev put_address : String → Option Address → Map → Map
    put_address = put_opt json (λ a. string (show_address a))

    abbrev put_wei : String → Option (Wei deps) → Map → Map
    put_wei = put_opt json (λ n. string (show_u256 n))

    unfoldable pub to_map : EvmRequest → Map
    unfolding head_of message_to_value
    to_map (connect m p) = put_opt json string "chainName" p.chain_name (
        put_opt json (λ u. string (show_url u)) "rpcUrl" p.rpc_url
          (put_address "address" p.address
            (put_opt json u64 "chainId" p.chain_id (head_of "connect" m show_id))))
    to_map (send_transaction m p) = put_wei "maxPriorityFeePerGas" p.max_priority_fee_per_gas (
        put_wei "maxFeePerGas" p.max_fee_per_gas (
          put_wei "gasLimit" p.gas_limit (
            put_opt json (λ b. string (show_bytes b)) "data" p.calldata
              (put_wei "value" p.value (
                put_address "from" p.from (
                  put_address "to" p.to (
                    put_opt json u64 "chainId" p.chain_id
                      (head_of "send_transaction" m show_id))))))))
    to_map (sign_message m c t a) = put_address "address" a (
        insert "message" (message_to_value t)
          (put_opt json u64 "chainId" c (head_of "sign_message" m show_id)))
    to_map (sign_typed_data m c t a) = put_address "address" a (
        insert "message" t.message (
          insert "primaryType" (string t.primary_type) (
            insert "types" t.types (
              insert "domain" t.domain
                (put_opt json u64 "chainId" c (head_of "sign_typed_data" m show_id))))))

    unfoldable pub to_value : EvmRequest → Value
    unfolding to_map
    to_value r = object (to_map r)
