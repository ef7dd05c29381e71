-- ===== src/Evm/Request/RoundTrip.antt =====
-- evm/src/types.rs: `from_json` on what `Serialize` writes.
use mathlib.Core.Option
use browser_web3_signer.Prelude.{ℕ, ◌≡◌, refl, String, Option, none, some, ok, and_then}
use browser_web3_signer.Core.Json.{Serde}
use browser_web3_signer.Core.Types.{Uuid, RequestMeta}
use browser_web3_signer.Core.Parse.{str_field, req_parsed, opt_parsed, read_opt}
use browser_web3_signer.Core.Parse.Fields.{read_opt-map, read_req-string, wire}
use browser_web3_signer.Evm.Deps.{Deps}
use browser_web3_signer.Evm.Request.WellFormed.{
  IsU64, IsSendable, IsSendable-check, IsWellFormed, with_id, from_json-IsWellFormed,
}
use browser_web3_signer.Evm.Domain.{
  ChainId, address_text, wei_text, call_data_text, address_text-show, wei_text-show,
  call_data_text-show,
}
use browser_web3_signer.Evm.Request.{
  EvmRequest, connect, send_transaction, sign_message, sign_typed_data, TypedData, SignableMessage,
  text, raw, ConnectParams, SendTransactionParams, checked_send, from_json, to_value, read_message,
  message_to_value, message_from_json,
}

module _ (json : Serde) (deps : Deps) (show_id : ℕ → String) where
  open json use {
    Value, string, u64, get, find, as_u64, get-object, find-empty, find-insert, as_str-string,
    as_u64-u64, as_str-object, is_object-object,
  }
  open deps use {
    show_address, show_url, parse_url, parse-show_url, parse_bytes, parse-show_bytes, show_bytes,
    show_u256,
  }

  chain_id-map : (c : Option ChainId) → IsU64 c → and_then (Option.map u64 c) as_u64 ≡ c
  chain_id-map none h = refl
  chain_id-map (some c) h = as_u64-u64 c h

  address_back :
      (key : String) (o : Option deps.Address)
      → read_opt json (address_text deps) key (Option.map (λ a. string (show_address a)) o) ≡ ok o
  address_back = read_opt-map json (address_text deps) show_address (address_text-show deps)

  wei_back :
      (key : String) (o : Option deps.U256)
      → read_opt json (wei_text deps) key (Option.map (λ n. string (show_u256 n)) o) ≡ ok o
  wei_back = read_opt-map json (wei_text deps) show_u256 (wei_text-show deps)

  message_back :
      (t : SignableMessage json deps)
      → read_message json deps (some (message_to_value json deps t)) ≡ ok t
  unfolding read_message message_to_value req_parsed
  message_back (text t) = rw (as_str-string t) refl
  message_back (raw b) =
      rw
        (
          as_str-object,
          is_object-object,
          get-object,
          find-insert,
          read_req-string json parse_bytes show_bytes parse-show_bytes "raw" b,
        )
        refl

  module _ (fresh : Uuid) (m : RequestMeta) where
    connect_round_trip :
        (p : ConnectParams json deps)
        → IsU64 p.chain_id
        → from_json json deps fresh (to_value json deps show_id (connect m p))
          ≡ ok (connect (record { id = fresh }) p)
    unfolding from_json to_value str_field opt_parsed
    connect_round_trip p h = simp (
      wire,
      get-object,
      find-insert,
      find-empty,
      address_back,
      read_opt-map json parse_url show_url parse-show_url,
      chain_id-map p.chain_id h,
    )

    send_transaction_round_trip :
        (p : SendTransactionParams json deps)
        → IsU64 p.chain_id
        → IsSendable json deps p.to p.calldata
        → from_json json deps fresh (to_value json deps show_id (send_transaction m p))
          ≡ ok (send_transaction (record { id = fresh }) p)
    unfolding from_json to_value str_field opt_parsed checked_send
    send_transaction_round_trip p h k =
        simp
          (
            wire,
            get-object,
            find-insert,
            find-empty,
            address_back,
            wei_back,
            read_opt-map json (call_data_text deps) show_bytes (call_data_text-show deps),
            chain_id-map p.chain_id h,
          )
          (rw (IsSendable-check json deps p k))

    sign_message_round_trip :
        (c : Option ChainId) (t : SignableMessage json deps) (a : Option deps.Address)
        → IsU64 c
        → from_json json deps fresh (to_value json deps show_id (sign_message m c t a))
          ≡ ok (sign_message (record { id = fresh }) c t a)
    unfolding from_json to_value str_field opt_parsed message_from_json
    sign_message_round_trip c t a h =
        simp
          (wire, get-object, find-insert, find-empty, address_back, message_back, chain_id-map c h)

    sign_typed_data_round_trip :
        (c : Option ChainId) (t : TypedData json deps) (a : Option deps.Address)
        → IsU64 c
        → from_json json deps fresh (to_value json deps show_id (sign_typed_data m c t a))
          ≡ ok (sign_typed_data (record { id = fresh }) c t a)
    unfolding from_json to_value str_field opt_parsed
    sign_typed_data_round_trip c t a h =
        simp (wire, get-object, find-insert, find-empty, address_back, chain_id-map c h)

  -- The JSON of a well-formed request parses back to that request, under the new id.
  pub from_json-to_value :
      (fresh : Uuid) (r : EvmRequest json deps)
      → IsWellFormed json deps r
      → from_json json deps fresh (to_value json deps show_id r) ≡ ok (with_id json deps fresh r)
  from_json-to_value fresh (connect m p) h = connect_round_trip fresh m p h
  from_json-to_value fresh (send_transaction m p) h = send_transaction_round_trip fresh m p h.0 h.1
  from_json-to_value fresh (sign_message m c t a) h = sign_message_round_trip fresh m c t a h
  from_json-to_value fresh (sign_typed_data m c t a) h = sign_typed_data_round_trip fresh m c t a h

  -- The JSON of a request that `from_json` built from any body parses back to that request, under the new id.
  pub from_json_stable :
      (old fresh : Uuid) (body : Value) (r : EvmRequest json deps)
      → from_json json deps old body ≡ ok r
      → from_json json deps fresh (to_value json deps show_id r) ≡ ok (with_id json deps fresh r)
  from_json_stable old fresh body r h =
      from_json-to_value fresh r (from_json-IsWellFormed json deps old body r h).1
