-- ===== src/Tron/Wire/RoundTrip.antt =====
-- tron/src/types.rs: `from_json` on what `Serialize` writes.
use mathlib.Core.Option
use browser_web3_signer.Prelude.{
  ==_iff, ℕ, ◌≡◌, ◌<◌, ◌^◌, refl, String, Option, none, some, Result, ok, and_then, length,
}
use browser_web3_signer.Prelude.Decimal.{decimal}
use browser_web3_signer.Prelude.Decimal.RoundTrip.{parse_unsigned-decimal}
use browser_web3_signer.Prelude.Text.{equals_lowercase}
use browser_web3_signer.Core.Json.{Serde}
use browser_web3_signer.Core.Bytes.{
  Hex, HexData, hex_data_from_str, to_hex_prefixed, hex_data_from_str-to_hex_prefixed,
}
use browser_web3_signer.Core.Types.{Uuid, RequestMeta}
use browser_web3_signer.Core.Parse.{str_field, req_parsed, opt_parsed, read_opt}
use browser_web3_signer.Core.Parse.Fields.{
  read_opt-map, read_req-string, Holds, read_opt-Holds, read_req-Holds, wire,
}
use browser_web3_signer.Tron.Domain.{
  Base58, TronNetwork, mainnet, shasta, nile, network_id, network_from_str, TronAddress, address_of,
  address_from_str, to_base58, sun_from_str, energy_limit_from_str, Percentage, percentage_from_str,
  shown,
}
use browser_web3_signer.Tron.Address.{IsTron, starts_0x41_iff}
use browser_web3_signer.Tron.Request.{
  TronRequest, connect, send_transaction, trigger_contract, deploy_contract, sign_message,
  sign_typed_data, TypedData, SendTransactionParams, TriggerContractParams, DeployContractParams,
}
use browser_web3_signer.Tron.Wire.{from_json, to_value}

-- An amount that fits its `u64`.
abbrev pub IsU64 : ℕ → Type 0
IsU64 n = n < 2 ^ 64

network_back : (n : TronNetwork) → shown network_from_str (network_id n) ≡ ok n
unfolding network_from_str network_id equals_lowercase
network_back mainnet = refl
network_back shasta = refl
network_back nile = refl

sun_back : (n : ℕ) → IsU64 n → shown sun_from_str (decimal n) ≡ ok n
unfolding sun_from_str
sun_back n h = rw (parse_unsigned-decimal (2 ^ 64) n h) refl

module _ (json : Serde) (hex : Hex) (base58 : Base58) where
  open json use {
    Value, Map, string, u64, get, find, as_str, as_str-string, as_str-u64, get-object, find-empty,
    find-insert,
  }

  address_back :
      (a : TronAddress) → IsTron a → shown (address_from_str base58) (to_base58 base58 a) ≡ ok a
  unfolding address_from_str to_base58 address_of
  address_back a h =
      rw
        (
          base58.decode-encode_check a.bytes,
          (==_iff (length a.bytes) 21).1 h.long,
          (starts_0x41_iff a.bytes).1 h.marked,
        )
        refl

  -- The addresses and amounts of a request are ones that parse.
  abbrev pub IsSound : TronRequest json → Type 0
  IsSound (connect m n a) = Holds json IsTron a
  IsSound (send_transaction m p) = IsTron p.to × Holds json IsTron p.from × IsU64 p.amount
  IsSound (trigger_contract m p) =
      IsTron p.contract_address
      × Holds json IsTron p.from
      × Holds json IsU64 p.fee_limit
      × Holds json IsU64 p.call_value
  IsSound (deploy_contract m p) =
      Holds json IsTron p.from × Holds json IsU64 p.fee_limit × Holds json IsU64 p.call_value
  IsSound (sign_message m n t a) = Holds json IsTron a
  IsSound (sign_typed_data m n t a) = Holds json IsTron a

  -- The request under a new id, without the numbers that `from_json` does not read.
  abbrev pub read_back : Uuid → TronRequest json → TronRequest json
  read_back i (connect m n a) = connect (record { id = i }) n a
  read_back i (send_transaction m p) = send_transaction (record { id = i }) p
  read_back i (trigger_contract m p) = trigger_contract (record { id = i }) p
  read_back i (deploy_contract m p) =
      deploy_contract (record { id = i })
        (record p { origin_energy_limit = none; user_fee_percentage = none })
  read_back i (sign_message m n t a) = sign_message (record { id = i }) n t a
  read_back i (sign_typed_data m n t a) = sign_typed_data (record { id = i }) n t a

  map-id : {A : Type 0} (o : Option A) → Option.map (λ v. v) o ≡ o
  map-id none = refl
  map-id (some v) = refl

  no_text :
      {A : Type 0} (f : A → ℕ) (o : Option A)
      → and_then (Option.map (λ x. u64 (f x)) o) as_str ≡ none
  no_text f none = refl
  no_text f (some x) = as_str-u64 (f x)

  unread :
      {A B : Type 0} (from_str : String → Result B String) (key : String) (f : A → ℕ) (o : Option A)
      → read_opt json from_str key (Option.map (λ x. u64 (f x)) o) ≡ ok none
  unfolding read_opt
  unread from_str key f o = rw (no_text f o) refl

  module _ (show_id : ℕ → String) (fresh : Uuid) (m : RequestMeta) where
    connect_back :
        (n : Option TronNetwork) (a : Option TronAddress)
        → Holds json IsTron a
        → from_json json hex base58 fresh (to_value json hex base58 show_id (connect m n a))
          ≡ ok (connect (record { id = fresh }) n a)
    unfolding from_json to_value str_field opt_parsed
    connect_back n a h = simp (
      wire,
      get-object,
      find-insert,
      find-empty,
      read_opt-map json (shown network_from_str) network_id network_back,
      read_opt-Holds json (shown (address_from_str base58)) (to_base58 base58) IsTron address_back
          "address" a h,
    )

    send_transaction_back :
        (p : SendTransactionParams json)
        → IsSound (send_transaction m p)
        → from_json json hex base58 fresh (to_value json hex base58 show_id (send_transaction m p))
          ≡ ok (send_transaction (record { id = fresh }) p)
    unfolding from_json to_value str_field opt_parsed req_parsed
    send_transaction_back p (to_good, from_good, small) = simp (
      wire,
      get-object,
      find-insert,
      find-empty,
      read_opt-map json (shown network_from_str) network_id network_back,
      read_opt-map json (hex_data_from_str hex) (λ d. to_hex_prefixed hex (HexData.bytes d))
          (hex_data_from_str-to_hex_prefixed hex),
      read_req-Holds json (shown (address_from_str base58)) (to_base58 base58) IsTron address_back
          "to" p.to to_good,
      read_opt-Holds json (shown (address_from_str base58)) (to_base58 base58) IsTron address_back
          "from" p.from from_good,
      read_req-Holds json (shown sun_from_str) decimal IsU64 sun_back "amount" p.amount small,
    )

    trigger_contract_back :
        (p : TriggerContractParams json)
        → IsSound (trigger_contract m p)
        → from_json json hex base58 fresh (to_value json hex base58 show_id (trigger_contract m p))
          ≡ ok (trigger_contract (record { id = fresh }) p)
    unfolding from_json to_value str_field opt_parsed req_parsed
    trigger_contract_back p (c_good, from_good, limit, call) = simp (
      wire,
      map-id,
      get-object,
      find-insert,
      find-empty,
      read_opt-map json (shown network_from_str) network_id network_back,
      read_req-Holds json (shown (address_from_str base58)) (to_base58 base58) IsTron address_back
          "contractAddress" p.contract_address c_good,
      read_opt-Holds json (shown (address_from_str base58)) (to_base58 base58) IsTron address_back
          "from" p.from from_good,
      read_opt-Holds json (shown sun_from_str) decimal IsU64 sun_back "feeLimit" p.fee_limit limit,
      read_opt-Holds json (shown sun_from_str) decimal IsU64 sun_back "callValue" p.call_value call,
    )

    deploy_contract_back :
        (p : DeployContractParams json)
        → IsSound (deploy_contract m p)
        → from_json json hex base58 fresh (to_value json hex base58 show_id (deploy_contract m p))
          ≡ ok (read_back fresh (deploy_contract m p))
    unfolding from_json to_value str_field opt_parsed req_parsed
    deploy_contract_back p (from_good, limit, call) = simp (
      wire,
      map-id,
      get-object,
      find-insert,
      find-empty,
      read_opt-map json (shown network_from_str) network_id network_back,
      read_req-string json (hex_data_from_str hex) (λ d. to_hex_prefixed hex (HexData.bytes d))
          (hex_data_from_str-to_hex_prefixed hex) "bytecode" p.bytecode,
      read_opt-Holds json (shown (address_from_str base58)) (to_base58 base58) IsTron address_back
          "from" p.from from_good,
      read_opt-Holds json (shown sun_from_str) decimal IsU64 sun_back "feeLimit" p.fee_limit limit,
      read_opt-Holds json (shown sun_from_str) decimal IsU64 sun_back "callValue" p.call_value call,
      unread (shown energy_limit_from_str) "originEnergyLimit" (λ x. x) p.origin_energy_limit,
      unread (shown percentage_from_str) "userFeePercentage" Percentage.get p.user_fee_percentage,
    )

    sign_message_back :
        (n : Option TronNetwork) (t : String) (a : Option TronAddress)
        → Holds json IsTron a
        → from_json json hex base58 fresh (to_value json hex base58 show_id (sign_message m n t a))
          ≡ ok (sign_message (record { id = fresh }) n t a)
    unfolding from_json to_value str_field opt_parsed
    sign_message_back n t a h = simp (
      wire,
      get-object,
      find-insert,
      find-empty,
      read_opt-map json (shown network_from_str) network_id network_back,
      read_opt-Holds json (shown (address_from_str base58)) (to_base58 base58) IsTron address_back
          "address" a h,
    )

    sign_typed_data_back :
        (n : Option TronNetwork) (t : TypedData json) (a : Option TronAddress)
        → Holds json IsTron a
        → from_json json hex base58 fresh
            (to_value json hex base58 show_id (sign_typed_data m n t a))
          ≡ ok (sign_typed_data (record { id = fresh }) n t a)
    unfolding from_json to_value str_field opt_parsed
    sign_typed_data_back n t a h = simp (
      wire,
      get-object,
      find-insert,
      find-empty,
      read_opt-map json (shown network_from_str) network_id network_back,
      read_opt-Holds json (shown (address_from_str base58)) (to_base58 base58) IsTron address_back
          "address" a h,
    )

  -- The JSON of a TRON request whose addresses and amounts are ones that parse reads back as that request, under the new id, but a deployment without its energy limit and its fee percentage, which are written as numbers and read from texts only.
  pub tron_read_back :
      (show_id : ℕ → String) (fresh : Uuid) (r : TronRequest json)
      → IsSound r
      → from_json json hex base58 fresh (to_value json hex base58 show_id r)
        ≡ ok (read_back fresh r)
  tron_read_back show_id fresh (connect m n a) h = connect_back show_id fresh m n a h
  tron_read_back show_id fresh (send_transaction m p) h = send_transaction_back show_id fresh m p h
  tron_read_back show_id fresh (trigger_contract m p) h = trigger_contract_back show_id fresh m p h
  tron_read_back show_id fresh (deploy_contract m p) h = deploy_contract_back show_id fresh m p h
  tron_read_back show_id fresh (sign_message m n t a) h = sign_message_back show_id fresh m n t a h
  tron_read_back show_id fresh (sign_typed_data m n t a) h =
      sign_typed_data_back show_id fresh m n t a h
