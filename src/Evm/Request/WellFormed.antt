-- ===== src/Evm/Request/WellFormed.antt =====
-- evm/src/types.rs: the rules that a request keeps, and what each arm of `from_json` builds.
use browser_web3_signer.Prelude.{
  ℕ, ◌≡◌, ◌<◌, ◌^◌, refl, String, Option, none, some, ok, and_then, str_eq, >>=-ok, ok-injective,
  ok≢err, false, arith, Bool-cases, inl, inr, sym, subst, ap, Result-cases,
}
use browser_web3_signer.Core.Json.{Serde}
use browser_web3_signer.Core.Types.{Uuid, RequestMeta}
use browser_web3_signer.Core.Parse.{str_field, opt_parsed}
use browser_web3_signer.Evm.Deps.{Deps}
use browser_web3_signer.Evm.Domain.{ChainId, address_text, wei_text, call_data_text}
use browser_web3_signer.Evm.Request.{
  EvmRequest, connect, send_transaction, sign_message, sign_typed_data, SendTransactionParams, meta,
  check, check_creation, checked_send, from_json, message_from_json, chain_id_field, connect_arm,
  send_transaction_arm, sign_message_arm, sign_typed_data_arm, from_json_as,
}

-- A chain id fits its `u64`.
abbrev pub IsU64 : Option ChainId → Type 0
IsU64 none = Unit
IsU64 (some c) = c < 2 ^ 64

module _ (json : Serde) (deps : Deps) where
  open json use {Value, as_u64, as_u64-lt, get}
  open deps use {parse_url, Address, Bytes, bytes_is_empty}

  -- A wallet can be asked to send it: there is a recipient, or init code that is not empty.
  abbrev pub IsSendable : Option Address → Option Bytes → Type 0
  IsSendable (some to) d = Unit
  IsSendable none (some code) = bytes_is_empty code ≡ false
  IsSendable none none = ⊥

  pub check-IsSendable :
      (p : SendTransactionParams json deps) (u : Unit {0})
      → check json deps p ≡ ok u
      → IsSendable p.to p.calldata
  unfolding check check_creation
  check-IsSendable p u h = from p.to p.calldata h
    where
      from :
          (to : Option Address) (d : Option Bytes)
          → check_creation json deps to d ≡ ok u
          → IsSendable to d
      from (some a) d k = tt
      from none (some code) k = ground arith
      from none none k = cc

  pub IsSendable-check :
      (p : SendTransactionParams json deps) → IsSendable p.to p.calldata → check json deps p ≡ ok tt
  unfolding check check_creation
  IsSendable-check p h = from p.to p.calldata h
    where
      from :
          (to : Option Address) (d : Option Bytes)
          → IsSendable to d
          → check_creation json deps to d ≡ ok tt
      from (some a) d k = refl
      from none (some code) k = rw k refl
      from none none k = absurd k

  -- What a request that is built from a body satisfies.
  abbrev pub IsWellFormed : EvmRequest json deps → Type 0
  IsWellFormed (connect m p) = IsU64 p.chain_id
  IsWellFormed (send_transaction m p) = IsU64 p.chain_id × IsSendable p.to p.calldata
  IsWellFormed (sign_message m c t a) = IsU64 c
  IsWellFormed (sign_typed_data m c t a) = IsU64 c

  abbrev pub with_id : Uuid → EvmRequest json deps → EvmRequest json deps
  with_id i (connect m p) = connect (record { id = i }) p
  with_id i (send_transaction m p) = send_transaction (record { id = i }) p
  with_id i (sign_message m c t a) = sign_message (record { id = i }) c t a
  with_id i (sign_typed_data m c t a) = sign_typed_data (record { id = i }) c t a

  chain_id_field-IsU64 : (m : RequestMeta) (body : Value) → IsU64 (chain_id_field json deps m body)
  chain_id_field-IsU64 m body = read (get body "chainId")
    where
      number : (v : Value) (n : Option ℕ) → as_u64 v ≡ n → IsU64 n
      number v none h = tt
      number v (some n) h = as_u64-lt v n h

      read : (o : Option Value) → IsU64 (and_then o as_u64)
      read none = tt
      read (some v) = number v (as_u64 v) refl

  -- What an arm of `from_json` gives.
  abbrev IsBuilt : RequestMeta → EvmRequest json deps → Type 0
  IsBuilt m r = (meta json deps r ≡ m) × IsWellFormed r

  checked_send-IsBuilt :
      (m : RequestMeta) (p : SendTransactionParams json deps) (r : EvmRequest json deps)
      → IsU64 p.chain_id
      → checked_send json deps m p ≡ ok r
      → IsBuilt m r
  unfolding checked_send
  checked_send-IsBuilt m p r c h = elim (Result-cases (check json deps p)) [
    | inl (u, passed) ↦
        subst (IsBuilt m) (ok-injective (rw passed at h)) (refl, (c, check-IsSendable p u passed))
    | inr (e, failed) ↦ absurd (ok≢err (sym (rw failed at h)))
  ]

  module _ (m : RequestMeta) (body : Value) (r : EvmRequest json deps) where
    connect_arm-IsBuilt : connect_arm json deps m body ≡ ok r → IsBuilt m r
    unfolding connect_arm
    connect_arm-IsBuilt h =
        let (a, _, h1) = >>=-ok (opt_parsed json (address_text deps) body "address") _ h in
        let (u, _, h2) = >>=-ok (opt_parsed json parse_url body "rpcUrl") _ h1 in
        subst (IsBuilt m) (ok-injective h2) (refl, chain_id_field-IsU64 m body)

    send_transaction_arm-IsBuilt : send_transaction_arm json deps m body ≡ ok r → IsBuilt m r
    unfolding send_transaction_arm
    send_transaction_arm-IsBuilt h =
        let (t, _, h1) = >>=-ok (opt_parsed json (address_text deps) body "to") _ h in
        let (f, _, h2) = >>=-ok (opt_parsed json (address_text deps) body "from") _ h1 in
        let (v, _, h3) = >>=-ok (opt_parsed json (wei_text deps) body "value") _ h2 in
        let (d, _, h4) = >>=-ok (opt_parsed json (call_data_text deps) body "data") _ h3 in
        let (g, _, h5) = >>=-ok (opt_parsed json (wei_text deps) body "gasLimit") _ h4 in
        let (x, _, h6) = >>=-ok (opt_parsed json (wei_text deps) body "maxFeePerGas") _ h5 in
        let (y, _, h7) =
          >>=-ok (opt_parsed json (wei_text deps) body "maxPriorityFeePerGas") _ h6 in
        checked_send-IsBuilt m _ r (chain_id_field-IsU64 m body) h7

    sign_message_arm-IsBuilt : sign_message_arm json deps m body ≡ ok r → IsBuilt m r
    unfolding sign_message_arm
    sign_message_arm-IsBuilt h =
        let (t, _, h1) = >>=-ok (message_from_json json deps body) _ h in
        let (a, _, h2) = >>=-ok (opt_parsed json (address_text deps) body "address") _ h1 in
        subst (IsBuilt m) (ok-injective h2) (refl, chain_id_field-IsU64 m body)

    sign_typed_data_arm-IsBuilt : sign_typed_data_arm json deps m body ≡ ok r → IsBuilt m r
    unfolding sign_typed_data_arm
    sign_typed_data_arm-IsBuilt h =
        let (p, _, h1) = >>=-ok (str_field json body "primaryType") _ h in
        let (a, _, h2) = >>=-ok (opt_parsed json (address_text deps) body "address") _ h1 in
        subst (IsBuilt m) (ok-injective h2) (refl, chain_id_field-IsU64 m body)

    from_json_as-IsBuilt : (typ : String) → from_json_as json deps m body typ ≡ ok r → IsBuilt m r
    unfolding from_json_as
    from_json_as-IsBuilt typ h = elim (Bool-cases (str_eq typ "connect")) [
      | inl y ↦ connect_arm-IsBuilt (rw y at h)
      | inr n₁ ↦ elim (Bool-cases (str_eq typ "send_transaction")) [
        | inl y ↦ send_transaction_arm-IsBuilt (rw (n₁, y) at h)
        | inr n₂ ↦ elim (Bool-cases (str_eq typ "sign_message")) [
          | inl y ↦ sign_message_arm-IsBuilt (rw (n₁, n₂, y) at h)
          | inr n₃ ↦ elim (Bool-cases (str_eq typ "sign_typed_data")) [
            | inl y ↦ sign_typed_data_arm-IsBuilt (rw (n₁, n₂, n₃, y) at h)
            | inr n₄ ↦ absurd (ok≢err (sym (rw (n₁, n₂, n₃, n₄) at h)))
          ]
        ]
      ]
    ]

  -- Every request that `from_json` builds has the fresh id and is one that a wallet can be asked for: a transaction without a recipient has init code, and a chain id fits its 64 bits.
  pub from_json-IsWellFormed :
      (fresh : Uuid) (body : Value) (r : EvmRequest json deps)
      → from_json json deps fresh body ≡ ok r
      → ((meta json deps r).id ≡ fresh) × IsWellFormed r
  unfolding from_json
  from_json-IsWellFormed fresh body r h =
      let (typ, _, k) = >>=-ok (str_field json body "type") _ h in
      let (m, good) = from_json_as-IsBuilt (record { id = fresh }) body r typ k in
      (ap RequestMeta.id m, good)
