-- ===== src/Tron/Wire/Sound.antt =====
-- tron/src/types.rs: what each arm of `from_json` builds.
use browser_web3_signer.Prelude.{
  ℕ, ◌≡◌, ◌≤◌, ◌^◌, refl, sym, subst, ap, String, Option, Result, ok, >>=-ok, map_err-ok,
  ok-injective, ok≢err, ok_or, arith, Bool-cases, inl, inr, str_eq,
}
use browser_web3_signer.Prelude.Decimal.RoundTrip.{parse_unsigned-lt}
use browser_web3_signer.Core.Json.{Serde}
use browser_web3_signer.Core.Bytes.{Hex, hex_data_from_str}
use browser_web3_signer.Core.Types.{Uuid, RequestMeta}
use browser_web3_signer.Core.Parse.{str_field, req_parsed, opt_parsed, display}
use browser_web3_signer.Core.Parse.Fields.{Holds, req_parsed-ok, opt_parsed-ok}
use browser_web3_signer.Tron.Address.{IsTron}
use browser_web3_signer.Tron.Domain.{
  Base58, TronNetwork, TronAddress, network_from_str, address_from_str, sun_from_str,
  energy_limit_from_str, Percentage, percentage_from_str, shown,
}
use browser_web3_signer.Tron.Bounds.{address_from_str-IsTron, percentage_from_str-le}
use browser_web3_signer.Tron.Request.{TronRequest, meta, deploy_contract}
use browser_web3_signer.Tron.Wire.{
  from_json, from_json_as, connect_arm, send_transaction_arm, trigger_contract_arm,
  deploy_contract_arm, sign_message_arm, sign_typed_data_arm,
}
use browser_web3_signer.Tron.Wire.RoundTrip.{IsU64, IsSound}

sun-IsU64 : (s : String) (n : ℕ) → shown sun_from_str s ≡ ok n → IsU64 n
unfolding sun_from_str
sun-IsU64 s n h = parse_unsigned-lt (2 ^ 64) s (omega arith) (map_err-ok _ _ (map_err-ok _ _ h))

energy-IsU64 : (s : String) (n : ℕ) → shown energy_limit_from_str s ≡ ok n → IsU64 n
unfolding energy_limit_from_str
energy-IsU64 s n h = parse_unsigned-lt (2 ^ 64) s (omega arith) (map_err-ok _ _ (map_err-ok _ _ h))

abbrev IsPercent : Percentage → Type 0
IsPercent p = p.get ≤ 100

shown-IsPercent : (s : String) (p : Percentage) → shown percentage_from_str s ≡ ok p → IsPercent p
shown-IsPercent s p h = percentage_from_str-le s p (map_err-ok display (percentage_from_str s) h)

module _ (json : Serde) (hex : Hex) (base58 : Base58) where
  open json use {Value, get}

  abbrev address_text : String → Result TronAddress String
  address_text = shown (address_from_str base58)

  address-IsTron : (s : String) (a : TronAddress) → address_text s ≡ ok a → IsTron a
  address-IsTron s a h =
      address_from_str-IsTron base58 s a (map_err-ok display (address_from_str base58 s) h)

  opt-Holds :
      {A : Type 0} (from_str : String → Result A String) (P : A → Type 0) (body : Value)
      (key : String) (o : Option A)
      → ((s : String) (a : A) → from_str s ≡ ok a → P a)
      → opt_parsed json from_str body key ≡ ok o
      → Holds json P o
  opt-Holds from_str P body key o good h = elim (opt_parsed-ok json from_str body key o h) [
    | inl absent ↦ subst (Holds json P) (sym absent) tt
    | inr (a, s, there, e) ↦ subst (Holds json P) (sym there) (good s a e)
  ]

  -- The limits of a deployment are ones that parse.
  abbrev pub IsLimited : TronRequest json → Type 0
  IsLimited (deploy_contract m p) =
      Holds json IsU64 p.origin_energy_limit × Holds json IsPercent p.user_fee_percentage
  IsLimited _ = Unit

  -- What an arm of `from_json` gives.
  abbrev IsBuilt : RequestMeta → TronRequest json → Type 0
  IsBuilt m r = (meta json r ≡ m) × IsSound json hex base58 r × IsLimited r

  module _ (m : RequestMeta) (n : Option TronNetwork) (body : Value) (r : TronRequest json) where
    address_field :
        (key : String) (o : Option TronAddress)
        → opt_parsed json address_text body key ≡ ok o
        → Holds json IsTron o
    address_field key o h = opt-Holds address_text IsTron body key o address-IsTron h

    sun_field :
        (key : String) (o : Option ℕ)
        → opt_parsed json (shown sun_from_str) body key ≡ ok o
        → Holds json IsU64 o
    sun_field key o h = opt-Holds (shown sun_from_str) IsU64 body key o sun-IsU64 h

    connect_arm-IsBuilt : connect_arm json hex base58 m n body ≡ ok r → IsBuilt m r
    unfolding connect_arm
    connect_arm-IsBuilt h =
        let (a, e, h1) = >>=-ok (opt_parsed json address_text body "address") _ h in
        subst (IsBuilt m) (ok-injective h1) (refl, address_field "address" a e, tt)

    send_transaction_arm-IsBuilt :
        send_transaction_arm json hex base58 m n body ≡ ok r → IsBuilt m r
    unfolding send_transaction_arm
    send_transaction_arm-IsBuilt h =
        let (t, et, h1) = >>=-ok (req_parsed json address_text body "to") _ h in
        let (f, ef, h2) = >>=-ok (opt_parsed json address_text body "from") _ h1 in
        let (a, ea, h3) = >>=-ok (req_parsed json (shown sun_from_str) body "amount") _ h2 in
        let (d, _, h4) = >>=-ok (opt_parsed json (hex_data_from_str hex) body "data") _ h3 in
        let (st, kt) = req_parsed-ok json address_text body "to" et in
        let (sa, ka) = req_parsed-ok json (shown sun_from_str) body "amount" ea in
        subst (IsBuilt m) (ok-injective h4)
          (refl, (address-IsTron st t kt, address_field "from" f ef, sun-IsU64 sa a ka), tt)

    trigger_contract_arm-IsBuilt :
        trigger_contract_arm json hex base58 m n body ≡ ok r → IsBuilt m r
    unfolding trigger_contract_arm
    trigger_contract_arm-IsBuilt h =
        let (c, ec, h1) = >>=-ok (req_parsed json address_text body "contractAddress") _ h in
        let (f, ef, h2) = >>=-ok (opt_parsed json address_text body "from") _ h1 in
        let (s, _, h3) = >>=-ok (str_field json body "functionSelector") _ h2 in
        let (l, el, h4) = >>=-ok (opt_parsed json (shown sun_from_str) body "feeLimit") _ h3 in
        let (v, ev, h5) = >>=-ok (opt_parsed json (shown sun_from_str) body "callValue") _ h4 in
        let (sc, kc) = req_parsed-ok json address_text body "contractAddress" ec in
        subst (IsBuilt m) (ok-injective h5) (
          refl,
          (
            address-IsTron sc c kc,
            address_field "from" f ef,
            sun_field "feeLimit" l el,
            sun_field "callValue" v ev,
          ),
          tt,
        )

    deploy_contract_arm-IsBuilt : deploy_contract_arm json hex base58 m n body ≡ ok r → IsBuilt m r
    unfolding deploy_contract_arm
    deploy_contract_arm-IsBuilt h =
        let (a, _, h1) = >>=-ok (ok_or (get body "abi") "missing field 'abi'") _ h in
        let (b, _, h2) = >>=-ok (req_parsed json (hex_data_from_str hex) body "bytecode") _ h1 in
        let (f, ef, h3) = >>=-ok (opt_parsed json address_text body "from") _ h2 in
        let (l, el, h4) = >>=-ok (opt_parsed json (shown sun_from_str) body "feeLimit") _ h3 in
        let (v, ev, h5) = >>=-ok (opt_parsed json (shown sun_from_str) body "callValue") _ h4 in
        let (g, eg, h6) =
          >>=-ok (opt_parsed json (shown energy_limit_from_str) body "originEnergyLimit") _ h5 in
        let (p, ep, h7) =
          >>=-ok (opt_parsed json (shown percentage_from_str) body "userFeePercentage") _ h6 in
        subst (IsBuilt m) (ok-injective h7) (
          refl,
          (address_field "from" f ef, sun_field "feeLimit" l el, sun_field "callValue" v ev),
          (
            opt-Holds (shown energy_limit_from_str) IsU64 body "originEnergyLimit" g energy-IsU64
                eg,
            opt-Holds (shown percentage_from_str) IsPercent body "userFeePercentage" p
                shown-IsPercent ep,
          ),
        )

    sign_message_arm-IsBuilt : sign_message_arm json hex base58 m n body ≡ ok r → IsBuilt m r
    unfolding sign_message_arm
    sign_message_arm-IsBuilt h =
        let (t, _, h1) = >>=-ok (str_field json body "message") _ h in
        let (a, e, h2) = >>=-ok (opt_parsed json address_text body "address") _ h1 in
        subst (IsBuilt m) (ok-injective h2) (refl, address_field "address" a e, tt)

    sign_typed_data_arm-IsBuilt : sign_typed_data_arm json hex base58 m n body ≡ ok r → IsBuilt m r
    unfolding sign_typed_data_arm
    sign_typed_data_arm-IsBuilt h =
        let (p, _, h1) = >>=-ok (str_field json body "primaryType") _ h in
        let (a, e, h2) = >>=-ok (opt_parsed json address_text body "address") _ h1 in
        subst (IsBuilt m) (ok-injective h2) (refl, address_field "address" a e, tt)

    from_json_as-IsBuilt :
        (typ : String) → from_json_as json hex base58 m n body typ ≡ ok r → IsBuilt m r
    unfolding from_json_as
    from_json_as-IsBuilt typ h = elim (Bool-cases (str_eq typ "connect")) [
      | inl y ↦ connect_arm-IsBuilt (rw y at h)
      | inr a ↦ elim (Bool-cases (str_eq typ "send_transaction")) [
        | inl y ↦ send_transaction_arm-IsBuilt (rw (a, y) at h)
        | inr b ↦ elim (Bool-cases (str_eq typ "trigger_contract")) [
          | inl y ↦ trigger_contract_arm-IsBuilt (rw (a, b, y) at h)
          | inr c ↦ elim (Bool-cases (str_eq typ "deploy_contract")) [
            | inl y ↦ deploy_contract_arm-IsBuilt (rw (a, b, c, y) at h)
            | inr d ↦ elim (Bool-cases (str_eq typ "sign_message")) [
              | inl y ↦ sign_message_arm-IsBuilt (rw (a, b, c, d, y) at h)
              | inr e ↦ elim (Bool-cases (str_eq typ "sign_typed_data")) [
                | inl y ↦ sign_typed_data_arm-IsBuilt (rw (a, b, c, d, e, y) at h)
                | inr f ↦ absurd (ok≢err (sym (rw (a, b, c, d, e, f) at h)))
              ]
            ]
          ]
        ]
      ]
    ]

  -- Every TRON request that is read from a body has the fresh id, addresses of 21 bytes with the prefix 0x41, amounts and an energy limit of 64 bits, and a fee percentage of at most 100.
  pub tron_from_json-IsSound :
      (fresh : Uuid) (body : Value) (r : TronRequest json)
      → from_json json hex base58 fresh body ≡ ok r
      → ((meta json r).id ≡ fresh) × IsSound json hex base58 r × IsLimited r
  unfolding from_json
  tron_from_json-IsSound fresh body r h =
      let (typ, _, h1) = >>=-ok (str_field json body "type") _ h in
      let (n, _, h2) = >>=-ok (opt_parsed json (shown network_from_str) body "network") _ h1 in
      let (m, sound, limited) = from_json_as-IsBuilt (record { id = fresh }) n body r typ h2 in
      (ap RequestMeta.id m, sound, limited)
