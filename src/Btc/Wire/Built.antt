-- ===== src/Btc/Wire/Built.antt =====
-- btc/src/types.rs: what each arm of `from_json` builds.
use browser_web3_signer.Prelude.{
  ℕ, zero, suc, ◌≡◌, ◌<◌, ◌^◌, sym, ap, subst, String, Option, none, some, List, ok, >>=-ok,
  ok-injective, ok≢err, map_err-ok, arith, Result-cases, Bool-cases, inl, inr, str_eq, unwrap_or,
  ok_or,
}
use browser_web3_signer.Prelude.Decimal.{parse_unsigned}
use browser_web3_signer.Prelude.Decimal.RoundTrip.{parse_unsigned-lt}
use browser_web3_signer.Prelude.Lists.{traverse-All}
use browser_web3_signer.Core.Json.{Serde}
use browser_web3_signer.Core.Config.{Var}
use browser_web3_signer.Core.Types.{Uuid, RequestMeta}
use browser_web3_signer.Core.Parse.{str_field, req_parsed, opt_parsed}
use browser_web3_signer.Core.Parse.Fields.{req_parsed-ok, opt_parsed-ok}
use browser_web3_signer.Btc.Deps.{Deps}
use browser_web3_signer.Btc.Domain.{
  BtcNetwork, network_from_str, default_network, sats_from_str, fee_rate_from_str, non_zero,
  protocol_from_str, shown, address_from_str, psbt_from_str,
}
use browser_web3_signer.Btc.Request.{
  BtcRequest, meta, new_connect, new_send_transfer, new_sign_psbt, new_sign_message,
}
use browser_web3_signer.Btc.Wire.{
  from_json, from_json_as, connect_arm, send_transfer_arm, sign_psbt_arm, sign_message_arm,
  sign_inputs_field, read_sign_inputs, read_indexes, read_index, u32_from, bool_field,
}
use browser_web3_signer.Btc.Wire.Acceptable.{
  IsFee, AreU32, IsAcceptable, IsBuilt, new_connect-IsBuilt, new_send_transfer-IsBuilt,
  new_sign_psbt-IsBuilt, new_sign_message-IsBuilt,
}

sats-lt : (s : String) (n : ℕ) → shown sats_from_str s ≡ ok n → n < 2 ^ 64
unfolding sats_from_str
sats-lt s n h = parse_unsigned-lt (2 ^ 64) s (omega arith) (map_err-ok _ _ (map_err-ok _ _ h))

non_zero-positive : (k n : ℕ) → non_zero k ≡ ok n → (k ≡ n) × (0 < n)
unfolding non_zero
non_zero-positive zero n h = cc
non_zero-positive (suc k) n h = ground arith

module _ (json : Serde) (deps : Deps) where
  open json use {Value, get, as_u64, as_array}

  rate-IsFee : (s : String) (n : ℕ) → shown fee_rate_from_str s ≡ ok n → IsFee deps (some n)
  unfolding fee_rate_from_str
  rate-IsFee s n h =
      let (k, e, h1) = >>=-ok (parse_unsigned (2 ^ 64) s) _ (map_err-ok _ _ (map_err-ok _ _ h)) in
      let (same, positive) = non_zero-positive k n h1 in
      (positive, subst (λ x. x < 2 ^ 64) same (parse_unsigned-lt (2 ^ 64) s (omega arith) e))

  index-lt : (v : Value) (i : ℕ) → read_index json deps v ≡ ok i → i < 2 ^ 32
  unfolding read_index u32_from
  index-lt v i h = of _ (as_u64 v) h
    where
      of :
          (reason : String) (o : Option ℕ) → ok_or (u32_from json deps o) reason ≡ ok i → i < 2 ^ 32
      of reason none k = cc
      of reason (some n) k = ground arith

  indexes-AreU32 :
      (v : Option Value) (is : Option (List ℕ))
      → read_sign_inputs json deps v ≡ ok is
      → AreU32 deps is
  unfolding read_sign_inputs read_indexes
  indexes-AreU32 v none h = tt
  indexes-AreU32 none (some is) h = cc
  indexes-AreU32 (some v) (some is) h = elim (Result-cases (read_indexes json deps v)) [
    | inl (js, e) ↦
        let (vs, _, h1) = >>=-ok (ok_or (as_array v) _) _ e in
        subst (λ x. AreU32 deps x) (ok-injective (rw e at h))
          (traverse-All (read_index json deps) (λ i. i < 2 ^ 32) vs js index-lt h1)
    | inr (x, e) ↦ absurd (ok≢err (sym (rw e at h)))
  ]

  module _ (m : RequestMeta) (n : BtcNetwork) (body : Value) (r : BtcRequest deps) where
    connect_arm-IsBuilt : connect_arm json deps m n body ≡ ok r → IsBuilt deps m r
    unfolding connect_arm
    connect_arm-IsBuilt h =
        let (a, _, h1) =
          >>=-ok (opt_parsed json (shown (address_from_str deps)) body "address") _ h in
        new_connect-IsBuilt deps m r n a (map_err-ok _ (new_connect deps m n a) h1)

    rate_field :
        (o : Option ℕ)
        → opt_parsed json (shown fee_rate_from_str) body "feeRate" ≡ ok o
        → IsFee deps o
    rate_field o h = elim (opt_parsed-ok json (shown fee_rate_from_str) body "feeRate" o h) [
      | inl absent ↦ subst (IsFee deps) (sym absent) tt
      | inr (k, s, there, e) ↦ subst (IsFee deps) (sym there) (rate-IsFee s k e)
    ]

    send_transfer_arm-IsBuilt : send_transfer_arm json deps m n body ≡ ok r → IsBuilt deps m r
    unfolding send_transfer_arm
    send_transfer_arm-IsBuilt h =
        let (t, _, h1) = >>=-ok (req_parsed json (shown (address_from_str deps)) body "to") _ h in
        let (f, _, h2) =
          >>=-ok (opt_parsed json (shown (address_from_str deps)) body "from") _ h1 in
        let (a, small, h3) = >>=-ok (req_parsed json (shown sats_from_str) body "amount") _ h2 in
        let (x, fee, h4) = >>=-ok (opt_parsed json (shown fee_rate_from_str) body "feeRate") _ h3 in
        let (s, e) = req_parsed-ok json (shown sats_from_str) body "amount" small in
        new_send_transfer-IsBuilt deps m r
          (record { network = n; to = t; from = f; amount = a; fee_rate = x }) (sats-lt s a e)
          (rate_field x fee) (map_err-ok _ (new_send_transfer deps m _) h4)

    sign_psbt_arm-IsBuilt : sign_psbt_arm json deps m n body ≡ ok r → IsBuilt deps m r
    unfolding sign_psbt_arm sign_inputs_field
    sign_psbt_arm-IsBuilt h =
        let (p, _, h1) = >>=-ok (req_parsed json (shown (psbt_from_str deps)) body "psbt") _ h in
        let (f, _, h2) =
          >>=-ok (opt_parsed json (shown (address_from_str deps)) body "from") _ h1 in
        let (is, read, h3) = >>=-ok (sign_inputs_field json deps body) _ h2 in
        let (z, _, h4) = >>=-ok (bool_field json deps body "finalize") _ h3 in
        let (b, _, h5) = >>=-ok (bool_field json deps body "broadcast") _ h4 in
        new_sign_psbt-IsBuilt deps m r
          (record {
            network = n;
            psbt = p;
            from = f;
            sign_inputs = is;
            finalize = z;
            broadcast = b;
          })
          (indexes-AreU32 (get body "signInputs") is read)
          (map_err-ok _ (new_sign_psbt deps m _) h5)

    sign_message_arm-IsBuilt : sign_message_arm json deps m n body ≡ ok r → IsBuilt deps m r
    unfolding sign_message_arm
    sign_message_arm-IsBuilt h =
        let (t, _, h1) = >>=-ok (str_field json body "message") _ h in
        let (a, _, h2) =
          >>=-ok (opt_parsed json (shown (address_from_str deps)) body "address") _ h1 in
        let (p, _, h3) = >>=-ok (opt_parsed json (shown protocol_from_str) body "protocol") _ h2 in
        new_sign_message-IsBuilt deps m r _ (map_err-ok _ (new_sign_message deps m _) h3)

    from_json_as-IsBuilt :
        (typ : String) → from_json_as json deps m n body typ ≡ ok r → IsBuilt deps m r
    unfolding from_json_as
    from_json_as-IsBuilt typ h = elim (Bool-cases (str_eq typ "connect")) [
      | inl y ↦ connect_arm-IsBuilt (rw y at h)
      | inr a ↦ elim (Bool-cases (str_eq typ "send_transfer")) [
        | inl y ↦ send_transfer_arm-IsBuilt (rw (a, y) at h)
        | inr b ↦ elim (Bool-cases (str_eq typ "sign_psbt")) [
          | inl y ↦ sign_psbt_arm-IsBuilt (rw (a, b, y) at h)
          | inr c ↦ elim (Bool-cases (str_eq typ "sign_message")) [
            | inl y ↦ sign_message_arm-IsBuilt (rw (a, b, c, y) at h)
            | inr d ↦ absurd (ok≢err (sym (rw (a, b, c, d) at h)))
          ]
        ]
      ]
    ]

  -- Every Bitcoin request that is read from a body has the fresh id, and only addresses of its network, an amount and a fee of 64 bits (the fee not zero), and, for a PSBT, inputs that it has, its script-path inputs exactly those of them that spend a leaf, and a broadcast only finalized.
  pub from_json-IsAcceptable :
      (env : Var) (fresh : Uuid) (body : Value) (r : BtcRequest deps)
      → from_json json deps env fresh body ≡ ok r
      → ((meta deps r).id ≡ fresh) × IsAcceptable deps r
  unfolding from_json
  from_json-IsAcceptable env fresh body r h =
      let (typ, _, h1) = >>=-ok (str_field json body "type") _ h in
      let (n, _, h2) = >>=-ok (opt_parsed json (shown network_from_str) body "network") _ h1 in
      let (m, good) =
        from_json_as-IsBuilt (record { id = fresh }) (unwrap_or n (default_network env)) body r typ
          h2 in
      (ap RequestMeta.id m, good)
