-- ===== src/Btc/Wire/RoundTrip.antt =====
-- btc/src/types.rs: `from_json` on what `Serialize` writes.
use mathlib.Core.Option
use browser_web3_signer.Prelude.{
  ℕ, zero, suc, ◌≡◌, ◌<◌, ◌^◌, refl, sym, String, Bool, false, Option, none, some, List, [], ◌∷◌,
  map, ok, arith, str_eq,
}
use browser_web3_signer.Prelude.Decimal.{decimal}
use browser_web3_signer.Prelude.Decimal.RoundTrip.{parse_unsigned-decimal}
use browser_web3_signer.Prelude.Text.{trim-hex, equals_lowercase}
use browser_web3_signer.Prelude.Lists.{traverse-map}
use browser_web3_signer.Core.Json.{Serde}
use browser_web3_signer.Core.Config.{Var}
use browser_web3_signer.Core.Types.{Uuid, RequestMeta}
use browser_web3_signer.Core.Parse.{str_field, req_parsed, opt_parsed, read_req, read_opt, read_str}
use browser_web3_signer.Core.Parse.Fields.{read_opt-map, read_req-string, wire}
use browser_web3_signer.Btc.Deps.{Deps}
use browser_web3_signer.Btc.Domain.{
  BtcNetwork, mainnet, testnet, testnet4, signet, regtest, network_id, network_from_str,
  sats_from_str, fee_rate_from_str, non_zero, MessageProtocol, bip322, ecdsa, protocol_id,
  protocol_from_str, shown, require_network, address_from_str, psbt_from_str, psbt_from_trimmed,
  psbt_bytes,
}
use browser_web3_signer.Btc.Domain.{spends_script_path}
use browser_web3_signer.Btc.Request.{
  BtcRequest, connect, send_transfer, sign_psbt, sign_message, checked, new_connect,
  new_send_transfer, new_sign_psbt, new_sign_message, PsbtFields,
}
use browser_web3_signer.Btc.Wire.{
  from_json, to_value, sign_inputs_field, read_sign_inputs, read_indexes, read_index, u32_from,
  bool_field, read_bool, put_indexes,
}
use browser_web3_signer.Btc.Wire.Acceptable.{
  IsOn, IsFee, AreU32, IsSignable, IsAcceptable, bad_index-AreInputs,
}

network_back : (n : BtcNetwork) → shown network_from_str (network_id n) ≡ ok n
unfolding network_from_str network_id equals_lowercase
network_back mainnet = refl
network_back testnet = refl
network_back testnet4 = refl
network_back signet = refl
network_back regtest = refl

protocol_back : (p : MessageProtocol) → shown protocol_from_str (protocol_id p) ≡ ok p
unfolding protocol_from_str protocol_id equals_lowercase
protocol_back bip322 = refl
protocol_back ecdsa = refl

sats_back : (n : ℕ) → n < 2 ^ 64 → shown sats_from_str (decimal n) ≡ ok n
unfolding sats_from_str
sats_back n h = rw (parse_unsigned-decimal (2 ^ 64) n h) refl

positive_back : (n : ℕ) → 0 < n → non_zero n ≡ ok n
unfolding non_zero
positive_back zero h = absurd (omega arith)
positive_back (suc n) h = refl

fee_back : (n : ℕ) → 0 < n → n < 2 ^ 64 → shown fee_rate_from_str (decimal n) ≡ ok n
unfolding fee_rate_from_str
fee_back n h k = rw (parse_unsigned-decimal (2 ^ 64) n k, positive_back n h) refl

module _ (json : Serde) (deps : Deps) where
  open json use {
    Value, Map, string, bool, u64, array, insert, get, find, as_u64, as_str-string, as_bool-bool,
    as_array-array, as_u64-u64, get-object, find-empty, find-insert,
  }
  open deps use {
    show_address, parse-show_address, serialize_hex, deserialize, from_hex, serialize_hex-all_hex,
    deserialize-serialize_hex,
  }

  address_text_back : (a : deps.Address) → shown (address_from_str deps) (show_address a) ≡ ok a
  unfolding address_from_str
  address_text_back a = rw (parse-show_address a) refl

  psbt_back : (p : deps.Psbt) → shown (psbt_from_str deps) (serialize_hex p) ≡ ok p
  unfolding psbt_from_str psbt_from_trimmed psbt_bytes
  psbt_back p =
      rw
        (
          trim-hex (serialize_hex p) (serialize_hex-all_hex p),
          serialize_hex-all_hex p,
          deserialize-serialize_hex p,
        )
        refl

  fee_field_back :
      (r : Option ℕ)
      → IsFee deps r
      → read_opt json (shown fee_rate_from_str) "feeRate" (Option.map (λ x. string (decimal x)) r)
        ≡ ok r
  unfolding read_opt
  fee_field_back none h = refl
  fee_field_back (some n) h = rw (as_str-string (decimal n), fee_back n h.0 h.1) refl

  read_sats :
      (a : ℕ)
      → a < 2 ^ 64
      → read_req json (shown sats_from_str) "amount" (some (string (decimal a))) ≡ ok a
  unfolding read_req read_str
  read_sats a h = rw (as_str-string (decimal a), sats_back a h) refl

  index_back : (i : ℕ) → i < 2 ^ 32 → read_index json deps (u64 i) ≡ ok i
  unfolding read_index u32_from
  index_back i h = ground (arith, as_u64-u64 i (omega arith))

  indexes_back :
      (is : Option (List ℕ))
      → AreU32 deps is
      → read_sign_inputs json deps (Option.map (λ js. array (map u64 js)) is) ≡ ok is
  unfolding read_sign_inputs read_indexes
  indexes_back none h = refl
  indexes_back (some is) h =
      rw
        (
          as_array-array (map u64 is),
          traverse-map (read_index json deps) u64 (λ i. i < 2 ^ 32) is index_back h,
        )
        refl

  bool_back : (key : String) (b : Bool) → read_bool json deps key (some (bool b)) ≡ ok b
  unfolding read_bool
  bool_back key b = rw (as_bool-bool b) refl

  require_back :
      (n : BtcNetwork) (a : deps.Address) → IsOn deps n (some a) → require_network deps a n ≡ ok a
  unfolding require_network
  require_back n a h = rw h refl

  checked_back :
      (n : BtcNetwork) (o : Option deps.Address) → IsOn deps n o → checked deps o n ≡ ok o
  unfolding checked
  checked_back n none h = refl
  checked_back n (some a) h = rw (require_back n a h) refl

  module _ (show_id : ℕ → String) where
    find-put_indexes :
        (is : List ℕ) (m : Map) (k : String)
        → str_eq "scriptPathInputs" k ≡ false
        → find (put_indexes json deps show_id "scriptPathInputs" is m) k ≡ find m k
    unfolding put_indexes
    find-put_indexes [] m k h = refl
    find-put_indexes (i ∷ is) m k h = rw (find-insert, h) refl

    module _ (env : Var) (fresh : Uuid) (m : RequestMeta) where
      connect_back :
          (n : BtcNetwork) (a : Option deps.Address)
          → IsOn deps n a
          → from_json json deps env fresh (to_value json deps show_id (connect m n a))
            ≡ ok (connect (record { id = fresh }) n a)
      unfolding from_json to_value str_field opt_parsed new_connect
      connect_back n a h = simp (
        wire,
        get-object,
        find-insert,
        find-empty,
        read_opt-map json (shown (address_from_str deps)) show_address address_text_back,
        read_opt-map json (shown network_from_str) network_id network_back "network" (some n),
        checked_back n a h,
      )

      send_transfer_back :
          (n : BtcNetwork) (t : deps.Address) (f : Option deps.Address) (a : ℕ) (r : Option ℕ)
          → IsAcceptable deps (send_transfer m n t f a r)
          → from_json json deps env fresh (to_value json deps show_id (send_transfer m n t f a r))
            ≡ ok (send_transfer (record { id = fresh }) n t f a r)
      unfolding from_json to_value str_field opt_parsed req_parsed new_send_transfer
      send_transfer_back n t f a r (to_on, from_on, small, fee) = simp (
        wire,
        get-object,
        find-insert,
        find-empty,
        read_opt-map json (shown (address_from_str deps)) show_address address_text_back,
        read_opt-map json (shown network_from_str) network_id network_back "network" (some n),
        read_req-string json (shown (address_from_str deps)) show_address address_text_back,
        read_sats a small,
        fee_field_back r fee,
        require_back n t to_on,
        checked_back n f from_on,
      )

      sign_psbt_back :
          (p : PsbtFields deps)
          → IsSignable deps p
          → from_json json deps env fresh (to_value json deps show_id (sign_psbt m p))
            ≡ ok (sign_psbt (record { id = fresh }) p)
      unfolding from_json to_value str_field opt_parsed req_parsed new_sign_psbt sign_inputs_field
          bool_field spends_script_path
      sign_psbt_back p good = simp (
        wire,
        get-object,
        find-insert,
        find-empty,
        find-put_indexes,
        read_opt-map json (shown (address_from_str deps)) show_address address_text_back,
        read_opt-map json (shown network_from_str) network_id network_back "network"
            (some p.network),
        read_req-string json (shown (psbt_from_str deps)) serialize_hex psbt_back,
        indexes_back p.sign_inputs good.indexes_fit,
        bool_back,
        bad_index-AreInputs deps p.psbt p.sign_inputs good.in_psbt,
        checked_back p.network p.from good.from_on,
        sym good.script_paths,
        good.finalized,
      )

      sign_message_back :
          (n : BtcNetwork) (t : String) (a : Option deps.Address) (p : MessageProtocol)
          → IsOn deps n a
          → from_json json deps env fresh (to_value json deps show_id (sign_message m n t a p))
            ≡ ok (sign_message (record { id = fresh }) n t a p)
      unfolding from_json to_value str_field opt_parsed new_sign_message
      sign_message_back n t a p h = simp (
        wire,
        get-object,
        find-insert,
        find-empty,
        read_opt-map json (shown (address_from_str deps)) show_address address_text_back,
        read_opt-map json (shown network_from_str) network_id network_back "network" (some n),
        read_opt-map json (shown protocol_from_str) protocol_id protocol_back "protocol" (some p),
        checked_back n a h,
      )

  abbrev pub renewed : Uuid → BtcRequest deps → BtcRequest deps
  renewed i (connect m n a) = connect (record { id = i }) n a
  renewed i (send_transfer m n t f a r) = send_transfer (record { id = i }) n t f a r
  renewed i (sign_psbt m p) = sign_psbt (record { id = i }) p
  renewed i (sign_message m n t a p) = sign_message (record { id = i }) n t a p

  -- The JSON of an acceptable Bitcoin request parses back to that request, under the new id, whatever the default network is.
  pub btc_round_trip :
      (show_id : ℕ → String) (env : Var) (fresh : Uuid) (r : BtcRequest deps)
      → IsAcceptable deps r
      → from_json json deps env fresh (to_value json deps show_id r) ≡ ok (renewed fresh r)
  btc_round_trip show_id env fresh (connect m n a) h = connect_back show_id env fresh m n a h
  btc_round_trip show_id env fresh (send_transfer m n t f a r) h =
      send_transfer_back show_id env fresh m n t f a r h
  btc_round_trip show_id env fresh (sign_psbt m p) h = sign_psbt_back show_id env fresh m p h
  btc_round_trip show_id env fresh (sign_message m n t a p) h =
      sign_message_back show_id env fresh m n t a p h
