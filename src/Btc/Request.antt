-- ===== src/Btc/Request.antt =====
-- btc/src/types.rs: the requests, and their builders.
use Prim.Native.String.{◌++◌}
use mathlib.Core.Option
use browser_web3_signer.Prelude.{
  ℕ, String, Bool, Option, none, some, List, [], Result, ok, err, ◌>>=◌, ◌>>◌, transpose, length,
  leb, ◌||◌,
}
use browser_web3_signer.Prelude.Decimal.{decimal}
use browser_web3_signer.Prelude.Lists.{filter, find}
use browser_web3_signer.Core.Browser.{UrlKind}
use browser_web3_signer.Core.Types.{RequestMeta}
use browser_web3_signer.Core.Parse.{DomainParseError, parse_error}
use browser_web3_signer.Btc.Deps.{Deps}
use browser_web3_signer.Btc.Domain.{
  BtcNetwork, Sats, SatPerVb, MessageProtocol, UncheckedAddress, BtcAddress, require_network,
  PsbtData, spends_script_path,
}

module _ (deps : Deps) where
  pub record SendTransferParams : Type 0 where
    pub network : BtcNetwork
    pub to : UncheckedAddress deps
    pub from : Option (UncheckedAddress deps)
    pub amount : Sats
    pub fee_rate : Option SatPerVb

  pub record SignPsbtParams : Type 0 where
    pub network : BtcNetwork
    pub psbt : PsbtData deps
    pub from : Option (UncheckedAddress deps)
    pub sign_inputs : Option (List ℕ)
    pub finalize : Bool
    pub broadcast : Bool

  pub record SignMessageParams : Type 0 where
    pub network : BtcNetwork
    pub message : String
    pub address : Option (UncheckedAddress deps)
    pub protocol : MessageProtocol

  -- The fields of the variant `SignPsbt`.
  pub record PsbtFields : Type 0 where
    pub network : BtcNetwork
    pub psbt : PsbtData deps
    pub from : Option (BtcAddress deps)
    pub sign_inputs : Option (List ℕ)
    pub script_path_inputs : List ℕ
    pub finalize : Bool
    pub broadcast : Bool

  pub data BtcRequest : Type 0 where
    connect : RequestMeta → BtcNetwork → (address : Option (BtcAddress deps)) → BtcRequest
    send_transfer :
        RequestMeta
        → BtcNetwork
        → (to : BtcAddress deps) (from : Option (BtcAddress deps)) → (amount : Sats)
        → (fee_rate : Option SatPerVb) → BtcRequest
    sign_psbt : RequestMeta → PsbtFields → BtcRequest
    sign_message :
        RequestMeta
        → BtcNetwork
        → (message : String) → (address : Option (BtcAddress deps)) → MessageProtocol
        → BtcRequest

  abbrev pub meta : BtcRequest → RequestMeta
  meta (connect m _ _) = m
  meta (send_transfer m _ _ _ _ _) = m
  meta (sign_psbt m _) = m
  meta (sign_message m _ _ _ _) = m

  abbrev pub network : BtcRequest → BtcNetwork
  network (connect _ n _) = n
  network (send_transfer _ n _ _ _ _) = n
  network (sign_psbt _ p) = p.network
  network (sign_message _ n _ _ _) = n

  unfoldable pub url_kind : BtcRequest → UrlKind
  url_kind (connect _ _ _) = UrlKind.connect
  url_kind _ = UrlKind.sign

  unfoldable pub checked :
      Option (UncheckedAddress deps)
      → BtcNetwork
      → Result (Option (BtcAddress deps)) DomainParseError
  checked a n = transpose (Option.map (λ x. require_network deps x n) a)

  -- `Option<Vec<u32>>::iter().flatten()`.
  abbrev pub listed : Option (List ℕ) → List ℕ
  listed none = []
  listed (some is) = is

  unfoldable pub bad_index : PsbtData deps → Option (List ℕ) → Option ℕ
  bad_index psbt is = find (leb (length (deps.inputs psbt))) (listed is)

  abbrev pub index_error : PsbtData deps → ℕ → DomainParseError
  index_error psbt bad =
      parse_error "sign input index" (decimal bad)
        ("the PSBT has " ++ (decimal (length (deps.inputs psbt)) ++ " inputs"))

  abbrev pub in_range : PsbtData deps → Option ℕ → Result (Unit {0}) DomainParseError
  in_range psbt none = ok tt
  in_range psbt (some bad) = err (index_error psbt bad)

  -- The builders; `m` is the fresh metadata.
  module _ (m : RequestMeta) where
    unfoldable pub new_connect :
        BtcNetwork → Option (UncheckedAddress deps) → Result BtcRequest DomainParseError
    unfolding checked
    new_connect n address = do a ← checked address n; ok (connect m n a)

    unfoldable pub new_send_transfer : SendTransferParams → Result BtcRequest DomainParseError
    unfolding checked
    new_send_transfer p = do
      to ← require_network deps p.to p.network
      from ← checked p.from p.network
      ok (send_transfer m p.network to from p.amount p.fee_rate)

    unfoldable pub new_sign_psbt : SignPsbtParams → Result BtcRequest DomainParseError
    unfolding bad_index checked
    new_sign_psbt p = do
      in_range p.psbt (bad_index p.psbt p.sign_inputs)
      from ← checked p.from p.network
      ok (
          sign_psbt m (record {
            network = p.network;
            psbt = p.psbt;
            from = from;
            sign_inputs = p.sign_inputs;
            script_path_inputs = filter (spends_script_path deps p.psbt) (listed p.sign_inputs);
            finalize = p.finalize || p.broadcast;
            broadcast = p.broadcast;
          }))

    unfoldable pub new_sign_message : SignMessageParams → Result BtcRequest DomainParseError
    unfolding checked
    new_sign_message p = do
      address ← checked p.address p.network
      ok (sign_message m p.network p.message address p.protocol)
