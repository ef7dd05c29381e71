-- ===== src/Btc/Wire/Acceptable.antt =====
-- btc/src/types.rs: the rules that a request keeps, and its builders.
use browser_web3_signer.Prelude.{
  ℕ, ◌≡◌, ◌<◌, ◌^◌, refl, sym, subst, Bool, true, false, Option, none, some, List, ok, >>=-ok,
  ok-injective, ok≢err, arith, is_some_and, length, leb, Bool-cases, ◌↔◌, [], ◌∷◌, ◌||◌,
  Result-cases, inl, inr,
}
use browser_web3_signer.Prelude.Lists.{filter, find, get_elem?, All}
use browser_web3_signer.Core.Types.{RequestMeta}
use browser_web3_signer.Btc.Deps.{Deps}
use browser_web3_signer.Btc.Domain.{
  PsbtData, BtcNetwork, require_network, to_bitcoin, spends_script_path,
}
use browser_web3_signer.Btc.Request.{
  BtcRequest, connect, send_transfer, sign_psbt, sign_message, meta, checked, bad_index, listed,
  in_range, new_connect, new_send_transfer, new_sign_psbt, new_sign_message, SendTransferParams,
  SignPsbtParams, SignMessageParams, PsbtFields,
}

-- No number of a list is at least `n` exactly when all are below it.
find_large : (n : ℕ) (is : List ℕ) → (find (leb n) is ≡ none) ↔ All (λ i. i < n) is
unfolding find
find_large n [] = (λ h. tt, λ h. refl)
find_large n (i ∷ is) = elim (Bool-cases (leb n i)) [
  | inl large ↦ (λ h. absurd (ground (arith, large, h)), λ h. absurd (ground (arith, large, h.0)))
  | inr small ↦ (
    λ h. (ground (arith, small), (find_large n is).0 (rw small at h)),
    λ h. rw small ((find_large n is).1 h.1),
  )
]

module _ (deps : Deps) where
  -- An address that is there is one of the network.
  abbrev pub IsOn : BtcNetwork → Option deps.Address → Type 0
  IsOn n none = Unit
  IsOn n (some a) = deps.is_valid_for_network a (to_bitcoin deps n) ≡ true

  abbrev pub IsFee : Option ℕ → Type 0
  IsFee none = Unit
  IsFee (some r) = (0 < r) × (r < 2 ^ 64)

  abbrev pub AreU32 : Option (List ℕ) → Type 0
  AreU32 none = Unit
  AreU32 (some is) = All (λ i. i < 2 ^ 32) is

  -- Every index is one of an input that the PSBT has.
  abbrev pub AreInputs : PsbtData deps → Option (List ℕ) → Type 0
  AreInputs psbt none = Unit
  AreInputs psbt (some is) = All (λ i. i < length (deps.inputs psbt)) is

  -- The input is there and spends a Taproot leaf.
  abbrev pub spends_leaf : PsbtData deps → ℕ → Bool
  spends_leaf psbt i = is_some_and (get_elem? (deps.inputs psbt) i) deps.has_tap_scripts

  -- The inputs to sign are inputs of the PSBT, the script-path ones are those of them that spend a
  -- leaf, and a broadcast is of a finalized transaction.
  pub record IsSignable (p : PsbtFields deps) : Type 0 where
    pub from_on : IsOn p.network p.from
    pub indexes_fit : AreU32 p.sign_inputs
    pub in_psbt : AreInputs p.psbt p.sign_inputs
    pub script_paths :
        p.script_path_inputs ≡ filter (spends_leaf p.psbt) (listed deps p.sign_inputs)
    pub finalized : (p.finalize || p.broadcast) ≡ p.finalize

  abbrev pub IsAcceptable : BtcRequest deps → Type 0
  IsAcceptable (connect m n a) = IsOn n a
  IsAcceptable (send_transfer m n t f a r) = IsOn n (some t) × IsOn n f × (a < 2 ^ 64) × IsFee r
  IsAcceptable (sign_psbt m p) = IsSignable p
  IsAcceptable (sign_message m n t a p) = IsOn n a

  pub require_network-IsOn :
      (a b : deps.Address) (n : BtcNetwork)
      → require_network deps a n ≡ ok b
      → (a ≡ b) × IsOn n (some b)
  unfolding require_network
  require_network-IsOn a b n h = ground arith

  checked-IsOn : (a b : Option deps.Address) (n : BtcNetwork) → checked deps a n ≡ ok b → IsOn n b
  unfolding checked
  checked-IsOn none none n h = tt
  checked-IsOn none (some b) n h = cc
  checked-IsOn (some a) none n h = ground (arith, Result-cases (require_network deps a n))
  checked-IsOn (some a) (some b) n h = elim (Result-cases (require_network deps a n)) [
    | inl (c, e) ↦ ground (arith, require_network-IsOn a b n)
    | inr (x, e) ↦ absurd (ok≢err (sym (rw e at h)))
  ]

  AreInputs-none :
      (psbt : PsbtData deps) (is : Option (List ℕ))
      → bad_index deps psbt is ≡ none
      → AreInputs psbt is
  unfolding bad_index
  AreInputs-none psbt none h = tt
  AreInputs-none psbt (some is) h = (find_large _ is).0 h

  pub bad_index-AreInputs :
      (psbt : PsbtData deps) (is : Option (List ℕ))
      → AreInputs psbt is
      → bad_index deps psbt is ≡ none
  unfolding bad_index find
  bad_index-AreInputs psbt none h = refl
  bad_index-AreInputs psbt (some is) h = (find_large _ is).1 h

  -- What an arm of `from_json` gives.
  abbrev pub IsBuilt : RequestMeta → BtcRequest deps → Type 0
  IsBuilt m r = (meta deps r ≡ m) × IsAcceptable r

  module _ (m : RequestMeta) (r : BtcRequest deps) where
    pub new_connect-IsBuilt :
        (n : BtcNetwork) (a : Option deps.Address) → new_connect deps m n a ≡ ok r → IsBuilt m r
    unfolding new_connect
    new_connect-IsBuilt n a h =
        let (b, on, h1) = >>=-ok (checked deps a n) _ h in
        subst (IsBuilt m) (ok-injective h1) (refl, checked-IsOn a b n on)

    pub new_send_transfer-IsBuilt :
        (p : SendTransferParams deps)
        → p.amount < 2 ^ 64
        → IsFee p.fee_rate
        → new_send_transfer deps m p ≡ ok r
        → IsBuilt m r
    unfolding new_send_transfer
    new_send_transfer-IsBuilt p small fee h =
        let (t, to_on, h1) = >>=-ok (require_network deps p.to p.network) _ h in
        let (f, from_on, h2) = >>=-ok (checked deps p.from p.network) _ h1 in
        subst (IsBuilt m) (ok-injective h2) (
          refl,
          (
            (require_network-IsOn p.to t p.network to_on).1,
            checked-IsOn p.from f p.network from_on,
            small,
            fee,
          ),
        )

    pub new_sign_message-IsBuilt :
        (p : SignMessageParams deps) → new_sign_message deps m p ≡ ok r → IsBuilt m r
    unfolding new_sign_message
    new_sign_message-IsBuilt p h =
        let (b, on, h1) = >>=-ok (checked deps p.address p.network) _ h in
        subst (IsBuilt m) (ok-injective h1) (refl, checked-IsOn p.address b p.network on)

    in_range-none : (p : deps.Psbt) (o : Option ℕ) → in_range deps p o ≡ ok tt → o ≡ none
    in_range-none p none h = refl
    in_range-none p (some bad) h = cc

    finalized_once : (z b : Bool) → ((z || b) || b) ≡ (z || b)
    finalized_once true b = refl
    finalized_once false true = refl
    finalized_once false false = refl

    pub new_sign_psbt-IsBuilt :
        (p : SignPsbtParams deps)
        → AreU32 p.sign_inputs
        → new_sign_psbt deps m p ≡ ok r
        → IsBuilt m r
    unfolding new_sign_psbt spends_script_path
    new_sign_psbt-IsBuilt p fit h =
        let (u, ranged, h1) =
          >>=-ok (in_range deps p.psbt (bad_index deps p.psbt p.sign_inputs)) _ h in
        let (f, on, h2) = >>=-ok (checked deps p.from p.network) _ h1 in
        subst (IsBuilt m) (ok-injective h2) (
          refl,
          record {
            from_on = checked-IsOn p.from f p.network on;
            indexes_fit = fit;
            in_psbt = AreInputs-none p.psbt p.sign_inputs (in_range-none p.psbt _ ranged);
            script_paths = refl;
            finalized = finalized_once p.finalize p.broadcast;
          },
        )
