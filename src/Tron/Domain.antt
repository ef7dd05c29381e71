-- ===== src/Tron/Domain.antt =====
-- tron/src/domain.rs: networks, addresses, amounts, energy limits and percentages. The `bs58` crate is
-- not in the repository, so its Base58Check is a parameter.
use browser_web3_signer.Prelude.{
  ℕ, ◌≡◌, ◌^◌, ◌↔◌, refl, ap, String, Bool, true, false, List, [], ◌∷◌, Result, ok, err, ◌>>=◌,
  map_err, ◌==◌, ==_iff, ◌&&◌, leb, if◌then◌else◌, length,
}
use browser_web3_signer.Prelude.Decimal.{decimal, parse_unsigned}
use browser_web3_signer.Prelude.Text.{equals_lowercase}
use browser_web3_signer.Core.Parse.{DomainParseError, parse_error, display}

pub record Base58 : Type 0 where
  pub decode_check : String → Result (List ℕ) String
  pub encode_check : List ℕ → String
  pub decode-encode_check : (b : List ℕ) → decode_check (encode_check b) ≡ ok b

pub data TronNetwork : Type 0 where
  mainnet : TronNetwork
  shasta : TronNetwork
  nile : TronNetwork

unfoldable pub network_id : TronNetwork → String
network_id mainnet = "mainnet"
network_id shasta = "shasta"
network_id nile = "nile"

unfoldable pub network_from_str : String → Result TronNetwork DomainParseError
network_from_str s =
    if equals_lowercase s "mainnet"
    then ok mainnet
    else if equals_lowercase s "shasta"
    then ok shasta
    else if equals_lowercase s "nile"
    then ok nile
    else err (parse_error "tron network" s "expected mainnet|shasta|nile")

pub record TronAddress : Type 0 where
  pub bytes : List ℕ

-- `bytes[0] == 0x41`.
unfoldable pub starts_0x41 : List ℕ → Bool
starts_0x41 [] = false
starts_0x41 (b ∷ bs) = b == 65

-- The checks of the decoded payload.
unfoldable pub address_of : String → List ℕ → Result TronAddress DomainParseError
unfolding starts_0x41
address_of s b =
    if length b == 21
    then if starts_0x41 b
      then ok (record { bytes = b })
      else err (parse_error "tron address" s "expected 0x41 prefix")
    else err
        (parse_error "tron address" s "expected 21-byte payload: could not convert slice to array")

module _ (base58 : Base58) where
  open base58 use {decode_check, encode_check, decode-encode_check}

  unfoldable pub address_from_str : String → Result TronAddress DomainParseError
  unfolding address_of
  address_from_str s = do
    b ← map_err (parse_error "tron address" s) (decode_check s)
    address_of s b

  unfoldable pub to_base58 : TronAddress → String
  to_base58 a = encode_check a.bytes

abbrev pub Sun : Type 0
Sun = ℕ

unfoldable pub sun_from_str : String → Result Sun DomainParseError
sun_from_str s = map_err (parse_error "sun amount" s) (parse_unsigned (2 ^ 64) s)

abbrev pub EnergyLimit : Type 0
EnergyLimit = ℕ

unfoldable pub energy_limit_from_str : String → Result EnergyLimit DomainParseError
energy_limit_from_str s = map_err (parse_error "energy limit" s) (parse_unsigned (2 ^ 64) s)

pub record Percentage : Type 0 where
  pub get : ℕ

-- `Percentage::new`.
unfoldable pub new_percentage : ℕ → Result Percentage DomainParseError
new_percentage n =
    if leb n 100
    then ok (record { get = n })
    else err (parse_error "percentage" (decimal n) "must be 0-100")

unfoldable pub percentage_from_str : String → Result Percentage DomainParseError
unfolding new_percentage
percentage_from_str s = do
  n ← map_err (parse_error "percentage" s) (parse_unsigned (2 ^ 8) s)
  new_percentage n

-- The derived equality of addresses.
unfoldable pub same_bytes : List ℕ → List ℕ → Bool
same_bytes [] [] = true
same_bytes (a ∷ xs) (b ∷ ys) = (a == b) && same_bytes xs ys
same_bytes _ _ = false

abbrev pub same_address : TronAddress → TronAddress → Bool
same_address a b = same_bytes a.bytes b.bytes

&&_both : (a b : Bool) → ((a && b) ≡ true) ↔ ((a ≡ true) × (b ≡ true))
&&_both true true = (λ h. (refl, refl), λ h. refl)
&&_both true false = (λ h. cc, λ h. h.1)
&&_both false b = (λ h. cc, λ h. h.0)

pub same_bytes_iff : (a b : List ℕ) → (same_bytes a b ≡ true) ↔ (a ≡ b)
unfolding same_bytes
same_bytes_iff [] [] = (λ h. refl, λ h. refl)
same_bytes_iff [] (b ∷ ys) = (λ h. cc, λ h. cc)
same_bytes_iff (a ∷ xs) [] = (λ h. cc, λ h. cc)
same_bytes_iff (a ∷ xs) (b ∷ ys) = (
  λ h.
      let (e, es) = (&&_both (a == b) (same_bytes xs ys)).0 h in
      cc ((==_iff a b).0 e, (same_bytes_iff xs ys).0 es),
  λ h.
      (&&_both (a == b) (same_bytes xs ys)).1
        ((==_iff a b).1 (cc h), (same_bytes_iff xs ys).1 (cc h)),
)

pub same_address_iff : (a b : TronAddress) → (same_address a b ≡ true) ↔ (a ≡ b)
same_address_iff a b =
    let (there, back) = same_bytes_iff a.bytes b.bytes in
    (λ h. ap (λ x. record { bytes = x }) (there h), λ h. back (ap TronAddress.bytes h))

-- A parser with its error as text.
abbrev pub shown : {A : Type 0} → (String → Result A DomainParseError) → String → Result A String
shown parse s = map_err display (parse s)
