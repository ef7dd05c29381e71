-- ===== src/Examples/Json.antt =====
-- A model of `Serde`: JSON values as data.
use browser_web3_signer.Prelude.{
  ℕ, ◌≡◌, ◌<◌, ◌^◌, refl, ap, String, Bool, true, false, Result, ok, err, Option, none, some, List,
  [], ◌∷◌, str_eq, if◌then◌else◌, ltb, arith,
}
use browser_web3_signer.Core.Json.{Serde}

mutual
  pub data Json : Type 0 where
    null : Json
    bool : Bool → Json
    number : ℕ → Json
    text : String → Json
    array : Items → Json
    object : Members → Json

  pub data Items : Type 0 where
    nil : Items
    cons : Json → Items → Items

  pub data Members : Type 0 where
    end : Members
    member : String → Json → Members → Members

abbrev pub items : List Json → Items
items [] = nil
items (v ∷ vs) = cons v (items vs)

abbrev pub list : Items → List Json
list nil = []
list (cons v vs) = v ∷ list vs

pub list-items : (vs : List Json) → list (items vs) ≡ vs
list-items [] = refl
list-items (v ∷ vs) = ap (λ ws. v ∷ ws) (list-items vs)

abbrev pub find : Members → String → Option Json
find end k = none
find (member j v m) k = if str_eq j k then some v else find m k

abbrev pub get : Json → String → Option Json
get (object m) k = find m k
get _ k = none

abbrev pub as_str : Json → Option String
as_str (text s) = some s
as_str _ = none

abbrev pub as_u64 : Json → Option ℕ
as_u64 (number n) = if ltb n (2 ^ 64) then some n else none
as_u64 _ = none

abbrev pub as_bool : Json → Option Bool
as_bool (bool b) = some b
as_bool _ = none

abbrev pub as_array : Json → Option (List Json)
as_array (array vs) = some (list vs)
as_array _ = none

abbrev pub is_object : Json → Bool
is_object (object m) = true
is_object _ = false

-- A parser of one text, which holds all that the wallets of the examples answer.
abbrev pub answer_text : String
answer_text = "{\"psbt\":\"00\",\"address\":\"main\",\"publicKey\":\"k\"}"

-- The answer to a deployment: a hash of 32 zeros and an address, in the codec of `Bytes`.
abbrev pub hash_text : String
hash_text = ";;;;;;;;;;;;;;;;;;;;;;;;;;;;;;;;"

abbrev pub owner_text : String
owner_text =
    "11111111111111111111111111111111111111111111111111111111111111111;;;;;;;;;;;;;;;;;;;;1111111;"

abbrev pub deploy_text : String
deploy_text =
    "{\"txHash\":\";;;;;;;;;;;;;;;;;;;;;;;;;;;;;;;;\",\"contractAddress\":\"11111111111111111111111111111111111111111111111111111111111111111;;;;;;;;;;;;;;;;;;;;1111111;\"}"

abbrev pub from_str : String → Result Json String
from_str s =
    if str_eq s answer_text
    then ok (
        object (
          member "psbt" (text "00")
            (member "address" (text "main") (member "publicKey" (text "k") end))))
    else if str_eq s deploy_text
    then ok
        (object (member "txHash" (text hash_text) (member "contractAddress" (text owner_text) end)))
    else err "expected value"

pub as_u64-number : (n : ℕ) → n < 2 ^ 64 → as_u64 (number n) ≡ some n
as_u64-number n h = ground arith

pub as_u64-lt : (v : Json) (n : ℕ) → as_u64 v ≡ some n → n < 2 ^ 64
as_u64-lt (number m) n h = ground arith
as_u64-lt null n h = cc
as_u64-lt _ n h = cc

abbrev pub serde : Serde
serde = record {
  Value = Json;
  Map = Members;
  null = null;
  bool = bool;
  u64 = number;
  string = text;
  array = λ vs. array (items vs);
  object = object;
  empty = end;
  insert = member;
  get = get;
  find = find;
  as_str = as_str;
  as_u64 = as_u64;
  as_bool = as_bool;
  as_array = as_array;
  is_object = is_object;
  to_string = λ v. "";
  from_str = from_str;
  get-object = λ m k. refl;
  find-empty = λ k. refl;
  find-insert = λ j k v m. refl;
  as_str-string = λ s. refl;
  as_str-u64 = λ n. refl;
  as_str-object = λ m. refl;
  as_u64-u64 = as_u64-number;
  as_u64-lt = as_u64-lt;
  as_bool-bool = λ b. refl;
  as_array-array = λ vs. ap some (list-items vs);
  is_object-object = λ m. refl;
  is_object-string = λ s. refl;
}
