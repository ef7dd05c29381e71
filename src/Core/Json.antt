-- ===== src/Core/Json.antt =====
-- The parts of `serde_json` that the crates call. It is not in the repository, so it is a parameter:
-- the type of values, its readers and builders, and its documented laws. `Map` is `serde_json::Map`.
use browser_web3_signer.Prelude.{
  ℕ, ◌<◌, ◌^◌, ◌≡◌, String, Bool, true, false, Option, none, some, List, Result, str_eq,
  if◌then◌else◌,
}

pub record Serde : Type 1 where
  pub Value : Type 0
  pub Map : Type 0
  pub null : Value
  pub bool : Bool → Value
  pub u64 : ℕ → Value
  pub string : String → Value
  pub array : List Value → Value
  pub object : Map → Value
  pub empty : Map
  pub insert : String → Value → Map → Map
  -- `Value::get` with a string key, which is `None` on everything but an object that has the key.
  pub get : Value → String → Option Value
  pub find : Map → String → Option Value
  pub as_str : Value → Option String
  pub as_u64 : Value → Option ℕ
  pub as_bool : Value → Option Bool
  pub as_array : Value → Option (List Value)
  pub is_object : Value → Bool
  -- `Display` of a value, and `serde_json::from_str` with its error's text.
  pub to_string : Value → String
  pub from_str : String → Result Value String
  pub get-object : (m : Map) (k : String) → get (object m) k ≡ find m k
  pub find-empty : (k : String) → find empty k ≡ none
  pub find-insert :
      (j k : String) (v : Value) (m : Map)
      → find (insert j v m) k ≡ (if str_eq j k then some v else find m k)
  pub as_str-string : (s : String) → as_str (string s) ≡ some s
  pub as_str-u64 : (n : ℕ) → as_str (u64 n) ≡ none
  pub as_str-object : (m : Map) → as_str (object m) ≡ none
  pub as_u64-u64 : (n : ℕ) → n < 2 ^ 64 → as_u64 (u64 n) ≡ some n
  pub as_u64-lt : (v : Value) (n : ℕ) → as_u64 v ≡ some n → n < 2 ^ 64
  pub as_bool-bool : (b : Bool) → as_bool (bool b) ≡ some b
  pub as_array-array : (vs : List Value) → as_array (array vs) ≡ some vs
  pub is_object-object : (m : Map) → is_object (object m) ≡ true
  pub is_object-string : (s : String) → is_object (string s) ≡ false
