-- ===== src/Core/Parse.antt =====
-- core/src/parse.rs: the error of a domain type's parser, and the readers of a request's fields.
-- A parser `T::from_str` is an argument, its error given as the text that `Display` shows.
pub mod Fields
use Prim.Native.String.{◌++◌}
use browser_web3_signer.Prelude.{
  String, Option, none, some, Result, ok, err, ◌>>=◌, map_err, ok_or, transpose, and_then,
}
use browser_web3_signer.Core.Json.{Serde}
use mathlib.Core.Option

pub record DomainParseError : Type 0 where
  pub kind : String
  pub input : String
  pub source : String

abbrev pub parse_error : String → String → String → DomainParseError
parse_error k i s = record { kind = k; input = i; source = s }

-- `Display` of `DomainParseError`.
unfoldable pub display : DomainParseError → String
display e = "invalid " ++ (e.kind ++ (" '" ++ (e.input ++ ("': " ++ e.source))))

module _ (json : Serde) where
  open json use {Value, get, as_str}

  -- Each reader on the field's value, so that the laws can be stated of it.
  unfoldable pub read_str : String → Option Value → Result String String
  read_str key v = ok_or (and_then v as_str) ("missing or non-string field '" ++ (key ++ "'"))

  abbrev invalid_field : String → String → String
  invalid_field key e = "invalid '" ++ (key ++ ("': " ++ e))

  unfoldable pub read_req :
      {A : Type 0} → (String → Result A String) → String → Option Value → Result A String
  unfolding read_str
  read_req from_str key v = do s ← read_str key v; map_err (invalid_field key) (from_str s)

  unfoldable pub read_opt :
      {A : Type 0} → (String → Result A String) → String → Option Value → Result (Option A) String
  read_opt from_str key v =
      transpose (Option.map (λ s. map_err (invalid_field key) (from_str s)) (and_then v as_str))

  unfoldable pub str_field : Value → String → Result String String
  str_field body key = read_str key (get body key)

  unfoldable pub req_parsed :
      {A : Type 0} → (String → Result A String) → Value → String → Result A String
  req_parsed from_str body key = read_req from_str key (get body key)

  unfoldable pub opt_parsed :
      {A : Type 0} → (String → Result A String) → Value → String → Result (Option A) String
  opt_parsed from_str body key = read_opt from_str key (get body key)
