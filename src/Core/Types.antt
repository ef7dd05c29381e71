-- ===== src/Core/Types.antt =====
-- core/src/types.rs: what a chain's request type provides, and the result that the browser posts.
pub mod Laws
use Prim.Native.String.{◌++◌}
use browser_web3_signer.Prelude.{
  ℕ, String, Bool, true, false, Option, none, some, Result, ok, err, if◌then◌else◌, unwrap_or,
}
use browser_web3_signer.Core.Json.{Serde}
use browser_web3_signer.Core.Browser.{UrlKind}

-- A `Uuid` by its 128-bit value.
abbrev pub Uuid : Type 0
Uuid = ℕ

-- trait `Request`; `from_json` takes the fresh id that `RequestMeta::new` draws.
pub record Request (json : Serde) (R : Type 0) : Type 0 where
  pub id : R → Uuid
  pub url_kind : R → UrlKind
  -- `Serialize`.
  pub to_value : R → Serde.Value json
  pub from_json : Uuid → Serde.Value json → Result R String
  pub check_result : R → String → Result (Unit {0}) String

-- trait `ExpectedAccount`, with the parser of its `Account` type.
pub record ExpectedAccount (json : Serde) (R Account : Type 0) : Type 0 where
  pub request : Request json R
  pub account_env : String
  pub parse_account : String → Result Account String
  pub expecting : R → Account → Result R String

-- The field after a successful call of `expect_account`; `same` and `show` are the account type's
-- `PartialEq` and `Display`.
unfoldable pub expect_account :
    {A : Type 0} → (A → A → Bool) → (A → String) → Option A → A → Result (Option A) String
expect_account same show none account = ok (some account)
expect_account same show (some named) account =
    if same named account
    then ok (some named)
    else err
        ("the request names account " ++ (show named ++ (", not the expected " ++ show account)))

pub record RequestMeta : Type 0 where
  pub id : Uuid

pub data RequestResult : Type 0 where
  success : (result : String) → RequestResult
  error : (error : String) (code : Option String) → RequestResult

pub record CompleteApiRequest : Type 0 where
  pub success : Bool
  pub result : Option String
  pub error : Option String
  pub code : Option String

-- `impl From<CompleteApiRequest> for RequestResult`.
unfoldable pub from_body : CompleteApiRequest → RequestResult
from_body body =
    if body.success
    then success (unwrap_or body.result "")
    else error (unwrap_or body.error "Unknown error") body.code

module _ (json : Serde) where
  open json use {Value, string, bool, object, empty, insert, get, as_str, as_bool}

  -- An optional field of a struct, left out where it is `None`.
  unfoldable pub put_opt :
      {A : Type 0} → (A → Value) → String → Option A → Serde.Map json → Serde.Map json
  put_opt to_value key none m = m
  put_opt to_value key (some a) m = insert key (to_value a) m

  -- `Serialize` of `RequestResult`.
  unfoldable pub result_to_value : RequestResult → Value
  unfolding put_opt
  result_to_value (success r) =
      object (insert "result" (string r) (insert "success" (bool true) empty))
  result_to_value (error e c) =
      object
        (put_opt string "code" c (insert "error" (string e) (insert "success" (bool false) empty)))
