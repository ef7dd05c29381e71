-- ===== src/Core/Config.antt =====
-- core/src/config.rs: ports, and the configuration that is read from the environment.
pub mod Laws
use Prim.Native.String.{◌++◌}
use browser_web3_signer.Prelude.{
  ℕ, zero, suc, ◌^◌, String, Option, none, some, Result, ok, err, ◌>>=◌, map_err, map_ok, ok_or,
  to_option, unwrap_or, and_then, str_eq, if◌then◌else◌,
}
use browser_web3_signer.Prelude.Decimal.{parse_unsigned}

-- `NonZeroU16` by its value.
pub record Port : Type 0 where
  pub get : ℕ

pub data BindPort : Type 0 where
  preferred : Port → BindPort
  ephemeral : BindPort

unfoldable pub try_new : ℕ → Option Port
try_new zero = none
try_new (suc n) = some (record { get = suc n })

abbrev pub default_port : Port
default_port = record { get = 3847 }

-- What `std::env::var` returns.
pub data Var : Type 0 where
  value : String → Var
  not_present : Var
  not_unicode : String → Var

-- `env::var(name).ok()`.
abbrev pub var_ok : Var → Option String
var_ok (value v) = some v
var_ok _ = none

-- An account variable's value; `show_not_unicode` is `Display` of `VarError::NotUnicode`.
unfoldable pub parse_account :
    {A : Type 0} → (String → Result A String) → String → Result (Option A) String
parse_account from_str v = if str_eq v "" then ok none else map_ok some (from_str v)

unfoldable pub account_from_env :
    {A : Type 0}
    → (String → Result A String)
    → (String → String)
    → String
    → Var
    → Result (Option A) String
unfolding parse_account
account_from_env from_str show_not_unicode name (value v) =
    map_err (λ e. "invalid " ++ (name ++ (": " ++ e))) (parse_account from_str v)
account_from_env from_str show_not_unicode name not_present = ok none
account_from_env from_str show_not_unicode name (not_unicode v) =
    err ("invalid " ++ (name ++ (": " ++ show_not_unicode v)))

-- `debug` is the `{:?}` of a text.
module _ (debug : String → String) where
  unfoldable pub port_from_str : String → Result Port String
  unfolding try_new
  port_from_str s = do
    n ← map_err (λ e. "invalid port " ++ (debug s ++ (": " ++ e))) (parse_unsigned (2 ^ 16) s)
    ok_or (try_new n) "port must be non-zero"

  unfoldable pub port_from_env : Var → Port → Port
  unfolding port_from_str
  port_from_env var fallback =
      unwrap_or (and_then (var_ok var) (λ v. to_option (port_from_str v))) fallback
