-- ===== src/Core/Config/Laws.antt =====
-- core/src/config.rs: the ports that are read.
use browser_web3_signer.Prelude.{
  ℕ, zero, suc, ◌≡◌, ◌<◌, ◌^◌, refl, String, Option, none, some, Result, ok, err, >>=-ok, map_err,
  map_err-ok, ok_or, to_option, and_then, unwrap_or, arith,
}
use browser_web3_signer.Prelude.Decimal.{decimal, parse_unsigned}
use browser_web3_signer.Prelude.Decimal.RoundTrip.{parse_unsigned-decimal, parse_unsigned-lt}
use browser_web3_signer.Core.Config.{Port, Var, var_ok, try_new, port_from_str, port_from_env}

-- A port that a socket can have: not zero, and of 16 bits.
pub record IsPort (p : Port) : Type 0 where
  pub positive : 0 < p.get
  pub fits : p.get < 2 ^ 16

try_new-IsPort : (n : ℕ) (p : Port) → n < 2 ^ 16 → try_new n ≡ some p → IsPort p
unfolding try_new
try_new-IsPort zero p h k = cc
try_new-IsPort (suc n) p h k = record { positive = ground arith; fits = ground arith }

try_new-positive : (n : ℕ) → 0 < n → try_new n ≡ some (record { get = n })
unfolding try_new
try_new-positive zero h = absurd (omega arith)
try_new-positive (suc n) h = refl

module _ (debug : String → String) where
  port_from_str-IsPort : (s : String) (p : Port) → port_from_str debug s ≡ ok p → IsPort p
  unfolding port_from_str
  port_from_str-IsPort s p h =
      let (n, read, h1) = >>=-ok (map_err _ (parse_unsigned (2 ^ 16) s)) _ h in
      try_new-IsPort n p
        (parse_unsigned-lt (2 ^ 16) s (omega arith) (map_err-ok _ (parse_unsigned (2 ^ 16) s) read))
        (of (try_new n) _ h1)
    where
      of : (o : Option Port) (reason : String) → ok_or o reason ≡ ok p → o ≡ some p
      of none reason k = cc
      of (some q) reason k = ground arith

  -- A port that is written in decimal reads back.
  pub port_from_str-decimal : (p : Port) → IsPort p → port_from_str debug (decimal p.get) ≡ ok p
  unfolding port_from_str
  port_from_str-decimal p h =
      rw (parse_unsigned-decimal (2 ^ 16) p.get h.fits, try_new-positive p.get h.positive) refl

  -- Whatever the environment holds, the port that is read from it is one that a socket can have, if the default is.
  pub port_from_env-IsPort :
      (var : Var) (fallback : Port) → IsPort fallback → IsPort (port_from_env debug var fallback)
  unfolding port_from_env
  port_from_env-IsPort var fallback h = of_var (var_ok var)
    where
      of_read :
          (r : Result Port String)
          → ((p : Port) → r ≡ ok p → IsPort p)
          → IsPort (unwrap_or (to_option r) fallback)
      of_read (ok p) k = k p refl
      of_read (err e) k = h

      of_var :
          (o : Option String)
          → IsPort (unwrap_or (and_then o (λ v. to_option (port_from_str debug v))) fallback)
      of_var none = h
      of_var (some v) = of_read (port_from_str debug v) (port_from_str-IsPort v)
