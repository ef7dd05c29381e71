-- ===== src/Prelude/Decimal.antt =====
-- The standard library's `Display` and `FromStr` of unsigned integers, which the domain types use.
pub mod RoundTrip
use Prim.Native.Nat.{ℕ, zero, suc, ◌+◌, ◌-◌, ◌*◌, ◌/◌, ◌%◌}
use Prim.Native.Char.{Char, code}
use Prim.Native.String.{String, ◌++◌}
use mathlib.Core.Bool.{◌&&◌}
use mathlib.Core.Option.{Option, none, some}
use browser_web3_signer.Prelude.Tests.{◌==◌, leb, ltb, if◌then◌else◌}
use browser_web3_signer.Prelude.Results.{Result, ok, err}

unfoldable pub digit : ℕ → Char
digit zero = "0"
digit (suc zero) = "1"
digit (suc (suc zero)) = "2"
digit (suc (suc (suc zero))) = "3"
digit (suc (suc (suc (suc zero)))) = "4"
digit (suc (suc (suc (suc (suc zero))))) = "5"
digit (suc (suc (suc (suc (suc (suc zero)))))) = "6"
digit (suc (suc (suc (suc (suc (suc (suc zero))))))) = "7"
digit (suc (suc (suc (suc (suc (suc (suc (suc zero)))))))) = "8"
digit _ = "9"

-- The digits of `n` before `rest`, the least significant put first; `n` divisions by ten suffice.
unfoldable pub decimal_loop : ℕ → ℕ → String → String
unfolding digit
decimal_loop zero n rest = String.◌∷◌ (digit n) rest
decimal_loop (suc f) n rest =
    let more = decimal_loop f (n / 10) (String.◌∷◌ (digit (n % 10)) rest) in
    if ltb n 10 then String.◌∷◌ (digit n) rest else more

-- `Display`.
unfoldable pub decimal : ℕ → String
unfolding decimal_loop
decimal n = decimal_loop n n String.[]

-- `char::to_digit(10)`.
unfoldable pub to_digit : Char → Option ℕ
to_digit c = if leb 48 (code c) && leb (code c) 57 then some (code c - 48) else none

abbrev pub invalid_digit : String
invalid_digit = "invalid digit found in string"

abbrev pub too_large : String
too_large = "number too large to fit in target type"

-- The next accumulator, in the order of the checks in `from_str_radix`.
unfoldable pub push_digit : ℕ → ℕ → Option ℕ → Result ℕ String
push_digit bound acc none = err invalid_digit
push_digit bound acc (some d) =
    if ltb (acc * 10 + d) bound then ok (acc * 10 + d) else err too_large

unfoldable pub parse_loop : ℕ → ℕ → String → Result ℕ String
unfolding push_digit to_digit
parse_loop bound acc String.[] = ok acc
parse_loop bound acc (String.◌∷◌ c s) = elim (push_digit bound acc (to_digit c)) [
  | ok next ↦ parse_loop bound next s
  | err e ↦ err e
]

unfoldable pub parse_unsigned : ℕ → String → Result ℕ String
unfolding parse_loop
parse_unsigned bound String.[] = err "cannot parse integer from empty string"
parse_unsigned bound (String.◌∷◌ c String.[]) = parse_loop bound 0 (String.◌∷◌ c String.[])
parse_unsigned bound (String.◌∷◌ c (String.◌∷◌ d s)) =
    if code c == b'+'
    then parse_loop bound 0 (String.◌∷◌ d s)
    else parse_loop bound 0 (String.◌∷◌ c (String.◌∷◌ d s))
