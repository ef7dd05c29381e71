-- ===== src/Btc/Amount.antt =====
-- btc/src/domain.rs: the text of an amount in BTC, and what such a text stands for.
pub mod Reader
pub mod Trim
pub mod Fraction
pub mod Exact
pub mod Short
use browser_web3_signer.Prelude.{
  ℕ, zero, suc, ◌+◌, ◌*◌, ◌/◌, ◌%◌, ◌^◌, String, Bool, Option, none, some, ◌==◌, if◌then◌else◌,
}
use browser_web3_signer.Prelude.Decimal.{digit, decimal_loop, to_digit}
use Prim.Native.Char.{code}

-- `{:0w}` before `rest`: at least `w` digits.
unfoldable pub zero_padded : ℕ → ℕ → String → String
unfolding decimal_loop digit
zero_padded zero n rest = if n == 0 then rest else decimal_loop n n rest
zero_padded (suc w) n rest = zero_padded w (n / 10) (String.◌∷◌ (digit (n % 10)) rest)

-- What stays of a character before a text that is trimmed already.
unfoldable pub keep_before : Bool → String → String → String
keep_before matches full String.[] = if matches then String.[] else full
keep_before matches full (String.◌∷◌ d t) = full

-- `str::trim_end_matches` of one character, given by its code.
unfoldable pub trim_end_matches : ℕ → String → String
unfolding keep_before
trim_end_matches k String.[] = String.[]
trim_end_matches k (String.◌∷◌ c s) =
    let rest = trim_end_matches k s in keep_before (code c == k) (String.◌∷◌ c rest) rest

abbrev pub sats_per_btc : ℕ
sats_per_btc = 100000000

unfoldable pub to_btc_string : ℕ → String
unfolding decimal_loop zero_padded trim_end_matches
to_btc_string n =
    let whole = n / sats_per_btc in
    let fraction = zero_padded 8 (n % sats_per_btc) String.[] in
    trim_end_matches b'.'
      (trim_end_matches b'0' (decimal_loop whole whole (String.◌∷◌ "." fraction)))
