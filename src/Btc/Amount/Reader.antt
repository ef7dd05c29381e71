-- ===== src/Btc/Amount/Reader.antt =====
-- A reader of decimal amounts in BTC, the reference for the text of an amount.
use browser_web3_signer.Prelude.{
  ℕ, zero, suc, ◌+◌, ◌*◌, ◌^◌, String, Option, none, some, ◌==◌, if◌then◌else◌,
}
use browser_web3_signer.Prelude.Decimal.{to_digit}
use browser_web3_signer.Btc.Amount.{sats_per_btc}
use Prim.Native.Char.{code}

-- A digit that counts `unit`, before the digits after it.
unfoldable pub add_digit : ℕ → Option ℕ → Option ℕ → Option ℕ
add_digit unit (some d) (some r) = some (d * unit + r)
add_digit unit _ _ = none

-- The digits after the point, of which the first counts a tenth of `10 ^ w`.
unfoldable pub fraction_of : ℕ → String → Option ℕ
unfolding add_digit
fraction_of w String.[] = some 0
fraction_of zero (String.◌∷◌ c s) = none
fraction_of (suc w) (String.◌∷◌ c s) = add_digit (10 ^ w) (to_digit c) (fraction_of w s)

unfoldable pub add_whole : ℕ → Option ℕ → Option ℕ
add_whole whole none = none
add_whole whole (some r) = some (whole * sats_per_btc + r)

-- The satoshis of a text after a whole part, which it continues.
unfoldable pub amount_from : ℕ → String → Option ℕ
unfolding add_whole fraction_of
amount_from whole String.[] = some (whole * sats_per_btc)
amount_from whole (String.◌∷◌ c s) = elim (to_digit c) [
  | some d ↦ amount_from (whole * 10 + d) s
  | none ↦ if code c == b'.' then add_whole whole (fraction_of 8 s) else none
]

-- The satoshis of a decimal text in BTC: a digit, more digits, and at most eight after a point.
unfoldable pub amount_of : String → Option ℕ
unfolding amount_from
amount_of String.[] = none
amount_of (String.◌∷◌ c s) = elim (to_digit c) [ some d ↦ amount_from d s | none ↦ none ]
