-- ===== src/Btc/Amount/Exact.antt =====
-- btc/src/domain.rs: the text of an amount, against a reader of decimal amounts.
use browser_web3_signer.Prelude.{
  ℕ, zero, suc, ◌+◌, ◌*◌, ◌/◌, ◌%◌, ◌≤◌, ◌<◌, ◌≡◌, refl, sym, ap, ◌∙◌, inl, inr, String, Bool-cases,
  ltb, some, arith,
}
use browser_web3_signer.Prelude.Decimal.{digit, decimal_loop, to_digit}
use browser_web3_signer.Prelude.Decimal.RoundTrip.{digit_back, first_digit}
use browser_web3_signer.Btc.Amount.{
  zero_padded, keep_before, trim_end_matches, sats_per_btc, to_btc_string,
}
use browser_web3_signer.Btc.Amount.Reader.{fraction_of, add_whole, amount_from, amount_of}
use browser_web3_signer.Btc.Amount.Trim.{
  keep_other, keep_more, keep_digit, trim_point-decimal, trim_zeros-decimal,
}
use browser_web3_signer.Btc.Amount.Fraction.{
  fraction-trim_zeros, fraction-digits, fraction-trim_point, fraction-empty,
}

amount-digit :
    (whole d : ℕ) (s : String)
    → d < 10
    → amount_from whole (String.◌∷◌ (digit d) s) ≡ amount_from (whole * 10 + d) s
unfolding amount_from
amount-digit whole d s h = rw (amount_from, digit_back d h) refl

amount-decimal :
    (f n : ℕ) (rest : String) → n ≤ f → amount_from 0 (decimal_loop f n rest) ≡ amount_from n rest
unfolding decimal_loop
amount-decimal zero n rest h =
    amount-digit 0 n rest (omega arith) ∙ ap (λ x. amount_from x rest) (omega arith)
amount-decimal (suc f) n rest h = elim (Bool-cases (ltb n 10)) [
  | inl small ↦
      rw small (amount-digit 0 n rest (ground arith) ∙ ap (λ x. amount_from x rest) (omega arith))
  | inr large ↦ rw large (
      amount-decimal f (n / 10) (String.◌∷◌ (digit (n % 10)) rest) (ground arith)
      ∙ amount-digit (n / 10) (n % 10) rest (omega arith)
      ∙ ap (λ x. amount_from x rest) (omega arith))
]

-- A whole part, and a fraction whose point goes if nothing is after it.
amount-point :
    (whole v : ℕ) (s : String)
    → fraction_of 8 s ≡ some v
    → amount_from whole (trim_end_matches b'.' (String.◌∷◌ "." s)) ≡ some (whole * sats_per_btc + v)
unfolding trim_end_matches keep_before amount_from add_whole fraction_of to_digit
amount-point whole v String.[] h = ground arith
amount-point whole v (String.◌∷◌ c s) h =
    ap (amount_from whole)
      (keep_more b'.' "." c (String.◌∷◌ c s) s (fraction-trim_point 8 v (String.◌∷◌ c s) h))
    ∙ ap (add_whole whole) h

amount_of-digit :
    (d : ℕ) (s : String)
    → d < 10
    → amount_of (String.◌∷◌ (digit d) s) ≡ amount_from 0 (String.◌∷◌ (digit d) s)
unfolding amount_of
amount_of-digit d s h =
    rw (amount_of, digit_back d h)
      (sym (amount-digit 0 d s h ∙ ap (λ x. amount_from x s) (omega arith)))

amount_of-decimal :
    (n : ℕ) (s : String)
    → amount_of (trim_end_matches b'.' (decimal_loop n n s))
      ≡ amount_from n (trim_end_matches b'.' s)
amount_of-decimal n s =
    let (d, t, h, e) = first_digit n n s (omega arith) in
    ap (λ x. amount_of (trim_end_matches b'.' x)) e
    ∙ ap amount_of (keep_digit d t h)
    ∙ amount_of-digit d (trim_end_matches b'.' t) h
    ∙ ap (amount_from 0) (sym (keep_digit d t h))
    ∙ ap (λ x. amount_from 0 (trim_end_matches b'.' x)) (sym e)
    ∙ ap (amount_from 0) (trim_point-decimal n n s (omega arith))
    ∙ amount-decimal n n (trim_end_matches b'.' s) (omega arith)

-- The text before its end point goes.
pub to_btc_string-trimmed :
    (n : ℕ)
    → to_btc_string n
      ≡ trim_end_matches b'.' (
          decimal_loop
            (n / sats_per_btc)
            (n / sats_per_btc)
            (String.◌∷◌ "." (trim_end_matches b'0' (zero_padded 8 (n % sats_per_btc) String.[]))))
unfolding to_btc_string
to_btc_string-trimmed n =
    let whole = n / sats_per_btc in
    let fraction = zero_padded 8 (n % sats_per_btc) String.[] in
    ap (trim_end_matches b'.') (
      trim_zeros-decimal whole whole (String.◌∷◌ "." fraction) (trim_end_matches b'0' fraction) "."
        (keep_other b'0' "." fraction refl))

pub fraction_kept :
    (n : ℕ)
    → fraction_of 8 (trim_end_matches b'0' (zero_padded 8 (n % sats_per_btc) String.[]))
      ≡ some (n % sats_per_btc)
fraction_kept n =
    let m = n % sats_per_btc in
    fraction-trim_zeros 8 m (zero_padded 8 m String.[])
      (fraction-digits 8 0 m 0 String.[] (omega arith) fraction-empty ∙ ap some (omega arith))

-- The text of an amount of satoshis in BTC stands for exactly that amount.
pub to_btc_string-exact : (n : ℕ) → amount_of (to_btc_string n) ≡ some n
to_btc_string-exact n =
    let fraction = trim_end_matches b'0' (zero_padded 8 (n % sats_per_btc) String.[]) in
    ap amount_of (to_btc_string-trimmed n)
    ∙ amount_of-decimal (n / sats_per_btc) (String.◌∷◌ "." fraction)
    ∙ amount-point (n / sats_per_btc) (n % sats_per_btc) fraction (fraction_kept n)
    ∙ ap some (omega arith)
