-- ===== src/Btc/Amount/Trim.antt =====
-- btc/src/domain.rs: the trims of the text of an amount.
use browser_web3_signer.Prelude.{
  ℕ, zero, suc, ◌+◌, ◌/◌, ◌%◌, ◌≤◌, ◌<◌, ◌≡◌, refl, ap, ◌∙◌, inl, inr, String, false, Bool-cases,
  ltb, some, ◌==◌, arith,
}
use browser_web3_signer.Prelude.Decimal.{digit, decimal_loop, to_digit}
use browser_web3_signer.Prelude.Decimal.RoundTrip.{digit_back}
use browser_web3_signer.Btc.Amount.{keep_before, trim_end_matches}
use Prim.Native.Char.{Char, code}

pub digit_code : (c : Char) (d : ℕ) → to_digit c ≡ some d → code c ≡ 48 + d
unfolding to_digit
digit_code c d h = ground arith

pub digit-≢_point : (d : ℕ) → d < 10 → (code (digit d) == b'.') ≡ false
unfolding digit
digit-≢_point d h = let e = digit_code (digit d) d (digit_back d h) in ground arith

keep_before-false : (c : Char) (t : String) → keep_before false (String.◌∷◌ c t) t ≡ String.◌∷◌ c t
unfolding keep_before
keep_before-false c String.[] = refl
keep_before-false c (String.◌∷◌ d t) = refl

pub not_point : (c : Char) (d : ℕ) → to_digit c ≡ some d → (code c == b'.') ≡ false
unfolding to_digit
not_point c d h = ground arith

-- The end of a text is trimmed after a character that is not one to trim.
pub keep_other :
    (k : ℕ) (c : Char) (s : String)
    → (code c == k) ≡ false
    → trim_end_matches k (String.◌∷◌ c s) ≡ String.◌∷◌ c (trim_end_matches k s)
unfolding trim_end_matches
keep_other k c s h = rw h (keep_before-false c (trim_end_matches k s))

-- It is trimmed after any character if something stays.
pub keep_more :
    (k : ℕ) (c e : Char) (s t : String)
    → trim_end_matches k s ≡ String.◌∷◌ e t
    → trim_end_matches k (String.◌∷◌ c s) ≡ String.◌∷◌ c (String.◌∷◌ e t)
unfolding trim_end_matches keep_before
keep_more k c e s t h = rw h refl

pub keep_digit :
    (d : ℕ) (s : String)
    → d < 10
    → trim_end_matches b'.' (String.◌∷◌ (digit d) s)
      ≡ String.◌∷◌ (digit d) (trim_end_matches b'.' s)
keep_digit d s h = keep_other b'.' (digit d) s (digit-≢_point d h)

pub trim_point-decimal :
    (f n : ℕ) (rest : String)
    → n ≤ f
    → trim_end_matches b'.' (decimal_loop f n rest) ≡ decimal_loop f n (trim_end_matches b'.' rest)
unfolding decimal_loop
trim_point-decimal zero n rest h = keep_digit n rest (omega arith)
trim_point-decimal (suc f) n rest h = elim (Bool-cases (ltb n 10)) [
  | inl small ↦ rw small (keep_digit n rest (ground arith))
  | inr large ↦ rw large (
      trim_point-decimal f (n / 10) (String.◌∷◌ (digit (n % 10)) rest) (ground arith)
      ∙ ap (decimal_loop f (n / 10)) (keep_digit (n % 10) rest (omega arith)))
]

pub trim_zeros-decimal :
    (f n : ℕ) (rest t : String) (c : Char)
    → trim_end_matches b'0' rest ≡ String.◌∷◌ c t
    → trim_end_matches b'0' (decimal_loop f n rest) ≡ decimal_loop f n (String.◌∷◌ c t)
unfolding decimal_loop
trim_zeros-decimal zero n rest t c h = keep_more b'0' (digit n) c rest t h
trim_zeros-decimal (suc f) n rest t c h = elim (Bool-cases (ltb n 10)) [
  | inl small ↦ rw small (keep_more b'0' (digit n) c rest t h)
  | inr large ↦ rw large (
      trim_zeros-decimal f (n / 10) (String.◌∷◌ (digit (n % 10)) rest) (String.◌∷◌ c t)
        (digit (n % 10)) (keep_more b'0' (digit (n % 10)) c rest t h))
]
