-- ===== src/Btc/Amount/Fraction.antt =====
-- btc/src/domain.rs: the digits after the point of an amount.
use browser_web3_signer.Prelude.{
  ℕ, zero, suc, ◌+◌, ◌*◌, ◌/◌, ◌%◌, ◌^◌, ◌<◌, ◌≡◌, refl, sym, ap, subst, ◌∙◌, inl, inr, String,
  Bool-cases, Option, none, some, ◌==◌, arith,
}
use browser_web3_signer.Prelude.Decimal.{digit, to_digit}
use browser_web3_signer.Prelude.Decimal.RoundTrip.{digit_back}
use browser_web3_signer.Btc.Amount.{zero_padded, keep_before, trim_end_matches}
use Prim.Native.Char.{Char, code}
use browser_web3_signer.Btc.Amount.Reader.{add_digit, fraction_of}
use browser_web3_signer.Btc.Amount.Trim.{digit_code, not_point, keep_other}

add_digit-some :
    (unit : ℕ) (a b : Option ℕ) (v : ℕ)
    → add_digit unit a b ≡ some v
    → (d : ℕ) × (r : ℕ) × (a ≡ some d) × (b ≡ some r) × (v ≡ d * unit + r)
unfolding add_digit
add_digit-some unit (some d) (some r) v h = (d, r, refl, refl, ground arith)
add_digit-some unit (some d) none v h = ground arith
add_digit-some unit none b v h = ground arith

trimmed_zero : (d p r : ℕ) → d ≡ 0 → some 0 ≡ some r → some 0 ≡ some (d * p + r)
trimmed_zero d p r z e = e ∙ ap some (sym (rw z (omega arith)))

-- A digit before a trimmed fraction counts the same if it is trimmed too.
fraction-keep :
    (w d r : ℕ) (c : Char) (t : String)
    → to_digit c ≡ some d
    → fraction_of w t ≡ some r
    → fraction_of (suc w) (keep_before (code c == b'0') (String.◌∷◌ c t) t) ≡ some (d * 10 ^ w + r)
unfolding fraction_of keep_before add_digit
fraction-keep w d r c String.[] a b = elim (Bool-cases (code c == b'0')) [
  | inl y ↦ rw y (let e = digit_code c d a in trimmed_zero d (10 ^ w) r (ground arith) b)
  | inr n ↦ rw (n, a) (ap (add_digit (10 ^ w) (some d)) b)
]
fraction-keep w d r c (String.◌∷◌ e t) a b = rw (a, b) refl

pub fraction-trim_zeros :
    (w v : ℕ) (s : String)
    → fraction_of w s ≡ some v
    → fraction_of w (trim_end_matches b'0' s) ≡ some v
unfolding fraction_of trim_end_matches
fraction-trim_zeros w v String.[] h = h
fraction-trim_zeros zero v (String.◌∷◌ c s) h = ground arith
fraction-trim_zeros (suc w) v (String.◌∷◌ c s) h =
    let (d, r, a, b, e) = add_digit-some (10 ^ w) (to_digit c) (fraction_of w s) v h in
    fraction-keep w d r c (trim_end_matches b'0' s) a (fraction-trim_zeros w r s b)
    ∙ ap some (sym e)

small_zero : (m : ℕ) → m < 10 ^ 0 → m ≡ 0
small_zero m h = omega arith

shift_digit : (q d p r : ℕ) → q * (10 * p) + (d * p + r) ≡ (q * 10 + d) * p + r
shift_digit q d p r = omega arith

shifted : (k m r : ℕ) → (m / 10) * 10 ^ suc k + ((m % 10) * 10 ^ k + r) ≡ m * 10 ^ k + r
shifted k m r =
    ap (λ p. (m / 10) * p + ((m % 10) * 10 ^ k + r)) (omega arith)
    ∙ shift_digit (m / 10) (m % 10) (10 ^ k) r
    ∙ ap (λ x. x * 10 ^ k + r) (omega arith)

-- A number of `w` digits, padded with zeros, is that fraction.
pub fraction-digits :
    (w k m r : ℕ) (rest : String)
    → m < 10 ^ w
    → fraction_of k rest ≡ some r
    → fraction_of (w + k) (zero_padded w m rest) ≡ some (m * 10 ^ k + r)
unfolding zero_padded fraction_of add_digit
fraction-digits zero k m r rest h e =
    rw (small_zero m h) (ap (λ x. fraction_of x rest) (omega arith) ∙ e ∙ ap some (omega arith))
fraction-digits (suc w) k m r rest h e =
    subst
      (λ x.
        fraction_of x (zero_padded w (m / 10) (String.◌∷◌ (digit (m % 10)) rest))
        ≡ some (m * 10 ^ k + r))
      (omega arith)
      (fraction-digits w (suc k) (m / 10) ((m % 10) * 10 ^ k + r) (String.◌∷◌ (digit (m % 10)) rest)
          (omega arith) (rw (digit_back (m % 10) (omega arith), e) refl)
        ∙ ap some (shifted k m r))

-- What is a fraction has no point.
pub fraction-trim_point :
    (w v : ℕ) (s : String) → fraction_of w s ≡ some v → trim_end_matches b'.' s ≡ s
unfolding fraction_of trim_end_matches
fraction-trim_point w v String.[] h = refl
fraction-trim_point zero v (String.◌∷◌ c s) h = ground arith
fraction-trim_point (suc w) v (String.◌∷◌ c s) h =
    let (d, r, a, b, e) = add_digit-some (10 ^ w) (to_digit c) (fraction_of w s) v h in
    let k = digit_code c d a in
    keep_other b'.' c s (not_point c d a) ∙ ap (String.◌∷◌ c) (fraction-trim_point w r s b)

pub fraction-empty : fraction_of 0 String.[] ≡ some 0
unfolding fraction_of
fraction-empty = refl
