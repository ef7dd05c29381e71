-- ===== src/Btc/Amount/Short.antt =====
-- btc/src/domain.rs: the text of an amount has nothing to trim.
use browser_web3_signer.Prelude.{
  ℕ, zero, suc, ◌/◌, ◌%◌, ◌≤◌, ◌<◌, ◌≡◌, refl, sym, ap, subst, ◌∙◌, inl, inr, String, Bool-cases,
  ltb, some, ◌==◌, if◌then◌else◌, arith,
}
use browser_web3_signer.Prelude.Decimal.{digit, decimal_loop}
use browser_web3_signer.Btc.Amount.{
  zero_padded, keep_before, trim_end_matches, sats_per_btc, to_btc_string,
}
use browser_web3_signer.Btc.Amount.Reader.{fraction_of, amount_of}
use browser_web3_signer.Btc.Amount.Trim.{digit-≢_point, keep_other, keep_more, trim_point-decimal}
use browser_web3_signer.Btc.Amount.Fraction.{fraction-trim_point}
use browser_web3_signer.Btc.Amount.Exact.{to_btc_string-trimmed, fraction_kept, to_btc_string-exact}
use Prim.Native.Char.{Char, code}

-- What follows the first point.
unfoldable pub after_point : String → String
after_point String.[] = String.[]
after_point (String.◌∷◌ c s) = let rest = after_point s in if code c == b'.' then s else rest

-- A text with nothing at its end that `trim_end_matches` takes away.
abbrev pub IsTrimmed : ℕ → String → Type 0
IsTrimmed k s = trim_end_matches k s ≡ s

keep_before-IsTrimmed :
    (k : ℕ) (c : Char) (t : String)
    → IsTrimmed k t
    → IsTrimmed k (keep_before (code c == k) (String.◌∷◌ c t) t)
unfolding keep_before
keep_before-IsTrimmed k c String.[] h = elim (Bool-cases (code c == k)) [
  | inl y ↦ rw y h
  | inr n ↦ rw n (keep_other k c String.[] n ∙ ap (String.◌∷◌ c) h)
]
keep_before-IsTrimmed k c (String.◌∷◌ e t) h = keep_more k c e (String.◌∷◌ e t) t h

trim_end_matches-IsTrimmed : (k : ℕ) (s : String) → IsTrimmed k (trim_end_matches k s)
unfolding trim_end_matches
trim_end_matches-IsTrimmed k String.[] = refl
trim_end_matches-IsTrimmed k (String.◌∷◌ c s) =
    keep_before-IsTrimmed k c (trim_end_matches k s) (trim_end_matches-IsTrimmed k s)

after_point-digit :
    (d : ℕ) (s : String) → d < 10 → after_point (String.◌∷◌ (digit d) s) ≡ after_point s
unfolding after_point
after_point-digit d s h = rw (digit-≢_point d h) refl

after_point-decimal :
    (f n : ℕ) (rest : String) → n ≤ f → after_point (decimal_loop f n rest) ≡ after_point rest
unfolding decimal_loop
after_point-decimal zero n rest h = after_point-digit n rest (omega arith)
after_point-decimal (suc f) n rest h = elim (Bool-cases (ltb n 10)) [
  | inl small ↦ rw small (after_point-digit n rest (ground arith))
  | inr large ↦ rw large (
      after_point-decimal f (n / 10) (String.◌∷◌ (digit (n % 10)) rest) (ground arith)
      ∙ after_point-digit (n % 10) rest (omega arith))
]

-- What follows the point of a fraction that is trimmed of zeros.
after_point-tail :
    (w v : ℕ) (s : String)
    → fraction_of w s ≡ some v
    → IsTrimmed b'0' s
    → IsTrimmed b'0' (after_point (trim_end_matches b'.' (String.◌∷◌ "." s)))
unfolding trim_end_matches keep_before after_point
after_point-tail w v String.[] e h = refl
after_point-tail w v (String.◌∷◌ c s) e h =
    subst (λ x. IsTrimmed b'0' (after_point x))
      (sym (keep_more b'.' "." c (String.◌∷◌ c s) s (fraction-trim_point w v (String.◌∷◌ c s) e))) h

-- The text of an amount of satoshis in BTC stands for exactly that amount, does not end with a point, and has no zero at the end of what follows a point.
pub to_btc_string_shortest :
    (n : ℕ)
    → (amount_of (to_btc_string n) ≡ some n)
      × IsTrimmed b'.' (to_btc_string n)
      × IsTrimmed b'0' (after_point (to_btc_string n))
to_btc_string_shortest n =
    let whole = n / sats_per_btc in
    let fraction = trim_end_matches b'0' (zero_padded 8 (n % sats_per_btc) String.[]) in
    let shown = to_btc_string-trimmed n in
    (
      to_btc_string-exact n,
      subst (IsTrimmed b'.') (sym shown) (trim_end_matches-IsTrimmed b'.' _),
      subst (λ t. IsTrimmed b'0' (after_point t))
          (sym (shown ∙ trim_point-decimal whole whole (String.◌∷◌ "." fraction) (omega arith)))
          (subst (IsTrimmed b'0')
            (sym (
              after_point-decimal whole whole (trim_end_matches b'.' (String.◌∷◌ "." fraction))
                (omega arith)))
            (after_point-tail 8 (n % sats_per_btc) fraction (fraction_kept n)
              (trim_end_matches-IsTrimmed b'0' _))),
    )
