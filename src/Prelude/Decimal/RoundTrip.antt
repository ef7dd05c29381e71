-- ===== src/Prelude/Decimal/RoundTrip.antt =====
-- Unsigned integers, written and parsed.
use Prim.Native.Nat.{ℕ, zero, suc, ◌+◌, ◌*◌, ◌/◌, ◌%◌, ◌≤◌, ◌<◌}
use Prim.Native.Char.{code}
use Prim.Native.String.{String}
use mathlib.Core.Path.{◌≡◌, refl, ◌∙◌, ap, sym}
use mathlib.Core.Logic.{inl, inr}
use mathlib.Core.Option.{Option, none, some}
use native.Mathlib.Omega.{arith}
use mathlib.Core.Bool.{false}
use browser_web3_signer.Prelude.Tests.{ltb, ◌==◌, Bool-cases}
use browser_web3_signer.Prelude.Results.{ok, Result-cases, ok≢err}
use browser_web3_signer.Prelude.Decimal.{
  digit, decimal_loop, decimal, to_digit, push_digit, parse_loop, parse_unsigned,
}

pub digit_back : (d : ℕ) → d < 10 → to_digit (digit d) ≡ some d
unfolding digit to_digit
digit_back zero h = refl
digit_back (suc zero) h = refl
digit_back (suc (suc zero)) h = refl
digit_back (suc (suc (suc zero))) h = refl
digit_back (suc (suc (suc (suc zero)))) h = refl
digit_back (suc (suc (suc (suc (suc zero))))) h = refl
digit_back (suc (suc (suc (suc (suc (suc zero)))))) h = refl
digit_back (suc (suc (suc (suc (suc (suc (suc zero))))))) h = refl
digit_back (suc (suc (suc (suc (suc (suc (suc (suc zero)))))))) h = refl
digit_back (suc (suc (suc (suc (suc (suc (suc (suc (suc zero))))))))) h = refl
digit_back (suc (suc (suc (suc (suc (suc (suc (suc (suc (suc d)))))))))) h = absurd (omega arith)

-- The parse of a digit adds it to the number so far.
loop_digit :
    (bound acc d n : ℕ) (s : String)
    → d < 10
    → acc * 10 + d ≡ n
    → n < bound
    → parse_loop bound acc (String.◌∷◌ (digit d) s) ≡ parse_loop bound n s
unfolding parse_loop push_digit
loop_digit bound acc d n s h e k = ground (arith, digit_back d h)

loop_back :
    (bound f n : ℕ) (rest : String)
    → n ≤ f
    → n < bound
    → parse_loop bound 0 (decimal_loop f n rest) ≡ parse_loop bound n rest
unfolding decimal_loop
loop_back bound zero n rest h k = loop_digit bound 0 n n rest (omega arith) (omega arith) k
loop_back bound (suc f) n rest h k = elim (Bool-cases (ltb n 10)) [
  | inl small ↦ rw small (loop_digit bound 0 n n rest (ground arith) (omega arith) k)
  | inr large ↦ rw large (
      loop_back bound f (n / 10) (String.◌∷◌ (digit (n % 10)) rest) (ground arith) (omega arith)
      ∙ loop_digit bound (n / 10) (n % 10) n rest (omega arith) (omega arith) k)
]

-- What is written starts with a digit.
pub first_digit :
    (f n : ℕ) (rest : String)
    → n ≤ f
    → (d : ℕ) × (s : String) × (d < 10) × (decimal_loop f n rest ≡ String.◌∷◌ (digit d) s)
unfolding decimal_loop
first_digit zero n rest h = (n, rest, omega arith, refl)
first_digit (suc f) n rest h = elim (Bool-cases (ltb n 10)) [
  | inl small ↦ (n, rest, ground arith, rw small refl)
  | inr large ↦
      let (d, s, k, e) = first_digit f (n / 10) (String.◌∷◌ (digit (n % 10)) rest) (ground arith) in
      (d, s, k, rw large e)
]

digit-≢_plus : (d : ℕ) → d < 10 → (code (digit d) == b'+') ≡ false
unfolding digit
digit-≢_plus zero h = refl
digit-≢_plus (suc zero) h = refl
digit-≢_plus (suc (suc zero)) h = refl
digit-≢_plus (suc (suc (suc zero))) h = refl
digit-≢_plus (suc (suc (suc (suc zero)))) h = refl
digit-≢_plus (suc (suc (suc (suc (suc zero))))) h = refl
digit-≢_plus (suc (suc (suc (suc (suc (suc zero)))))) h = refl
digit-≢_plus (suc (suc (suc (suc (suc (suc (suc zero))))))) h = refl
digit-≢_plus (suc (suc (suc (suc (suc (suc (suc (suc zero)))))))) h = refl
digit-≢_plus (suc (suc (suc (suc (suc (suc (suc (suc (suc d))))))))) h = refl

unsigned_digit :
    (bound d : ℕ) (s : String)
    → d < 10
    → parse_unsigned bound (String.◌∷◌ (digit d) s) ≡ parse_loop bound 0 (String.◌∷◌ (digit d) s)
unfolding parse_unsigned
unsigned_digit bound d String.[] h = refl
unsigned_digit bound d (String.◌∷◌ c s) h = rw (digit-≢_plus d h) refl

-- A number below the bound parses back from its digits.
pub parse_unsigned-decimal : (bound n : ℕ) → n < bound → parse_unsigned bound (decimal n) ≡ ok n
unfolding decimal parse_loop
parse_unsigned-decimal bound n k =
    let (d, s, h, e) = first_digit n n String.[] (omega arith) in
    ap (parse_unsigned bound) e
    ∙ unsigned_digit bound d s h
    ∙ ap (parse_loop bound 0) (sym e)
    ∙ loop_back bound n n String.[] (omega arith) k

push_digit-lt : (bound acc : ℕ) (o : Option ℕ) {n : ℕ} → push_digit bound acc o ≡ ok n → n < bound
unfolding push_digit
push_digit-lt bound acc none h = cc
push_digit-lt bound acc (some d) h = ground arith

loop-lt :
    (bound acc : ℕ) (s : String) {n : ℕ} → acc < bound → parse_loop bound acc s ≡ ok n → n < bound
unfolding parse_loop
loop-lt bound acc String.[] h k = ground arith
loop-lt bound acc (String.◌∷◌ c s) {n} h k =
    elim (Result-cases (push_digit bound acc (to_digit c))) [
      | inl (next, e) ↦
          loop-lt bound next s (push_digit-lt bound acc (to_digit c) e) (rw (parse_loop, e) at k)
      | inr (x, e) ↦ absurd (ok≢err (sym (rw (parse_loop, e) at k)))
    ]

-- A parsed number is below the bound.
pub parse_unsigned-lt :
    (bound : ℕ) (s : String) {n : ℕ} → 0 < bound → parse_unsigned bound s ≡ ok n → n < bound
unfolding parse_unsigned
parse_unsigned-lt bound String.[] h k = ground arith
parse_unsigned-lt bound (String.◌∷◌ c String.[]) h k = loop-lt bound 0 (String.◌∷◌ c String.[]) h k
parse_unsigned-lt bound (String.◌∷◌ c (String.◌∷◌ d s)) h k = elim (Bool-cases (code c == b'+')) [
  | inl plus ↦ loop-lt bound 0 (String.◌∷◌ d s) h (rw plus at k)
  | inr other ↦ loop-lt bound 0 (String.◌∷◌ c (String.◌∷◌ d s)) h (rw other at k)
]
