-- ===== src/Prelude/Results.antt =====
-- Rust's `Result<A, E>` and the combinators of it, and of `Option`, that the sources call.
use mathlib.Core.Path.{◌≡◌, refl, ap, sym}
use mathlib.Core.Option.{Option, none, some}
use mathlib.Core.Logic.{◌≢◌, ◌⊎◌, inl, inr}

pub data Result (A E : Type 0) : Type 0 where
  ok : A → Result A E
  err : E → Result A E

infixl 5 ◌>>=◌ ◌>>◌
abbrev pub ◌>>=◌ : {A B E : Type 0} → Result A E → (A → Result B E) → Result B E
ok a >>= f = f a
err e >>= f = err e

abbrev pub ◌>>◌ : {A B E : Type 0} → Result A E → Result B E → Result B E
m >> k = m >>= λ _. k

module _ {A E : Type 0} where
  abbrev pub ok_or : Option A → E → Result A E
  ok_or none e = err e
  ok_or (some a) e = ok a

  abbrev pub map_err : {F : Type 0} → (E → F) → Result A E → Result A F
  map_err f (ok a) = ok a
  map_err f (err e) = err (f e)

  abbrev pub map_ok : {B : Type 0} → (A → B) → Result A E → Result B E
  map_ok f (ok a) = ok (f a)
  map_ok f (err e) = err e

  -- `Result::ok`.
  abbrev pub to_option : Result A E → Option A
  to_option (ok a) = some a
  to_option (err e) = none

  -- `Option<Result<A, E>>::transpose`.
  abbrev pub transpose : Option (Result A E) → Result (Option A) E
  transpose none = ok none
  transpose (some (ok a)) = ok (some a)
  transpose (some (err e)) = err e

  pub Result-cases : (r : Result A E) → ((a : A) × (r ≡ ok a)) ⊎ ((e : E) × (r ≡ err e))
  Result-cases (ok a) = inl (a, refl)
  Result-cases (err e) = inr (e, refl)

  -- A chain that succeeds has succeeded at its first link.
  pub >>=-ok :
      {B : Type 0} (first : Result A E) (next : A → Result B E) {end : B}
      → first >>= next ≡ ok end
      → (link : A) × (first ≡ ok link) × (next link ≡ ok end)
  >>=-ok (ok link) next h = (link, refl, h)
  >>=-ok (err reason) next h = cc

  abbrev or_default : A → Result A E → A
  or_default d (ok a) = a
  or_default d (err e) = d

  pub ok-injective : {a b : A} → ◌≡◌ {A = Result A E} (ok a) (ok b) → a ≡ b
  ok-injective {a} h = ap (or_default a) h

  pub ok≢err : {a : A} {e : E} → ◌≢◌ {A = Result A E} (ok a) (err e)
  ok≢err h = cc

module _ {A E F : Type 0} (f : E → F) where
  pub map_err-ok : (r : Result A E) {a : A} → map_err f r ≡ ok a → r ≡ ok a
  map_err-ok (ok b) h = ap (λ x. ok x) (ok-injective h)
  map_err-ok (err e) h = cc

module _ {A B E : Type 0} (f : A → B) where
  pub map_ok-ok : (r : Result A E) {b : B} → map_ok f r ≡ ok b → (a : A) × (r ≡ ok a) × (b ≡ f a)
  map_ok-ok (ok a) h = (a, refl, sym (ok-injective h))
  map_ok-ok (err e) h = cc
