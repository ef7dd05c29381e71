-- ===== src/Prelude/Lists.antt =====
-- The iterator functions that the sources call on vectors.
use Prim.Native.Nat.{ℕ, zero, suc}
use mathlib.Core.Path.{◌≡◌, refl, subst}
use mathlib.Core.Bool.{Bool}
use mathlib.Core.Option.{Option, none, some}
use mathlib.Core.List.{List, [], ◌∷◌, map}
use browser_web3_signer.Prelude.Tests.{if◌then◌else◌}
use browser_web3_signer.Prelude.Results.{Result, ok, ◌>>=◌, >>=-ok, ok-injective}

module _ {A : Type 0} where
  unfoldable pub filter : (A → Bool) → List A → List A
  filter keep [] = []
  filter keep (x ∷ xs) = let rest = filter keep xs in if keep x then x ∷ rest else rest

  -- `Iterator::find`.
  unfoldable pub find : (A → Bool) → List A → Option A
  find test [] = none
  find test (x ∷ xs) = let rest = find test xs in if test x then some x else rest

  -- `<[T]>::get`.
  unfoldable pub get_elem? : List A → ℕ → Option A
  get_elem? [] i = none
  get_elem? (x ∷ xs) zero = some x
  get_elem? (x ∷ xs) (suc i) = get_elem? xs i

  abbrev pub All : (A → Type 0) → List A → Type 0
  All P [] = Unit
  All P (x ∷ xs) = P x × All P xs

module _ {A B E : Type 0} where
  -- `map(f).collect::<Result<Vec<_>, _>>()`.
  unfoldable pub traverse : (A → Result B E) → List A → Result (List B) E
  traverse f [] = ok []
  traverse f (x ∷ xs) = do y ← f x; ys ← traverse f xs; ok (y ∷ ys)

  pub traverse-map :
      (f : A → Result B E) (g : B → A) (P : B → Type 0) (xs : List B)
      → ((x : B) → P x → f (g x) ≡ ok x)
      → All P xs
      → traverse f (map g xs) ≡ ok xs
  unfolding traverse
  traverse-map f g P [] h k = refl
  traverse-map f g P (x ∷ xs) h k = rw (h x k.0, traverse-map f g P xs h k.1) refl

  pub traverse-All :
      (f : A → Result B E) (P : B → Type 0) (ys : List A) (xs : List B)
      → ((y : A) (x : B) → f y ≡ ok x → P x)
      → traverse f ys ≡ ok xs
      → All P xs
  unfolding traverse
  traverse-All f P [] xs h k = subst (All P) (ok-injective k) tt
  traverse-All f P (y ∷ ys) xs h k =
      let (z, e, k1) = >>=-ok (f y) _ k in
      let (zs, e2, k2) = >>=-ok (traverse f ys) _ k1 in
      subst (All P) (ok-injective k2) (h y z e, traverse-All f P ys zs h e2)
