-- ===== src/Prelude/Weights.antt =====
-- Access to a list by position, and sums over a list, which count its elements of a kind.
use Prim.Native.Nat.{ℕ, zero, suc, ◌+◌}
use mathlib.Core.Path.{◌≡◌}
use mathlib.Core.Option.{Option, none, some}
use mathlib.Core.List.{List, [], ◌∷◌, ◌++◌}
use native.Mathlib.Omega.{arith}

module _ {ℓ} {A : Type ℓ} where
  abbrev pub get_elem? : List A → ℕ → Option A
  get_elem? [] i = none
  get_elem? (x ∷ xs) zero = some x
  get_elem? (x ∷ xs) (suc i) = get_elem? xs i

  abbrev pub set : List A → ℕ → A → List A
  set [] i v = []
  set (x ∷ xs) zero v = v ∷ xs
  set (x ∷ xs) (suc i) v = x ∷ set xs i v

  abbrev pub remove_at : List A → ℕ → List A
  remove_at [] i = []
  remove_at (x ∷ xs) zero = xs
  remove_at (x ∷ xs) (suc i) = x ∷ remove_at xs i

  abbrev pub weight : (A → ℕ) → List A → ℕ
  weight f [] = 0
  weight f (x ∷ xs) = f x + weight f xs

  pub weight-append : (f : A → ℕ) (xs ys : List A) → weight f (xs ++ ys) ≡ weight f xs + weight f ys
  weight-append f [] ys = omega arith
  weight-append f (x ∷ xs) ys = omega (arith, weight-append f xs ys)

  pub weight-set :
      (f : A → ℕ) (xs : List A) (i : ℕ) (x y : A)
      → get_elem? xs i ≡ some x
      → weight f (set xs i y) + f x ≡ weight f xs + f y
  weight-set f [] i x y h = cc
  weight-set f (z ∷ xs) zero x y h = ground arith
  weight-set f (z ∷ xs) (suc i) x y h = omega (arith, weight-set f xs i x y h)

  pub weight-remove_at :
      (f : A → ℕ) (xs : List A) (i : ℕ) (x : A)
      → get_elem? xs i ≡ some x
      → weight f (remove_at xs i) + f x ≡ weight f xs
  weight-remove_at f [] i x h = cc
  weight-remove_at f (z ∷ xs) zero x h = ground arith
  weight-remove_at f (z ∷ xs) (suc i) x h = omega (arith, weight-remove_at f xs i x h)
