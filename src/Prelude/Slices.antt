-- ===== src/Prelude/Slices.antt =====
-- Slices of lists and trimming, for Go's `s[:n]`, `s[n:]` and strings.Trim.
use Prim.Native.Nat.{ℕ, zero, suc, ◌-◌, ◌≤◌}
use mathlib.Core.Path.{◌≡◌, refl}
use mathlib.Core.Bool.{Bool, true, false, ◌&&◌, not}
use mathlib.Core.List.{List, [], ◌∷◌, ◌++◌}
use native.Mathlib.Omega.{arith}
use oz_agent_worker.Prelude.Tests.{if◌then◌else◌}
use oz_agent_worker.Prelude.Lists.{length}

module _ {ℓ} {A : Type ℓ} where
  abbrev pub take : ℕ → List A → List A
  take zero xs = []
  take (suc n) [] = []
  take (suc n) (x ∷ xs) = x ∷ take n xs

  abbrev pub drop : ℕ → List A → List A
  drop zero xs = xs
  drop (suc n) [] = []
  drop (suc n) (x ∷ xs) = drop n xs

  pub length-take-le : (n : ℕ) (xs : List A) → length (take n xs) ≤ n
  length-take-le zero xs = omega arith
  length-take-le (suc n) [] = omega arith
  length-take-le (suc n) (x ∷ xs) = omega (arith, length-take-le n xs)

  pub length-drop : (n : ℕ) (xs : List A) → length (drop n xs) ≡ length xs - n
  length-drop zero xs = omega arith
  length-drop (suc n) [] = omega arith
  length-drop (suc n) (x ∷ xs) = omega (arith, length-drop n xs)

  abbrev pub is_empty : List A → Bool
  is_empty [] = true
  is_empty (x ∷ xs) = false

  -- Every element passes the test.
  abbrev pub all : (A → Bool) → List A → Bool
  all p [] = true
  all p (x ∷ xs) = p x && all p xs

  pub all-append : (p : A → Bool) (xs ys : List A) → all p (xs ++ ys) ≡ (all p xs && all p ys)
  all-append p [] ys = refl
  all-append p (x ∷ xs) ys = ground (arith, all-append p xs ys)

  pub all-take : (p : A → Bool) (n : ℕ) (xs : List A) → all p xs ≡ true → all p (take n xs) ≡ true
  all-take p zero xs h = refl
  all-take p (suc n) [] h = refl
  all-take p (suc n) (x ∷ xs) h = ground (arith, all-take p n xs)

  pub all-drop : (p : A → Bool) (n : ℕ) (xs : List A) → all p xs ≡ true → all p (drop n xs) ≡ true
  all-drop p zero xs h = h
  all-drop p (suc n) [] h = refl
  all-drop p (suc n) (x ∷ xs) h = ground (arith, all-drop p n xs)

  -- strings.TrimLeft and TrimRight, by a test for the characters of the cutset.
  abbrev pub trim_left : (A → Bool) → List A → List A
  trim_left p [] = []
  trim_left p (x ∷ xs) = let rest = trim_left p xs in if p x then rest else x ∷ xs

  abbrev pub trim_right : (A → Bool) → List A → List A
  trim_right p [] = []
  trim_right p (x ∷ xs) =
      let rest = trim_right p xs in if is_empty rest && p x then [] else x ∷ rest

  abbrev pub trim : (A → Bool) → List A → List A
  trim p xs = trim_right p (trim_left p xs)

  -- The first and the last element do not pass the test.
  abbrev pub starts_outside : (A → Bool) → List A → Bool
  starts_outside p [] = true
  starts_outside p (x ∷ xs) = not (p x)

  abbrev pub ends_outside : (A → Bool) → List A → Bool
  ends_outside p [] = true
  ends_outside p (x ∷ xs) = let rest = ends_outside p xs in if is_empty xs then not (p x) else rest

  pub trim_right-ends : (p : A → Bool) (xs : List A) → ends_outside p (trim_right p xs) ≡ true
  trim_right-ends p [] = refl
  trim_right-ends p (x ∷ xs) = ground (arith, trim_right-ends p xs)

  pub trim_left-starts : (p : A → Bool) (xs : List A) → starts_outside p (trim_left p xs) ≡ true
  trim_left-starts p [] = refl
  trim_left-starts p (x ∷ xs) = ground (arith, trim_left-starts p xs)

  pub trim_right-starts :
      (p : A → Bool) (xs : List A)
      → starts_outside p xs ≡ true
      → starts_outside p (trim_right p xs) ≡ true
  trim_right-starts p [] h = refl
  trim_right-starts p (x ∷ xs) h = ground arith

  pub trim_right-all :
      (p q : A → Bool) (xs : List A) → all q xs ≡ true → all q (trim_right p xs) ≡ true
  trim_right-all p q [] h = refl
  trim_right-all p q (x ∷ xs) h = ground (arith, trim_right-all p q xs)

  pub trim_left-all :
      (p q : A → Bool) (xs : List A) → all q xs ≡ true → all q (trim_left p xs) ≡ true
  trim_left-all p q [] h = refl
  trim_left-all p q (x ∷ xs) h = ground (arith, trim_left-all p q xs)

  pub length-trim_right : (p : A → Bool) (xs : List A) → length (trim_right p xs) ≤ length xs
  length-trim_right p [] = omega arith
  length-trim_right p (x ∷ xs) = ground (arith, length-trim_right p xs)

  pub length-trim_left : (p : A → Bool) (xs : List A) → length (trim_left p xs) ≤ length xs
  length-trim_left p [] = omega arith
  length-trim_left p (x ∷ xs) = ground (arith, length-trim_left p xs)

  pub ends-append :
      (p : A → Bool) (xs ys : List A)
      → ends_outside p ys ≡ true
      → is_empty ys ≡ false
      → ends_outside p (xs ++ ys) ≡ true
  ends-append p [] ys h n = h
  ends-append p (x ∷ []) (y ∷ ys) h n = ground arith
  ends-append p (x ∷ []) [] h n = ground arith
  ends-append p (x ∷ z ∷ xs) ys h n = ground (arith, ends-append p (z ∷ xs) ys)
