-- ===== src/Prelude/Updates.antt =====
-- Lists changed at one position, and sums over their elements.
use Prim.Native.Nat.{ℕ, zero, suc, ◌+◌, ◌-◌}
use mathlib.Core.Path.{◌≡◌, refl}
use mathlib.Core.Bool.{Bool, false}
use mathlib.Core.List.{List, [], ◌∷◌, ◌++◌}
use mathlib.Core.Option.{some}
use native.Mathlib.Omega.{arith}
use polaris_gslb.Prelude.Tests.{ltb, eqb, if◌then◌else◌}
use polaris_gslb.Prelude.Lists.{length, get_elem?, select, replicate}
use polaris_gslb.Prelude.Dict.{map_option}

-- a change of one element
unfoldable pub change_at {ℓ} : {A : Type ℓ} → ℕ → (A → A) → List A → List A
change_at i f [] = []
change_at zero f (x ∷ xs) = f x ∷ xs
change_at (suc i) f (x ∷ xs) = x ∷ change_at i f xs

module _ {ℓ} {A : Type ℓ} where
  pub get_elem?-change_at :
      (i j : ℕ) (f : A → A) (xs : List A)
      → get_elem? (change_at i f xs) j
        ≡ (if eqb i j then map_option f (get_elem? xs j) else get_elem? xs j)
  unfolding change_at
  get_elem?-change_at i j f [] = ground arith
  get_elem?-change_at zero zero f (x ∷ xs) = ground arith
  get_elem?-change_at zero (suc j) f (x ∷ xs) = ground arith
  get_elem?-change_at (suc i) zero f (x ∷ xs) = ground arith
  get_elem?-change_at (suc i) (suc j) f (x ∷ xs) = ground (arith, get_elem?-change_at i j f xs)

  pub change_at-append :
      (i : ℕ) (f : A → A) (xs ys : List A)
      → change_at i f (xs ++ ys) ≡ (
          if ltb i (length xs)
          then change_at i f xs ++ ys
          else xs ++ change_at (i - length xs) f ys)
  unfolding change_at
  change_at-append i f [] ys = ground arith
  change_at-append zero f (x ∷ xs) ys = ground arith
  change_at-append (suc i) f (x ∷ xs) ys = ground (arith, change_at-append i f xs ys)

  pub length-change_at : (i : ℕ) (f : A → A) (xs : List A) → length (change_at i f xs) ≡ length xs
  unfolding change_at
  length-change_at i f [] = refl
  length-change_at zero f (x ∷ xs) = refl
  length-change_at (suc i) f (x ∷ xs) = omega (arith, length-change_at i f xs)

  -- The sum of a weight over the elements.
  unfoldable pub sum : (A → ℕ) → List A → ℕ
  sum w [] = 0
  sum w (x ∷ xs) = w x + sum w xs

  pub sum-append : (w : A → ℕ) (xs ys : List A) → sum w (xs ++ ys) ≡ sum w xs + sum w ys
  unfolding sum
  sum-append w [] ys = omega arith
  sum-append w (x ∷ xs) ys = omega (arith, sum-append w xs ys)

  -- A change of one element changes the sum by the difference of its weights.
  pub sum-change_at :
      (w : A → ℕ) (i : ℕ) (y : A) (xs : List A) {x : A}
      → get_elem? xs i ≡ some x
      → sum w (change_at i (λ _. y) xs) + w x ≡ sum w xs + w y
  unfolding sum change_at
  sum-change_at w i y [] e = cc
  sum-change_at w zero y (z ∷ xs) e = ground arith
  sum-change_at w (suc i) y (z ∷ xs) e = omega (arith, sum-change_at w i y xs e)

  -- Elements that weigh nothing can be left out.
  pub sum-select :
      (w : A → ℕ) (p : A → Bool) (xs : List A)
      → ((x : A) → p x ≡ false → w x ≡ 0)
      → sum w (select p xs) ≡ sum w xs
  unfolding sum
  sum-select w p [] h = refl
  sum-select w p (x ∷ xs) h = ground (arith, h x, sum-select w p xs h)

  pub sum-replicate : (w : A → ℕ) (n : ℕ) (a : A) → w a ≡ 0 → sum w (replicate n a) ≡ 0
  unfolding sum
  sum-replicate w zero a h = refl
  sum-replicate w (suc n) a h = omega (arith, sum-replicate w n a h)
