-- ===== src/Prelude/Perms.antt =====
-- Permutations of lists, measured by native numbers.
use Prim.Native.Nat.{ℕ, zero, suc}
use mathlib.Core.Path.{◌≡◌, refl, ap, ◌∙◌}
use mathlib.Core.Logic.{∥∥₁_elim}
use mathlib.Core.List.{List, [], ◌∷◌, ◌++◌, Perm, Permᴰ}
use mathlib.Core.Bool.{Bool, true, ◌&&◌, Bool-set}
use mathlib.Core.Option.{some}
use native.Mathlib.Omega.{arith}
use native.Mathlib.Nat.{ℕ_set}
use polaris_gslb.Prelude.Lists.{length, get_elem?, replicate}

module _ {ℓ} {A : Type ℓ} where
  length-permᴰ : {xs ys : List A} → Permᴰ xs ys → length xs ≡ length ys
  length-permᴰ Permᴰ.nil = refl
  length-permᴰ (Permᴰ.cons e p) = ap suc (length-permᴰ p)
  length-permᴰ (Permᴰ.swap {l = l} e f) = refl
  length-permᴰ (Permᴰ.trans p q) = length-permᴰ p ∙ length-permᴰ q

  pub length-perm : {xs ys : List A} → Perm xs ys → length xs ≡ length ys
  length-perm {xs} {ys} p = ∥∥₁_elim p (ℕ_set (length xs) (length ys)) length-permᴰ

  -- A Boolean test of every element does not depend on their order.
  abbrev pub every : (A → Bool) → List A → Bool
  every q [] = true
  every q (x ∷ xs) = q x && every q xs

  every-permᴰ : (q : A → Bool) {xs ys : List A} → Permᴰ xs ys → every q xs ≡ every q ys
  every-permᴰ q Permᴰ.nil = refl
  every-permᴰ q (Permᴰ.cons e p) = ground (arith, every-permᴰ q p)
  every-permᴰ q (Permᴰ.swap {l = l} e f) = ground arith
  every-permᴰ q (Permᴰ.trans p r) = every-permᴰ q p ∙ every-permᴰ q r

  pub every-perm : (q : A → Bool) {xs ys : List A} → Perm xs ys → every q xs ≡ every q ys
  every-perm q {xs} {ys} p = ∥∥₁_elim p (Bool-set (every q xs) (every q ys)) (every-permᴰ q)

  pub every-get_elem? :
      (q : A → Bool) (xs : List A) (i : ℕ) {x : A}
      → get_elem? xs i ≡ some x
      → every q xs ≡ true
      → q x ≡ true
  every-get_elem? q [] i e h = cc
  every-get_elem? q (y ∷ xs) zero e h = ground arith
  every-get_elem? q (y ∷ xs) (suc i) e h = every-get_elem? q xs i e (ground arith)

  pub every_mono :
      (q r : A → Bool) (xs : List A)
      → ((x : A) → q x ≡ true → r x ≡ true)
      → every q xs ≡ true
      → every r xs ≡ true
  every_mono q r [] f h = refl
  every_mono q r (x ∷ xs) f h =
      let one : r x ≡ true = f x (ground arith) in
      let others : every r xs ≡ true = every_mono q r xs f (ground arith) in ground arith

  pub every-replicate_append :
      (q : A → Bool) (n : ℕ) (x : A) (xs : List A)
      → q x ≡ true
      → every q xs ≡ true
      → every q (replicate n x ++ xs) ≡ true
  every-replicate_append q zero x xs h t = t
  every-replicate_append q (suc n) x xs h t =
      let rest : every q (replicate n x ++ xs) ≡ true = every-replicate_append q n x xs h t in
      ground arith
