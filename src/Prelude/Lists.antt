-- ===== src/Prelude/Lists.antt =====
-- Lists measured and indexed by native numbers, under the library's names.
use Prim.Native.Nat.{ℕ, zero, suc, ◌+◌, ◌-◌, ◌<◌, ◌≤◌}
use mathlib.Core.Path.{◌≡◌, refl, ap}
use mathlib.Core.Bool.{Bool, true, false}
use mathlib.Core.List.{Memᴰ, List, [], ◌∷◌, ◌++◌}
use mathlib.Core.Option.{Option, none, some}
use native.Mathlib.Omega.{arith}
use polaris_gslb.Prelude.Tests.{if◌then◌else◌}

module _ {ℓ} {A : Type ℓ} where
  abbrev pub length : List A → ℕ
  length [] = 0
  length (x ∷ xs) = suc (length xs)

  abbrev pub get_elem? : List A → ℕ → Option A
  get_elem? [] i = none
  get_elem? (x ∷ xs) zero = some x
  get_elem? (x ∷ xs) (suc i) = get_elem? xs i

  abbrev pub take : ℕ → List A → List A
  take zero xs = []
  take (suc n) [] = []
  take (suc n) (x ∷ xs) = x ∷ take n xs

  abbrev pub drop : ℕ → List A → List A
  drop zero xs = xs
  drop (suc n) [] = []
  drop (suc n) (x ∷ xs) = drop n xs

  abbrev pub replicate : ℕ → A → List A
  replicate zero a = []
  replicate (suc n) a = a ∷ replicate n a

  pub length-append : (xs ys : List A) → length (xs ++ ys) ≡ length xs + length ys
  length-append [] ys = omega arith
  length-append (x ∷ xs) ys = omega (arith, length-append xs ys)

  pub length-replicate : (n : ℕ) (a : A) → length (replicate n a) ≡ n
  length-replicate zero a = refl
  length-replicate (suc n) a = ap suc (length-replicate n a)

  -- The elements that pass a Boolean test.
  abbrev pub select : (A → Bool) → List A → List A
  select p [] = []
  select p (x ∷ xs) = let rest = select p xs in if p x then x ∷ rest else rest

  abbrev pub exists : (A → Bool) → List A → Bool
  exists p [] = false
  exists p (x ∷ xs) = if p x then true else exists p xs

  -- A predicate of every element.
  abbrev pub All {κ} : (A → Type κ) → List A → Type κ
  All P [] = Unit
  All P (x ∷ xs) = P x × All P xs

  -- An element inside the list, by position.
  pub get_elem?-some_of_lt :
      (xs : List A) (i : ℕ) → i < length xs → (a : A) × (get_elem? xs i ≡ some a)
  get_elem?-some_of_lt [] i h = absurd (omega arith)
  get_elem?-some_of_lt (x ∷ xs) zero h = (x, refl)
  get_elem?-some_of_lt (x ∷ xs) (suc i) h = get_elem?-some_of_lt xs i (omega arith)

module _ {ℓ} {A : Type ℓ} where
  Memᴰ-select_step :
      (p : A → Bool) (a x : A) (xs : List A)
      → (Memᴰ a (select p xs) → (p a ≡ true) × Memᴰ a xs)
      → (b : Bool) → p x ≡ b
      → Memᴰ a (if b then x ∷ select p xs else select p xs)
      → (p a ≡ true) × Memᴰ a (x ∷ xs)
  Memᴰ-select_step p a x xs ih true e (Memᴰ.head q) = (rw q e, Memᴰ.head q)
  Memᴰ-select_step p a x xs ih true e (Memᴰ.tail t) = let (u, v) = ih t in (u, Memᴰ.tail v)
  Memᴰ-select_step p a x xs ih false e t = let (u, v) = ih t in (u, Memᴰ.tail v)

  pub select-nil : (p : A → Bool) (xs : List A) → select p xs ≡ [] → All (λ x. p x ≡ false) xs
  select-nil p [] h = tt
  select-nil p (x ∷ xs) h = (ground arith, select-nil p xs (ground arith))

  pub Memᴰ-select :
      (p : A → Bool) (a : A) (xs : List A) → Memᴰ a (select p xs) → (p a ≡ true) × Memᴰ a xs
  Memᴰ-select p a [] h = elim h [ ]
  Memᴰ-select p a (x ∷ xs) h = Memᴰ-select_step p a x xs (Memᴰ-select p a xs) (p x) refl h

  All-of_select_step {κ} :
      (Q : A → Type κ) (p : A → Bool) (x : A) (xs : List A)
      → (All Q (select p xs) → All (λ y. p y ≡ true → Q y) xs)
      → (b : Bool) → p x ≡ b
      → All Q (if b then x ∷ select p xs else select p xs)
      → All (λ y. p y ≡ true → Q y) (x ∷ xs)
  All-of_select_step Q p x xs ih true e h = (λ _. h.0, ih h.1)
  All-of_select_step Q p x xs ih false e h = (λ t. cc, ih h)

  -- What holds of every selected element holds of every element that passes the test.
  pub All-of_select {κ} :
      (Q : A → Type κ) (p : A → Bool) (xs : List A)
      → All Q (select p xs)
      → All (λ x. p x ≡ true → Q x) xs
  All-of_select Q p [] h = tt
  All-of_select Q p (x ∷ xs) h = All-of_select_step Q p x xs (All-of_select Q p xs) (p x) refl h

  pub All-map {κ μ} :
      (P : A → Type κ) (Q : A → Type μ) (xs : List A) → ((x : A) → P x → Q x) → All P xs → All Q xs
  All-map P Q [] f h = tt
  All-map P Q (x ∷ xs) f h = (f x h.0, All-map P Q xs f h.1)

  pub drop-get_elem? :
      (xs : List A) (i : ℕ) {x : A} → get_elem? xs i ≡ some x → drop i xs ≡ x ∷ drop (suc i) xs
  drop-get_elem? [] i h = cc
  drop-get_elem? (y ∷ xs) zero h = ground arith
  drop-get_elem? (y ∷ xs) (suc i) h = drop-get_elem? xs i h

  pub take-append-drop : (n : ℕ) (xs : List A) → take n xs ++ drop n xs ≡ xs
  take-append-drop zero xs = refl
  take-append-drop (suc n) [] = refl
  take-append-drop (suc n) (x ∷ xs) = rw (take-append-drop n xs)

  pub length-drop : (n : ℕ) (xs : List A) → length (drop n xs) ≡ length xs - n
  length-drop zero xs = omega arith
  length-drop (suc n) [] = omega arith
  length-drop (suc n) (x ∷ xs) = omega (arith, length-drop n xs)

  pub take-all : (n : ℕ) (xs : List A) → length xs ≤ n → take n xs ≡ xs
  take-all zero [] h = refl
  take-all zero (x ∷ xs) h = absurd (omega arith)
  take-all (suc n) [] h = refl
  take-all (suc n) (x ∷ xs) h = ap (λ l. x ∷ l) (take-all n xs (omega arith))
