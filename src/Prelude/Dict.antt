-- ===== src/Prelude/Dict.antt =====
-- Python's `dict`: an association list in insertion order. An assignment to a key that is there
-- replaces its value in place, and a new key goes to the end.
use mathlib.Core.Path.{◌≡◌, refl, subst}
use mathlib.Core.Bool.{Bool, true, false}
use mathlib.Core.Option.{Option, none, some, some-injective}
use mathlib.Core.List.{Memᴰ, List, [], ◌∷◌, map}
use native.Mathlib.Omega.{arith}
use mathlib.Core.Logic.{inl, inr}
use polaris_gslb.Prelude.Tests.{Bool-cases, if◌then◌else◌}
use polaris_gslb.Prelude.Eq.{Eq, ◌==◌}

abbrev pub Dict {ℓ κ} : Type ℓ → Type κ → Type (ℓ ⊔ κ)
Dict K V = List (K × V)

-- The keys in iteration order, and the values in the same order.
abbrev pub keys {ℓ κ} : {K : Type ℓ} {V : Type κ} → Dict K V → List K
keys d = map (λ e. e.0) d

abbrev pub values {ℓ κ} : {K : Type ℓ} {V : Type κ} → Dict K V → List V
values d = map (λ e. e.1) d

-- A new value for every key.
unfoldable pub map_values {ℓ κ μ} :
    {K : Type ℓ} {V : Type κ} {W : Type μ} → (K → V → W) → Dict K V → Dict K W
map_values f [] = []
map_values f ((j, v) ∷ d) = (j, f j v) ∷ map_values f d

abbrev pub AllValues {ℓ κ μ} : {K : Type ℓ} {V : Type κ} → (V → Type μ) → Dict K V → Type μ
AllValues P [] = Unit
AllValues P ((j, v) ∷ d) = P v × AllValues P d

abbrev pub is_some {ℓ} : {A : Type ℓ} → Option A → Bool
is_some none = false
is_some (some a) = true

module _ {ℓ κ} {K : Type ℓ} {V : Type κ} ⦃e : Eq K⦄ where
  -- d.get(k)
  unfoldable pub lookup : K → Dict K V → Option V
  lookup k [] = none
  lookup k ((j, v) ∷ d) = if j == k then some v else lookup k d

  -- k in d
  unfoldable pub contains : K → Dict K V → Bool
  contains k [] = false
  contains k ((j, v) ∷ d) = if j == k then true else contains k d

  -- d[k] = v
  unfoldable pub insert : K → V → Dict K V → Dict K V
  insert k v [] = (k, v) ∷ []
  insert k v ((j, w) ∷ d) = if j == k then (k, v) ∷ d else (j, w) ∷ insert k v d

  -- An update of the value at a key that is there, such as d[k]['x'] += 1.
  unfoldable pub modify : K → (V → V) → Dict K V → Dict K V
  modify k f [] = []
  modify k f ((j, v) ∷ d) = if j == k then (j, f v) ∷ d else (j, v) ∷ modify k f d

  pub lookup-insert :
      (k j : K) (v : V) (d : Dict K V)
      → lookup j (insert k v d) ≡ (if k == j then some v else lookup j d)
  unfolding lookup insert
  lookup-insert k j v [] = refl
  lookup-insert k j v ((i, w) ∷ d) =
      ground (arith, e.beq_iff k j, e.beq_iff i k, e.beq_iff i j, lookup-insert k j v d)

  pub contains-insert :
      (k j : K) (v : V) (d : Dict K V)
      → contains j (insert k v d) ≡ (if k == j then true else contains j d)
  unfolding contains insert
  contains-insert k j v [] = refl
  contains-insert k j v ((i, w) ∷ d) =
      ground (arith, e.beq_iff k j, e.beq_iff i k, e.beq_iff i j, contains-insert k j v d)

  -- A key is in the dictionary exactly when a lookup finds a value.
  pub contains-eq-is_some : (k : K) (d : Dict K V) → contains k d ≡ is_some (lookup k d)
  unfolding lookup contains
  contains-eq-is_some k [] = refl
  contains-eq-is_some k ((j, w) ∷ d) = ground (arith, contains-eq-is_some k d)

  pub lookup-some_of_contains :
      (k : K) (d : Dict K V) → contains k d ≡ true → (v : V) × (lookup k d ≡ some v)
  lookup-some_of_contains k d h = ground (arith, contains-eq-is_some k d)

  pub lookup-none_of_contains : (k : K) (d : Dict K V) → contains k d ≡ false → lookup k d ≡ none
  lookup-none_of_contains k d h = ground (arith, contains-eq-is_some k d)

  pub contains_of_lookup :
      (k : K) (d : Dict K V) {v : V} → lookup k d ≡ some v → contains k d ≡ true
  contains_of_lookup k d h = ground (arith, contains-eq-is_some k d)

abbrev pub map_option {ℓ κ} : {A : Type ℓ} {B : Type κ} → (A → B) → Option A → Option B
map_option f none = none
map_option f (some a) = some (f a)

-- What a lookup finds after every value has changed.
pub lookup-map_values {ℓ κ μ} :
    {K : Type ℓ} {V : Type κ} {W : Type μ} ⦃e : Eq K⦄ (f : K → V → W) (k : K) (d : Dict K V)
    → lookup k (map_values f d) ≡ map_option (f k) (lookup k d)
unfolding lookup map_values
lookup-map_values f k [] = refl
lookup-map_values ⦃e⦄ f k ((j, v) ∷ d) = ground (arith, e.beq_iff j k, lookup-map_values f k d)

abbrev pub value_or {ℓ} : {A : Type ℓ} → Option A → A → A
value_or none v = v
value_or (some w) v = w

module _ {ℓ κ} {K : Type ℓ} {V : Type κ} ⦃e : Eq K⦄ where
  pub lookup-modify :
      (k j : K) (f : V → V) (d : Dict K V)
      → lookup j (modify k f d) ≡ (if k == j then map_option f (lookup j d) else lookup j d)
  unfolding lookup modify
  lookup-modify k j f [] = ground arith
  lookup-modify k j f ((i, w) ∷ d) =
      ground (arith, e.beq_iff k j, e.beq_iff i k, e.beq_iff i j, lookup-modify k j f d)

  pub contains-modify :
      (k j : K) (f : V → V) (d : Dict K V) → contains j (modify k f d) ≡ contains j d
  contains-modify k j f d =
      ground (
        arith,
        contains-eq-is_some j (modify k f d),
        contains-eq-is_some j d,
        lookup-modify k j f d,
      )

  -- d.setdefault(k, v), then an update of the value.
  pub lookup-modify_default :
      (k j : K) (v : V) (f : V → V) (d : Dict K V)
      → lookup j (modify k f (if contains k d then d else insert k v d))
        ≡ (if k == j then some (f (value_or (lookup j d) v)) else lookup j d)
  lookup-modify_default k j v f d = ground (
    arith,
    contains-eq-is_some k d,
    e.beq_iff k j,
    lookup-modify k j f d,
    lookup-modify k j f (insert k v d),
    lookup-insert k j v d,
  )

  -- Every listed key is found.
  pub lookup-some_of_Memᴰ :
      (k : K) (d : Dict K V) → Memᴰ k (keys d) → (v : V) × (lookup k d ≡ some v)
  unfolding lookup
  lookup-some_of_Memᴰ k [] h = elim h [ ]
  lookup-some_of_Memᴰ k ((j, v) ∷ d) (Memᴰ.head q) = (v, ground (arith, e.beq_iff j k))
  lookup-some_of_Memᴰ k ((j, v) ∷ d) (Memᴰ.tail t) =
      let (w, found) = lookup-some_of_Memᴰ k d t in (if j == k then v else w, ground arith)

  -- A predicate of the values, of the value that a lookup finds and of an updated dictionary.
  pub AllValues-lookup {μ} :
      (P : V → Type μ) (k : K) (d : Dict K V) {v : V} → AllValues P d → lookup k d ≡ some v → P v
  unfolding lookup
  AllValues-lookup P k [] h e = cc
  AllValues-lookup P k ((j, w) ∷ d) {v} h e = elim (Bool-cases (j == k)) [
    | inl same ↦ subst P (some-injective w v (rw same at e)) h.0
    | inr other ↦ AllValues-lookup P k d h.1 (rw other at e)
  ]

  pub AllValues-modify {μ} :
      (P : V → Type μ) (k : K) (f : V → V) (d : Dict K V)
      → ((v : V) → P v → P (f v))
      → AllValues P d
      → AllValues P (modify k f d)
  unfolding modify
  AllValues-modify P k f [] h all = tt
  AllValues-modify P k f ((j, w) ∷ d) h all = elim (Bool-cases (j == k)) [
    | inl same ↦ rw same (h w all.0, all.1)
    | inr other ↦ rw other (all.0, AllValues-modify P k f d h all.1)
  ]

  pub AllValues-insert {μ} :
      (P : V → Type μ) (k : K) (v : V) (d : Dict K V)
      → P v
      → AllValues P d
      → AllValues P (insert k v d)
  unfolding insert
  AllValues-insert P k v [] h all = (h, tt)
  AllValues-insert P k v ((j, w) ∷ d) h all = elim (Bool-cases (j == k)) [
    | inl same ↦ rw same (h, all.1)
    | inr other ↦ rw other (all.0, AllValues-insert P k v d h all.1)
  ]

pub AllValues-map_values {ℓ κ λ' μ ν} :
    {K : Type ℓ} {V : Type κ} {W : Type λ'} (P : V → Type μ) (Q : W → Type ν) (f : K → V → W)
    (d : Dict K V)
    → ((k : K) (v : V) → P v → Q (f k v))
    → AllValues P d
    → AllValues Q (map_values f d)
unfolding map_values
AllValues-map_values P Q f [] h all = tt
AllValues-map_values P Q f ((k, v) ∷ d) h all = (h k v all.0, AllValues-map_values P Q f d h all.1)

pub AllValues-mono {ℓ κ μ ν} :
    {K : Type ℓ} {V : Type κ} (P : V → Type μ) (Q : V → Type ν) (d : Dict K V)
    → ((v : V) → P v → Q v)
    → AllValues P d
    → AllValues Q d
AllValues-mono P Q [] h all = tt
AllValues-mono P Q ((k, v) ∷ d) h all = (h v all.0, AllValues-mono P Q d h all.1)

pub contains-map_values {ℓ κ μ} :
    {K : Type ℓ} {V : Type κ} {W : Type μ} ⦃e : Eq K⦄ (f : K → V → W) (k : K) (d : Dict K V)
    → contains k (map_values f d) ≡ contains k d
unfolding contains map_values
contains-map_values f k [] = refl
contains-map_values f k ((j, v) ∷ d) = ground (arith, contains-map_values f k d)

pub ruleset dict_laws =
    (lookup-insert, lookup-modify, contains-modify, contains-insert, lookup-map_values)
