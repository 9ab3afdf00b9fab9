-- ===== src/Util/Plain.antt =====
-- What instance_to_dict returns.
use mathlib.Core.Path.{ap₂}
use polaris_gslb.Prelude.{
  ℕ, zero, suc, ◌≡◌, refl, ap, ◌∙◌, arith, String, Bool, true, false, ◌&&◌, Bool-cases, inl, inr,
  Option, none, some, if◌then◌else◌,
}
use polaris_gslb.Prelude.Eq.{◌==◌, string_eq}
use polaris_gslb.Prelude.Dict.{map_option}
use polaris_gslb.Util.{
  Leaf, int, float, complex, bool, str, Obj, leaf, dict, list, tuple, instance', opaque, Items, nil,
  cons, Fields, end, field, Attributes, none_left, attribute, is_private, instance_to_dict,
  convert_items, convert_dict, convert_attributes,
}

-- There are only numbers, bools, strings, dictionaries and lists in it.
mutual
  pub IsPlain : Obj → Type 0
  IsPlain (leaf l) = Unit
  IsPlain (dict fs) = HasPlainValues fs
  IsPlain (list xs) = HasPlainItems xs
  IsPlain (tuple xs) = ⊥
  IsPlain (instance' fs) = ⊥
  IsPlain (opaque text) = ⊥

  pub HasPlainItems : Items → Type 0
  HasPlainItems nil = Unit
  HasPlainItems (cons x xs) = IsPlain x × HasPlainItems xs

  pub HasPlainValues : Fields → Type 0
  HasPlainValues end = Unit
  HasPlainValues (field k v fs) = IsPlain v × HasPlainValues fs

mutual
  unfolding instance_to_dict IsPlain

  instance_to_dict-IsPlain : (b : Bool) (x : Obj) → IsPlain (instance_to_dict b x)
  instance_to_dict-IsPlain b (leaf l) = tt
  instance_to_dict-IsPlain b (dict fs) = convert_dict-HasPlainValues b fs
  instance_to_dict-IsPlain b (list xs) = convert_items-HasPlainItems b xs
  instance_to_dict-IsPlain b (tuple xs) = convert_items-HasPlainItems b xs
  instance_to_dict-IsPlain b (instance' fs) = convert_attributes-HasPlainValues b fs
  instance_to_dict-IsPlain b (opaque text) = tt

  convert_items-HasPlainItems : (b : Bool) (xs : Items) → HasPlainItems (convert_items b xs)
  convert_items-HasPlainItems b nil = tt
  convert_items-HasPlainItems b (cons x xs) =
      (instance_to_dict-IsPlain b x, convert_items-HasPlainItems b xs)

  convert_dict-HasPlainValues : (b : Bool) (fs : Fields) → HasPlainValues (convert_dict b fs)
  convert_dict-HasPlainValues b end = tt
  convert_dict-HasPlainValues b (field k v fs) =
      (instance_to_dict-IsPlain b v, convert_dict-HasPlainValues b fs)

  convert_attributes-HasPlainValues :
      (b : Bool) (fs : Attributes) → HasPlainValues (convert_attributes b fs)
  convert_attributes-HasPlainValues b none_left = tt
  convert_attributes-HasPlainValues b (attribute k v fs) = elim (Bool-cases (b && is_private k)) [
    | inl skipped ↦ rw skipped (convert_attributes-HasPlainValues b fs)
    | inr kept ↦ rw kept (instance_to_dict-IsPlain b v, convert_attributes-HasPlainValues b fs)
  ]

mutual
  unfolding instance_to_dict IsPlain

  plain_kept : (b : Bool) (x : Obj) → IsPlain x → instance_to_dict b x ≡ x
  plain_kept b (leaf l) h = refl
  plain_kept b (dict fs) h = ap dict (values_kept b fs h)
  plain_kept b (list xs) h = ap list (items_kept b xs h)
  plain_kept b (tuple xs) h = absurd h
  plain_kept b (instance' fs) h = absurd h
  plain_kept b (opaque text) h = absurd h

  items_kept : (b : Bool) (xs : Items) → HasPlainItems xs → convert_items b xs ≡ xs
  items_kept b nil h = refl
  items_kept b (cons x xs) (p, h) = ap₂ cons (plain_kept b x p) (items_kept b xs h)

  values_kept : (b : Bool) (fs : Fields) → HasPlainValues fs → convert_dict b fs ≡ fs
  values_kept b end h = refl
  values_kept b (field k v fs) (p, h) = ap₂ (field k) (plain_kept b v p) (values_kept b fs h)

-- The items of a list, the entries of a dictionary, and the attributes of an instance.
abbrev pub item : Items → ℕ → Option Obj
item nil i = none
item (cons x xs) zero = some x
item (cons x xs) (suc i) = item xs i

abbrev pub entry : Fields → ℕ → Option (Obj × Obj)
entry end i = none
entry (field k v fs) zero = some (k, v)
entry (field k v fs) (suc i) = entry fs i

abbrev pub attribute_of : String → Attributes → Option Obj
attribute_of k none_left = none
attribute_of k (attribute j v fs) = if j == k then some v else attribute_of k fs

-- This key of a dictionary is the string k.
abbrev pub names_leaf : String → Leaf → Bool
names_leaf k (int n) = false
names_leaf k (float n) = false
names_leaf k (complex re im) = false
names_leaf k (bool b) = false
names_leaf k (str j) = j == k

abbrev pub names : String → Obj → Bool
names k (leaf l) = names_leaf k l
names k (dict fs) = false
names k (list xs) = false
names k (tuple xs) = false
names k (instance' fs) = false
names k (opaque text) = false

abbrev pub value_of : String → Fields → Option Obj
value_of k end = none
value_of k (field j v fs) = if names k j then some v else value_of k fs

abbrev pub fields_of : Obj → Fields
fields_of (leaf l) = end
fields_of (dict fs) = fs
fields_of (list xs) = end
fields_of (tuple xs) = end
fields_of (instance' fs) = end
fields_of (opaque text) = end

abbrev pub items_of : Obj → Items
items_of (leaf l) = nil
items_of (dict fs) = nil
items_of (list xs) = xs
items_of (tuple xs) = nil
items_of (instance' fs) = nil
items_of (opaque text) = nil

-- What is in the conversion y of x: a number, a bool or a string as it is; under the same keys and at
-- the same places, the conversions of what x holds; under the name of each attribute the conversion
-- of its value, but nothing under a private one if those are passed over; the str() of any other.
abbrev pub IsConverted : Bool → Obj → Obj → Type 0
IsConverted b (leaf l) y = y ≡ leaf l
IsConverted b (dict fs) y =
    (i : ℕ) → entry (fields_of y) i ≡ map_option (λ e. (e.0, instance_to_dict b e.1)) (entry fs i)
IsConverted b (list xs) y =
    (i : ℕ) → item (items_of y) i ≡ map_option (instance_to_dict b) (item xs i)
IsConverted b (tuple xs) y =
    (i : ℕ) → item (items_of y) i ≡ map_option (instance_to_dict b) (item xs i)
IsConverted b (instance' fs) y =
    (k : String)
    → value_of k (fields_of y)
      ≡ (if b && is_private k then none else map_option (instance_to_dict b) (attribute_of k fs))
IsConverted b (opaque text) y = y ≡ leaf (str text)

entry-convert_dict :
    (b : Bool) (fs : Fields) (i : ℕ)
    → entry (convert_dict b fs) i ≡ map_option (λ e. (e.0, instance_to_dict b e.1)) (entry fs i)
unfolding instance_to_dict
entry-convert_dict b end i = refl
entry-convert_dict b (field k v fs) zero = refl
entry-convert_dict b (field k v fs) (suc i) = entry-convert_dict b fs i

item-convert_items :
    (b : Bool) (xs : Items) (i : ℕ)
    → item (convert_items b xs) i ≡ map_option (instance_to_dict b) (item xs i)
unfolding instance_to_dict
item-convert_items b nil i = refl
item-convert_items b (cons x xs) zero = refl
item-convert_items b (cons x xs) (suc i) = item-convert_items b xs i

attribute_named :
    (b : Bool) (j k : String) (v : Obj) (fs : Attributes)
    → value_of k (convert_attributes b fs)
      ≡ (if b && is_private k then none else map_option (instance_to_dict b) (attribute_of k fs))
    → value_of k (convert_attributes b (attribute j v fs)) ≡ (
        if b && is_private k
        then none
        else map_option (instance_to_dict b) (attribute_of k (attribute j v fs)))
unfolding instance_to_dict
attribute_named b j k v fs h = elim (Bool-cases (j == k)) [
  | inl same ↦
      let j_is_k = (string_eq.beq_iff j k).0 same in
      elim (Bool-cases (b && is_private k)) [
        | inl skipped ↦
            let skipped' : (b && is_private j) ≡ true =
              ap (λ x. b && is_private x) j_is_k ∙ skipped in
            rw skipped' (h ∙ rw skipped refl)
        | inr kept ↦
            let kept' : (b && is_private j) ≡ false = ap (λ x. b && is_private x) j_is_k ∙ kept in
            rw (kept', kept, same) refl
      ]
  | inr other ↦ elim (Bool-cases (b && is_private j)) [
    | inl skipped ↦ rw (skipped, other) h
    | inr kept ↦ rw (kept, other) h
  ]
]

value_of-convert_attributes :
    (b : Bool) (k : String) (fs : Attributes)
    → value_of k (convert_attributes b fs)
      ≡ (if b && is_private k then none else map_option (instance_to_dict b) (attribute_of k fs))
unfolding instance_to_dict
value_of-convert_attributes b k none_left = ground arith
value_of-convert_attributes b k (attribute j v fs) =
    attribute_named b j k v fs (value_of-convert_attributes b k fs)

instance_to_dict-IsConverted : (b : Bool) (x : Obj) → IsConverted b x (instance_to_dict b x)
unfolding instance_to_dict
instance_to_dict-IsConverted b (leaf l) = refl
instance_to_dict-IsConverted b (dict fs) = entry-convert_dict b fs
instance_to_dict-IsConverted b (list xs) = item-convert_items b xs
instance_to_dict-IsConverted b (tuple xs) = item-convert_items b xs
instance_to_dict-IsConverted b (instance' fs) = λ k. value_of-convert_attributes b k fs
instance_to_dict-IsConverted b (opaque text) = refl

-- The result of instance_to_dict is made of numbers, bools, strings, and dictionaries and lists whose
-- values and items are such, and another call leaves it as it is. It holds the conversion of all that
-- the object holds, at the same places, under the same keys and under the names of the attributes,
-- but for the private ones if these are passed over.
pub instance_to_dict-idempotent :
    (b c : Bool) (x : Obj)
    → IsPlain (instance_to_dict b x)
      × (instance_to_dict c (instance_to_dict b x) ≡ instance_to_dict b x)
      × IsConverted b x (instance_to_dict b x)
instance_to_dict-idempotent b c x = (
  instance_to_dict-IsPlain b x,
  plain_kept c (instance_to_dict b x) (instance_to_dict-IsPlain b x),
  instance_to_dict-IsConverted b x,
)
