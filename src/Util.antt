-- ===== src/Util.antt =====
-- polaris_health/util/__init__.py: instance_to_dict, on the objects that it may meet.
pub mod Plain
use Prim.Native.Char.{Char, code}
use Prim.Native.String.{[], ◌∷◌}
use polaris_gslb.Prelude.{ℕ, String, Bool, true, false, ◌&&◌, eqb, if◌then◌else◌}
use polaris_gslb.Prelude.Int.{ℤ}

pub data Leaf : Type 0 where
  int float : ℤ → Leaf
  -- its real and its imaginary part
  complex : ℤ → ℤ → Leaf
  bool : Bool → Leaf
  str : String → Leaf

-- An object: a number, a bool or a str; a dictionary, with any objects as keys; a list or a tuple of
-- objects; an instance with its `__dict__`, by the names of its attributes; or an object that has
-- none, such as None, with what str() makes of it.
mutual
  pub data Obj : Type 0 where
    leaf : Leaf → Obj
    dict : Fields → Obj
    list tuple : Items → Obj
    instance' : Attributes → Obj
    opaque : String → Obj

  pub data Items : Type 0 where
    nil : Items
    cons : Obj → Items → Items

  pub data Fields : Type 0 where
    end : Fields
    field : Obj → Obj → Fields → Fields

  pub data Attributes : Type 0 where
    none_left : Attributes
    attribute : String → Obj → Attributes → Attributes

-- k.startswith("_")
abbrev pub is_private : String → Bool
is_private [] = false
is_private (c ∷ s) = eqb (code c) 95

unfoldable mutual
  pub instance_to_dict : Bool → Obj → Obj
  instance_to_dict ignore_private (leaf l) = leaf l
  instance_to_dict ignore_private (dict fs) = dict (convert_dict ignore_private fs)
  instance_to_dict ignore_private (list xs) = list (convert_items ignore_private xs)
  instance_to_dict ignore_private (tuple xs) = list (convert_items ignore_private xs)
  instance_to_dict ignore_private (instance' fs) = dict (convert_attributes ignore_private fs)
  instance_to_dict ignore_private (opaque text) = leaf (str text)

  pub convert_items : Bool → Items → Items
  convert_items ignore_private nil = nil
  convert_items ignore_private (cons x xs) =
      cons (instance_to_dict ignore_private x) (convert_items ignore_private xs)

  -- the values of a dictionary
  pub convert_dict : Bool → Fields → Fields
  convert_dict ignore_private end = end
  convert_dict ignore_private (field k v fs) =
      field k (instance_to_dict ignore_private v) (convert_dict ignore_private fs)

  -- the attributes of an instance, of which the private ones may be passed over
  pub convert_attributes : Bool → Attributes → Fields
  convert_attributes ignore_private none_left = end
  convert_attributes ignore_private (attribute k v fs) =
      let rest = convert_attributes ignore_private fs in
      if ignore_private && is_private k
      then rest
      else field (leaf (str k)) (instance_to_dict ignore_private v) rest
