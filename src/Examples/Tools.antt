-- ===== src/Examples/Tools.antt =====
-- An object that is converted.
use polaris_gslb.Prelude.{◌≡◌, refl, true, false}
use polaris_gslb.Prelude.Int.{pos}
use polaris_gslb.Util.{
  Obj, leaf, instance', tuple, opaque, Leaf, cons, nil, end, field, none_left, attribute,
  instance_to_dict, dict, list,
}
use polaris_gslb.Util.Plain.{IsPlain, IsConverted, instance_to_dict-idempotent}

-- a member whose status is not determined, with a tuple, and a dictionary with a number as key
abbrev member : Obj
member = instance' (
    attribute "ip" (leaf (Leaf.str "10.1.0.1")) (
      attribute "status" (opaque "None") (
        attribute "_id" (leaf (Leaf.int (pos 0))) (
          attribute "pair" (tuple (cons (leaf (Leaf.bool true)) nil)) (
            attribute "by_id" (dict (field (leaf (Leaf.int (pos 0))) (opaque "None") end))
              none_left)))))

member_converted :
    instance_to_dict true member
    ≡ dict (
        field (leaf (Leaf.str "ip")) (leaf (Leaf.str "10.1.0.1")) (
          field (leaf (Leaf.str "status")) (leaf (Leaf.str "None")) (
            field (leaf (Leaf.str "pair")) (list (cons (leaf (Leaf.bool true)) nil)) (
              field
                (leaf (Leaf.str "by_id"))
                (dict (field (leaf (Leaf.int (pos 0))) (leaf (Leaf.str "None")) end))
                end))))
unfolding instance_to_dict
member_converted = refl

instance_to_dict-idempotent_example :
    IsPlain (instance_to_dict true member)
    × (instance_to_dict false (instance_to_dict true member) ≡ instance_to_dict true member)
    × IsConverted true member (instance_to_dict true member)
instance_to_dict-idempotent_example = instance_to_dict-idempotent true false member
