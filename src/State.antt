-- ===== src/State.antt =====
-- polaris_health/state: the health state table. Python's tables `_pool_by_id` and `_member_by_id`
-- hold references to the pools and members of `pools`, in its order; here a reference is the
-- position of the object in that order.
pub mod Queue
pub mod Config
pub mod Init
pub mod Publish
pub mod Gets
pub mod Fresh
pub mod Checked
pub mod Converged
use polaris_gslb.Prelude.{
  change_at, ℕ, zero, suc, ◌+◌, ◌-◌, String, Bool, true, false, Option, none, some, List, [], ◌∷◌,
  ◌++◌, length, get_elem?, ltb, if◌then◌else◌,
}
use polaris_gslb.Prelude.Dict.{Dict, values, map_values}
use polaris_gslb.Pool.{Member, Pool}
use polaris_gslb.Pool.Dist
use polaris_gslb.Pool.Dist.{Rng}
use polaris_gslb.GlobalName
use polaris_gslb.GlobalName.{GlobalName}
use polaris_gslb.Published.{DistState}
use Queue.{Item}

pub record State : Type 0 where
  pub pools : Dict String Pool
  pub globalnames : Dict String GlobalName
  pub status_undetermined : List ℕ
  pub pq : List Item

-- the members of all pools, in the order of `_member_by_id`
unfoldable pub all_members : Dict String Pool → List Member
all_members [] = []
all_members ((name, p) ∷ pools) = p.members ++ all_members pools

-- _pool_by_id[i], _member_by_id[i]
unfoldable pub pool_at : Dict String Pool → ℕ → Option Pool
pool_at pools i = get_elem? (values pools) i

unfoldable pub member_at : Dict String Pool → ℕ → Option Member
unfolding all_members
member_at pools i = get_elem? (all_members pools) i

-- a change of the object that _pool_by_id[i] refers to
unfoldable pub change_pool : ℕ → (Pool → Pool) → Dict String Pool → Dict String Pool
change_pool i f [] = []
change_pool zero f ((name, p) ∷ pools) = (name, f p) ∷ pools
change_pool (suc i) f ((name, p) ∷ pools) = (name, p) ∷ change_pool i f pools

-- a change of the object that _member_by_id[i] refers to, seen from its pool
unfoldable pub change_member : ℕ → (Member → Member) → Dict String Pool → Dict String Pool
unfolding change_at
change_member i f [] = []
change_member i f ((name, p) ∷ pools) =
    if ltb i (length p.members)
    then (name, record p { members = change_at i f p.members }) ∷ pools
    else (name, p) ∷ change_member (i - length p.members) f pools

-- the tests of `health_converged`, which drops the members from the front of the list whose
-- status is determined
unfoldable pub drop_determined : Dict String Pool → List ℕ → List ℕ
unfolding member_at
drop_determined pools [] = []
drop_determined pools (i ∷ rest) =
    let dropped = drop_determined pools rest in
    elim (member_at pools i) [
      | none ↦ i ∷ rest
      | some m ↦ elim m.status [ none ↦ i ∷ rest | some b ↦ dropped ]
    ]

abbrev is_nil {ℓ} : {A : Type ℓ} → List A → Bool
is_nil [] = true
is_nil (x ∷ xs) = false

-- the property State.health_converged: the new list, and whether it is empty
unfoldable pub health_converged : State → State × Bool
unfolding drop_determined
health_converged s =
    let rest = drop_determined s.pools s.status_undetermined in
    (record s { status_undetermined = rest }, is_nil rest)

-- State.to_dist_dict, at a time, with the random numbers that each pool draws
unfoldable pub to_dist_dict : ℕ → (String → Rng) → State → DistState
to_dist_dict now rng s = record {
  timestamp = now;
  pools = map_values (λ name p. Dist.to_dist_dict (rng name) p) s.pools;
  globalnames = map_values (λ name g. GlobalName.to_dist_dict g) s.globalnames;
}
