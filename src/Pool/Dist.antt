-- ===== src/Pool/Dist.antt =====
-- pool.py, `Pool.to_dist_dict`: the distribution form of a pool. The tables are a dictionary whose
-- keys are `_default` and the regions of members, `None` included. A table gets its index when all
-- tables are built; until then the index here is 0.
use mathlib.Core.List.{Perm}
use polaris_gslb.Prelude.{
  ℕ, ◌+◌, ◌*◌, ◌/◌, ◌^◌, ◌<◌, String, Bool, true, false, not, Option, some, List, [], ◌∷◌, ◌++◌,
  length, replicate, eqb, if◌then◌else◌,
}
use polaris_gslb.Prelude.Eq.{option_eq, string_eq}
use polaris_gslb.Prelude.Dict.{Dict, contains, insert, modify, map_values}
use polaris_gslb.Pool.{
  Member, LbMethod, twrr, fogroup, Fallback, any, refuse, Pool, is_up, pool_status,
}

abbrev pub TableName : Type 0
TableName = Option String

abbrev pub default_name : TableName
default_name = some "_default"

pub record Table : Type 0 where
  pub rotation : List String
  pub num_unique_addrs : ℕ
  pub index : ℕ

abbrev pub empty_table : Table
empty_table = record { rotation = []; num_unique_addrs = 0; index = 0 }

-- the distribution form of a pool
pub record DistPool : Type 0 where
  pub status : Bool
  pub lb_method : LbMethod
  pub fallback : Fallback
  pub max_addrs_returned : ℕ
  pub dist_tables : Dict TableName Table

-- add the member's IP times its weight, and count one more unique address
unfoldable pub add_member : Member → Table → Table
add_member m t = record t {
  rotation = t.rotation ++ replicate m.weight m.ip;
  num_unique_addrs = t.num_unique_addrs + 1;
}

-- add to the regional table, which is created if it does not exist
unfoldable pub add_regional : LbMethod → Member → Dict TableName Table → Dict TableName Table
add_regional twrr m tables =
    modify m.region (add_member m)
      (if contains m.region tables then tables else insert m.region empty_table tables)
add_regional _ m tables = tables

-- the `continue` tests of the loop over an UP pool
unfoldable pub is_skipped : Member → Bool
is_skipped m = if eqb m.weight 0 then true else not (is_up m.status)

abbrev pub is_fogroup : LbMethod → Bool
is_fogroup fogroup = true
is_fogroup _ = false

-- the loop over the members of a pool that is UP
unfoldable pub up_tables : LbMethod → List Member → Dict TableName Table → Dict TableName Table
unfolding is_skipped add_member add_regional
up_tables lb [] tables = tables
up_tables lb (m ∷ ms) tables =
    let passed = up_tables lb ms tables in
    let defaults = modify default_name (add_member m) tables in
    let more = up_tables lb ms (add_regional lb m defaults) in
    if is_skipped m then passed else if is_fogroup lb then defaults else more

abbrev pub is_any : Fallback → Bool
is_any any = true
is_any refuse = false

-- the loop over the members of a pool that is DOWN
unfoldable pub down_tables : Fallback → List Member → Dict TableName Table → Dict TableName Table
unfolding add_member
down_tables fb [] tables = tables
down_tables fb (m ∷ ms) tables = down_tables fb ms (
    if eqb m.weight 0
    then tables
    else if is_any fb
    then modify default_name (add_member m) tables
    else tables)

-- Python's `random` during one call: what `shuffle` does to the rotation of each table, and
-- the number of 2^-53 steps in the value of `random()`, which is below 1.
pub record Rng : Type 0 where
  pub shuffle : TableName → List String → List String
  pub shuffle-perm : (name : TableName) (l : List String) → Perm (shuffle name l) l
  pub random : TableName → ℕ
  pub random-lt : (name : TableName) → random name < 2 ^ 53

-- int(random.random() * n)
unfoldable pub random_index : ℕ → ℕ → ℕ
random_index draw n = draw * n / 2 ^ 53

-- shuffle the rotation and draw the index
unfoldable pub finish_table : Rng → TableName → Table → Table
unfolding random_index
finish_table rng name t =
    let shuffled = rng.shuffle name t.rotation in
    record t { rotation = shuffled; index = random_index (rng.random name) (length shuffled) }

unfoldable pub build_tables : Pool → Dict TableName Table
unfolding pool_status up_tables down_tables
build_tables p =
    let tables : Dict TableName Table = (default_name, empty_table) ∷ [] in
    if pool_status p
    then up_tables p.lb_method p.members tables
    else down_tables p.fallback p.members tables

unfoldable pub to_dist_dict : Rng → Pool → DistPool
unfolding finish_table build_tables
to_dist_dict rng p = record {
  status = pool_status p;
  lb_method = p.lb_method;
  fallback = p.fallback;
  max_addrs_returned = p.max_addrs_returned;
  dist_tables = map_values (finish_table rng) (build_tables p);
}
