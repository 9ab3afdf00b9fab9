-- ===== src/Pool/Tables.antt =====
-- The loops of `to_dist_dict` against the description of what is served.
use polaris_gslb.Prelude.{
  ◌+◌, ◌≡◌, refl, Bool, true, false, ◌&&◌, Option, none, some, List, [], ◌∷◌, ◌++◌, arith,
  append-nil, append_assoc, replicate, select, length, if◌then◌else◌, All,
}
use polaris_gslb.Prelude.Eq.{◌==◌, option_eq, string_eq, eq_refl}
use polaris_gslb.Prelude.Dict.{Dict, lookup, modify, lookup-modify, value_or, lookup-modify_default}
use polaris_gslb.Pool.{Member, LbMethod, wrr, twrr, fogroup, Fallback, any, refuse}
use polaris_gslb.Pool.Dist.{
  TableName, default_name, Table, empty_table, add_member, add_regional, is_skipped, up_tables,
  down_tables,
}
use polaris_gslb.Pool.Served.{is_serving, served_up, served_down, weighted}

abbrev pub Tables : Type 0
Tables = Dict TableName Table

-- What a table becomes when members are added to it one by one.
abbrev pub grow : List Member → Option Table → Option Table
grow [] o = o
grow (m ∷ ms) o = grow ms (some (add_member m (value_or o empty_table)))

abbrev is_twrr : LbMethod → Bool
is_twrr twrr = true
is_twrr _ = false

is_skipped-eq : (m : Member) → is_skipped m ≡ (if is_serving m then false else true)
unfolding is_skipped
is_skipped-eq m = ground arith

lookup-add_regional :
    (lb : LbMethod) (m : Member) (tables : Tables) (name : TableName)
    → lookup name (add_regional lb m tables) ≡ (
        if is_twrr lb && (m.region == name)
        then some (add_member m (value_or (lookup name tables) empty_table))
        else lookup name tables)
unfolding add_regional
lookup-add_regional twrr m tables name =
    lookup-modify_default m.region name empty_table (add_member m) tables
lookup-add_regional _ m tables name = refl

-- The `_default` table of an UP pool grows by the served members.
pub lookup-up_tables :
    (lb : LbMethod) (ms : List Member) (tables : Tables) (t : Table)
    → All (λ m. (m.region == default_name) ≡ false) ms
    → lookup default_name tables ≡ some t
    → lookup default_name (up_tables lb ms tables) ≡ grow (served_up lb ms) (some t)
unfolding up_tables
lookup-up_tables fogroup [] tables t apart h = h
lookup-up_tables _ [] tables t apart h = h
lookup-up_tables lb (m ∷ ms) tables t apart h =
    let defaults = modify default_name (add_member m) tables in
    ground (
      arith,
      is_skipped-eq m,
      lookup-modify default_name default_name (add_member m) tables,
      eq_refl default_name,
      lookup-add_regional lb m defaults default_name,
      lookup-up_tables lb ms tables t apart.1 h,
      lookup-up_tables lb ms (add_regional lb m defaults) (add_member m t) apart.1,
    )

-- The members that a regional table is built of.
abbrev pub regional : LbMethod → TableName → List Member → List Member
regional lb name ms =
    if is_twrr lb then select (λ m. m.region == name) (select is_serving ms) else []

-- A regional table of an UP pool grows by the serving members of its region.
pub lookup-up_tables_region :
    (lb : LbMethod) (ms : List Member) (tables : Tables) (name : TableName)
    → (default_name == name) ≡ false
    → lookup name (up_tables lb ms tables) ≡ grow (regional lb name ms) (lookup name tables)
unfolding up_tables
lookup-up_tables_region fogroup [] tables name other = refl
lookup-up_tables_region twrr [] tables name other = refl
lookup-up_tables_region wrr [] tables name other = refl
lookup-up_tables_region lb (m ∷ ms) tables name other =
    let defaults = modify default_name (add_member m) tables in
    ground (
      arith,
      is_skipped-eq m,
      lookup-modify default_name name (add_member m) tables,
      lookup-add_regional lb m defaults name,
      lookup-up_tables_region lb ms tables name other,
      lookup-up_tables_region lb ms (add_regional lb m defaults) name other,
    )

-- The `_default` table of a DOWN pool grows by the members that the fallback serves.
pub lookup-down_tables :
    (fb : Fallback) (ms : List Member) (tables : Tables) (t : Table)
    → lookup default_name tables ≡ some t
    → lookup default_name (down_tables fb ms tables) ≡ grow (served_down fb ms) (some t)
unfolding down_tables
lookup-down_tables any [] tables t h = h
lookup-down_tables refuse [] tables t h = h
lookup-down_tables fb (m ∷ ms) tables t h =
    let defaults = modify default_name (add_member m) tables in
    ground (
      arith,
      lookup-modify default_name default_name (add_member m) tables,
      eq_refl default_name,
      lookup-down_tables fb ms tables t h,
      lookup-down_tables fb ms defaults (add_member m t),
    )

-- A DOWN pool has no regional table.
pub lookup-down_tables_region :
    (fb : Fallback) (ms : List Member) (tables : Tables) (name : TableName)
    → (default_name == name) ≡ false
    → lookup name (down_tables fb ms tables) ≡ lookup name tables
unfolding down_tables
lookup-down_tables_region fb [] tables name other = refl
lookup-down_tables_region fb (m ∷ ms) tables name other =
    let defaults = modify default_name (add_member m) tables in
    ground (
      arith,
      lookup-modify default_name name (add_member m) tables,
      lookup-down_tables_region fb ms tables name other,
      lookup-down_tables_region fb ms defaults name other,
    )

-- A table that has grown: its rotation and its count.
pub grow-some :
    (ms : List Member) (t : Table)
    → grow ms (some t)
      ≡ some (record t {
        rotation = t.rotation ++ weighted ms;
        num_unique_addrs = t.num_unique_addrs + length ms;
      })
unfolding weighted add_member
grow-some [] t = ground (arith, append-nil t.rotation)
grow-some (m ∷ ms) t = ground (
  arith,
  grow-some ms (add_member m t),
  append_assoc t.rotation (replicate m.weight m.ip) (weighted ms),
)

-- A table that has grown from nothing is there exactly if it has a member.
pub grow-none :
    (m : Member) (ms : List Member)
    → grow (m ∷ ms) none
      ≡ some
          (record { rotation = weighted (m ∷ ms); num_unique_addrs = length (m ∷ ms); index = 0 })
unfolding weighted add_member
grow-none m ms = ground (arith, grow-some ms (add_member m empty_table))
