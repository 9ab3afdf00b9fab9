-- ===== src/Pool/Servable.antt =====
-- Every table that `to_dist_dict` publishes can be served from.
use polaris_gslb.Prelude.{
  ◌≤◌, ◌<◌, ◌≡◌, refl, ◌∙◌, true, false, List, [], ◌∷◌, arith, length, length-append,
  length-replicate, length-perm, replicate, if◌then◌else◌, Bool-cases, inl, inr, eqb,
}
use polaris_gslb.Prelude.Eq.{option_eq, string_eq}
use polaris_gslb.Prelude.Dict.{
  contains, insert, modify, AllValues, AllValues-modify, AllValues-insert, AllValues-map_values,
  contains-modify, contains-insert, contains-map_values,
}
use polaris_gslb.Pool.{Member, Pool, LbMethod, wrr, twrr, fogroup, Fallback, pool_status}
use polaris_gslb.Pool.Dist.{
  TableName, default_name, Table, empty_table, add_member, add_regional, is_skipped, is_fogroup,
  is_any, up_tables, down_tables, Rng, finish_table, build_tables, to_dist_dict,
}
use polaris_gslb.Pool.Tables.{Tables}
use polaris_gslb.Pool.Distribution.{random_index-lt}

-- A table has at least as many places as unique addresses.
abbrev IsFilled : Table → Type 0
IsFilled t = t.num_unique_addrs ≤ length t.rotation

add_member-IsFilled :
    (m : Member) (t : Table) → 0 < m.weight → IsFilled t → IsFilled (add_member m t)
unfolding add_member
add_member-IsFilled m t pos h =
    omega
      (arith, length-append t.rotation (replicate m.weight m.ip), length-replicate m.weight m.ip)

-- The tables of a loop are filled, and one of them is `_default`.
record AreBuilt (tables : Tables) : Type 0 where
  filled : AllValues IsFilled tables
  has_default : contains default_name tables ≡ true

modify-AreBuilt :
    (name : TableName) (m : Member) (tables : Tables)
    → 0 < m.weight
    → AreBuilt tables
    → AreBuilt (modify name (add_member m) tables)
modify-AreBuilt name m tables pos b = record {
  filled =
      AllValues-modify IsFilled name (add_member m) tables (λ t. add_member-IsFilled m t pos)
        b.filled;
  has_default = contains-modify name default_name (add_member m) tables ∙ b.has_default;
}

insert-AreBuilt :
    (name : TableName) (tables : Tables)
    → AreBuilt tables
    → AreBuilt (insert name empty_table tables)
insert-AreBuilt name tables b = record {
  filled = AllValues-insert IsFilled name empty_table tables (omega arith) b.filled;
  has_default = ground (arith, contains-insert name default_name empty_table tables, b.has_default);
}

add_regional-AreBuilt :
    (lb : LbMethod) (m : Member) (tables : Tables)
    → 0 < m.weight
    → AreBuilt tables
    → AreBuilt (add_regional lb m tables)
unfolding add_regional
add_regional-AreBuilt wrr m tables pos b = b
add_regional-AreBuilt fogroup m tables pos b = b
add_regional-AreBuilt twrr m tables pos b =
    modify-AreBuilt m.region m _ pos
      (elim (contains m.region tables)
        as (λ c. AreBuilt (if c then tables else insert m.region empty_table tables)) [
          | true ↦ b
          | false ↦ insert-AreBuilt m.region tables b
        ])

skipped-pos : (m : Member) → is_skipped m ≡ false → 0 < m.weight
unfolding is_skipped
skipped-pos m h = ground arith

up_tables-AreBuilt :
    (lb : LbMethod) (ms : List Member) (tables : Tables)
    → AreBuilt tables
    → AreBuilt (up_tables lb ms tables)
unfolding up_tables
up_tables-AreBuilt lb [] tables b = b
up_tables-AreBuilt lb (m ∷ ms) tables b = elim (Bool-cases (is_skipped m)) [
  | inl skipped ↦ rw skipped (up_tables-AreBuilt lb ms tables b)
  | inr served ↦
      let pos = skipped-pos m served in
      let built = modify-AreBuilt default_name m tables pos b in
      elim (Bool-cases (is_fogroup lb)) [
        | inl first ↦ rw (served, first) built
        | inr more ↦
            rw (served, more)
              (up_tables-AreBuilt lb ms
                (add_regional lb m (modify default_name (add_member m) tables))
                (add_regional-AreBuilt lb m _ pos built))
      ]
]

down_tables-AreBuilt :
    (fb : Fallback) (ms : List Member) (tables : Tables)
    → AreBuilt tables
    → AreBuilt (down_tables fb ms tables)
unfolding down_tables
down_tables-AreBuilt fb [] tables b = b
down_tables-AreBuilt fb (m ∷ ms) tables b = elim (Bool-cases (eqb m.weight 0)) [
  | inl disabled ↦ rw disabled (down_tables-AreBuilt fb ms tables b)
  | inr enabled ↦ elim (Bool-cases (is_any fb)) [
    | inl any ↦
        rw (enabled, any)
          (down_tables-AreBuilt fb ms _ (modify-AreBuilt default_name m tables (ground arith) b))
    | inr refuse ↦ rw (enabled, refuse) (down_tables-AreBuilt fb ms tables b)
  ]
]

build_tables-AreBuilt : (p : Pool) → AreBuilt (build_tables p)
unfolding build_tables contains
build_tables-AreBuilt p =
    let b : AreBuilt ((default_name, empty_table) ∷ []) = record {
      filled = omega arith;
      has_default = refl;
    } in
    elim (Bool-cases (pool_status p)) [
      | inl up ↦ rw up (up_tables-AreBuilt p.lb_method p.members _ b)
      | inr down ↦ rw down (down_tables-AreBuilt p.fallback p.members _ b)
    ]

finish_table-inside :
    (rng : Rng) (name : TableName) (t : Table)
    → IsFilled t
    → 0 < (finish_table rng name t).num_unique_addrs
    → (finish_table rng name t).index < length (finish_table rng name t).rotation
unfolding finish_table
finish_table-inside rng name t h pos =
    random_index-lt (rng.random name) _ (rng.random-lt name)
      (omega (arith, length-perm (rng.shuffle-perm name t.rotation)))

-- A published pool has its `_default` table, and every table of it that has an address to return
-- has its index inside its rotation.
pub to_dist_dict-servable :
    (rng : Rng) (p : Pool)
    → (contains default_name (to_dist_dict rng p).dist_tables ≡ true)
      × AllValues
          (λ t. 0 < t.num_unique_addrs → t.index < length t.rotation)
          (to_dist_dict rng p).dist_tables
unfolding to_dist_dict
to_dist_dict-servable rng p =
    let b = build_tables-AreBuilt p in
    (
      contains-map_values (finish_table rng) default_name (build_tables p) ∙ b.has_default,
      AllValues-map_values IsFilled _ (finish_table rng) (build_tables p) (finish_table-inside rng)
          b.filled,
    )
