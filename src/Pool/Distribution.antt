-- ===== src/Pool/Distribution.antt =====
-- What `to_dist_dict` publishes, against the members that the pool serves.
use mathlib.Core.List.{Perm}
use polaris_gslb.Prelude.{
  ℕ, ◌+◌, ◌^◌, ◌<◌, ◌≡◌, refl, ◌∙◌, ap, subst, sym, false, Option, none, some, List, [], ◌∷◌, arith,
  length, if◌then◌else◌, All, Bool-cases, inl, inr,
}
use polaris_gslb.Prelude.Eq.{◌==◌, option_eq, string_eq}
use polaris_gslb.Prelude.Dict.{lookup, lookup-map_values, map_option}
use polaris_gslb.Pool.{Member, Pool, pool_status}
use polaris_gslb.Pool.Dist.{
  TableName, default_name, Table, empty_table, Rng, random_index, finish_table, build_tables,
  to_dist_dict,
}
use polaris_gslb.Pool.Served.{served, weighted}
use polaris_gslb.Pool.Tables.{
  Tables, grow, grow-some, grow-none, regional, lookup-up_tables, lookup-up_tables_region,
  lookup-down_tables, lookup-down_tables_region,
}

-- No member has the region `_default`. (config_to_map refuses that region.)
abbrev pub HasRegionsApart : Pool → Type 0
HasRegionsApart p = All (λ m. (m.region == default_name) ≡ false) p.members

-- the members that the table of a region serves
unfoldable pub served_in : Pool → TableName → List Member
unfolding pool_status
served_in p name = if pool_status p then regional p.lb_method name p.members else []

-- A table that serves the members `ms`, each as often as its weight says, in some order, from a
-- place inside the rotation.
pub record Serves (ms : List Member) (t : Table) : Type 0 where
  pub rotates : Perm t.rotation (weighted ms)
  pub counts : t.num_unique_addrs ≡ length ms
  pub inside : 0 < length t.rotation → t.index < length t.rotation

pub random_index-lt : (draw n : ℕ) → draw < 2 ^ 53 → 0 < n → random_index draw n < n
unfolding random_index
random_index-lt draw n h pos = grind arith

finish_table-Serves :
    (rng : Rng) (name : TableName) (ms : List Member) (t : Table)
    → t.rotation ≡ weighted ms
    → t.num_unique_addrs ≡ length ms
    → Serves ms (finish_table rng name t)
unfolding finish_table
finish_table-Serves rng name ms t e n = record {
  rotates = subst (Perm (rng.shuffle name t.rotation)) e (rng.shuffle-perm name t.rotation);
  counts = n;
  inside = λ pos. random_index-lt (rng.random name) _ (rng.random-lt name) pos;
}

start : Tables
start = (default_name, empty_table) ∷ []

-- The unshuffled table of a name, or `none`.
built-default :
    (p : Pool)
    → HasRegionsApart p
    → lookup default_name (build_tables p) ≡ grow (served p) (some empty_table)
unfolding build_tables served lookup start
built-default p apart = elim (Bool-cases (pool_status p)) [
  | inl up ↦ rw up (lookup-up_tables p.lb_method p.members start empty_table apart refl)
  | inr down ↦ rw down (lookup-down_tables p.fallback p.members start empty_table refl)
]

lookup-start : (name : TableName) → (default_name == name) ≡ false → lookup name start ≡ none
unfolding start lookup
lookup-start name other = rw other

built-region :
    (p : Pool) (name : TableName)
    → (default_name == name) ≡ false
    → lookup name (build_tables p) ≡ grow (served_in p name) none
unfolding build_tables served_in start
built-region p name other = elim (Bool-cases (pool_status p)) [
  | inl up ↦ rw up (
      lookup-up_tables_region p.lb_method p.members start name other
      ∙ ap (grow (regional p.lb_method name p.members)) (lookup-start name other))
  | inr down ↦
      rw down
        (lookup-down_tables_region p.fallback p.members start name other ∙ lookup-start name other)
]

-- The `_default` table is published, and serves the members that the pool serves, each as often as
-- its weight says, if no member has the region `_default`.
pub to_dist_dict-default :
    (rng : Rng) (p : Pool)
    → HasRegionsApart p
    → (t : Table) × (lookup default_name (to_dist_dict rng p).dist_tables ≡ some t)
      × Serves (served p) t
unfolding to_dist_dict
to_dist_dict-default rng p apart =
    let built : lookup default_name (build_tables p) ≡ _ =
      built-default p apart ∙ grow-some (served p) empty_table in
    (
      _,
      lookup-map_values (finish_table rng) default_name (build_tables p)
          ∙ ap (map_option (finish_table rng default_name)) built,
      finish_table-Serves rng default_name (served p)
          (record {
            rotation = weighted (served p);
            num_unique_addrs = 0 + length (served p);
            index = 0;
          })
          refl (omega arith),
    )

-- The table of the members `ms`, absent if there are none.
abbrev pub ServesOrAbsent : List Member → Option Table → Type 0
ServesOrAbsent [] o = o ≡ none
ServesOrAbsent (m ∷ ms) o = (t : Table) × (o ≡ some t) × Serves (m ∷ ms) t

finished :
    (rng : Rng) (name : TableName) (ms : List Member)
    → ServesOrAbsent ms (map_option (finish_table rng name) (grow ms none))
finished rng name [] = refl
finished rng name (m ∷ ms) = (
  _,
  ap (map_option (finish_table rng name)) (grow-none m ms),
  finish_table-Serves rng name (m ∷ ms) _ refl refl,
)

-- A table of another name is published exactly if the pool is UP, uses twrr and has a serving
-- member of that region, and it serves those members, each as often as its weight says.
pub to_dist_dict-region :
    (rng : Rng) (p : Pool) (name : TableName)
    → (default_name == name) ≡ false
    → ServesOrAbsent (served_in p name) (lookup name (to_dist_dict rng p).dist_tables)
unfolding to_dist_dict
to_dist_dict-region rng p name other =
    subst (ServesOrAbsent (served_in p name))
      (sym (
        lookup-map_values (finish_table rng) name (build_tables p)
        ∙ ap (map_option (finish_table rng name)) (built-region p name other)))
      (finished rng name (served_in p name))
