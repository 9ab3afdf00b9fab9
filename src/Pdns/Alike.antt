-- ===== src/Pdns/Alike.antt =====
-- What states that differ in indexes have in common.
use polaris_gslb.Prelude.{
  ◌≡◌, refl, sym, ap, ◌∙◌, String, ◌&&◌, Option, none, some, Bool-cases, inl, inr,
}
use polaris_gslb.Prelude.Eq.{Eq, string_eq, option_eq}
use polaris_gslb.Prelude.Dict.{Dict, lookup, map_values, lookup-map_values, map_option}
use polaris_gslb.Pool.Dist.{TableName, Table, DistPool}
use polaris_gslb.Published.{DistState}
use polaris_gslb.Pdns.Answers.{table_or, is_twrr}
use polaris_gslb.Pdns.Turned.{at_start, pool_at_start, IsTurned}
use polaris_gslb.Pdns.Queries.{table_for}

map_option-some {ℓ κ} :
    {A : Type ℓ} {B : Type κ} (f : A → B) (o : Option A) {b : B}
    → map_option f o ≡ some b
    → (a : A) × (o ≡ some a) × (f a ≡ b)
map_option-some f none h = cc
map_option-some f (some a) {b} h = let same : f a ≡ b = cc h in (a, refl, same)

-- A key of a dictionary that another one agrees with.
lookup_alike {ℓ κ μ} :
    {K : Type ℓ} {V : Type κ} {W : Type μ} ⦃e : Eq K⦄ (f : V → W) (k : K) (d d' : Dict K V) {v : V}
    → map_values (λ name. f) d' ≡ map_values (λ name. f) d
    → lookup k d ≡ some v
    → (v' : V) × (lookup k d' ≡ some v') × (f v' ≡ f v)
lookup_alike f k d d' same found = map_option-some f (lookup k d') (
    sym (lookup-map_values (λ name. f) k d')
    ∙ (ap (lookup k) same ∙ (lookup-map_values (λ name. f) k d ∙ ap (map_option f) found)))

pub IsTurned-globalnames : (st st' : DistState) → IsTurned st st' → st'.globalnames ≡ st.globalnames
IsTurned-globalnames st st' turned = ap (λ x. x.globalnames) turned

pub IsTurned-pool :
    (k : String) (st st' : DistState) {p : DistPool}
    → IsTurned st st'
    → lookup k st.pools ≡ some p
    → (p' : DistPool) × (lookup k st'.pools ≡ some p') × (pool_at_start p' ≡ pool_at_start p)
IsTurned-pool k st st' turned =
    lookup_alike pool_at_start k st.pools st'.pools (ap (λ x. x.pools) turned)

pub table_alike :
    (name : TableName) (p p' : DistPool) {t : Table}
    → pool_at_start p' ≡ pool_at_start p
    → lookup name p.dist_tables ≡ some t
    → (t' : Table) × (lookup name p'.dist_tables ≡ some t') × (at_start t' ≡ at_start t)
table_alike name p p' same =
    lookup_alike at_start name p.dist_tables p'.dist_tables (ap (λ x. x.dist_tables) same)

table_or-at_start :
    (region : TableName) (o : Option Table) (default : Table)
    → (table_or region (map_option at_start o) (at_start default)).1
      ≡ at_start (table_or region o default).1
table_or-at_start region none default = refl
table_or-at_start region (some t) default = refl

table_for-at_start :
    (p : DistPool) (region : TableName) (default : Table)
    → (table_for (pool_at_start p) region (at_start default)).1
      ≡ at_start (table_for p region default).1
table_for-at_start p region default = elim (Bool-cases (p.status && is_twrr p.lb_method)) [
  | inl up ↦ rw up (
      ap (λ o. (table_or region o (at_start default)).1)
        (lookup-map_values (λ name. at_start) region p.dist_tables)
      ∙ table_or-at_start region (lookup region p.dist_tables) default)
  | inr down ↦ rw down refl
]

-- The tables that answer a client differ in their indexes.
pub table_for_alike :
    (p p' : DistPool) (region : TableName) (default default' : Table)
    → pool_at_start p' ≡ pool_at_start p
    → at_start default' ≡ at_start default
    → at_start (table_for p' region default').1 ≡ at_start (table_for p region default).1
table_for_alike p p' region default default' same same_default =
    sym (table_for-at_start p' region default')
    ∙ (ap (λ q. (table_for q region (at_start default')).1) same
        ∙ (ap (λ t. (table_for (pool_at_start p) region t).1) same_default
            ∙ table_for-at_start p region default))
