-- ===== src/Pdns/Ready.antt =====
-- States on which no query can fail.
use polaris_gslb.Prelude.{◌<◌, ◌≡◌, ◌∙◌, String, true, [], ◌∷◌}
use polaris_gslb.Prelude.Eq.{string_eq, option_eq}
use polaris_gslb.Prelude.Dict.{
  Dict, contains, modify, AllValues, AllValues-lookup, AllValues-modify, contains-modify,
  lookup-some_of_contains,
}
use polaris_gslb.Pool.Dist.{TableName, default_name, Table, DistPool}
use polaris_gslb.Published.{DistName, DistState}
use polaris_gslb.Pdns.Answers.{set_table}
use polaris_gslb.Pdns.Rotation.{IsInside}
use polaris_gslb.Pdns.Queries.{Resolves}

-- A table with an address to return has its index inside the rotation.
abbrev pub IsServable : Table → Type 0
IsServable t = 0 < t.num_unique_addrs → IsInside t

-- A pool has its `_default` table, and its tables are servable.
pub record IsReadyPool (pool : DistPool) : Type 0 where
  pub has_default : contains default_name pool.dist_tables ≡ true
  pub servable : AllValues IsServable pool.dist_tables

-- The pools are ready, and every global name refers to one of them.
pub record IsReady (st : DistState) : Type 0 where
  pub pools_ready : AllValues IsReadyPool st.pools
  pub names_known : AllValues (λ g. contains g.pool_name st.pools ≡ true) st.globalnames

IsReadyPool-modify :
    (name : TableName) (t : Table) (pool : DistPool)
    → IsServable t
    → IsReadyPool pool
    → IsReadyPool (record pool { dist_tables = modify name (λ _. t) pool.dist_tables })
IsReadyPool-modify name t pool fits r = record {
  has_default = contains-modify name default_name (λ _. t) pool.dist_tables ∙ r.has_default;
  servable = AllValues-modify IsServable name (λ _. t) pool.dist_tables (λ _ _. fits) r.servable;
}

pub names_kept :
    (names : Dict String DistName) (k : String) (f : DistPool → DistPool)
    (pools : Dict String DistPool)
    → AllValues (λ g. contains g.pool_name pools ≡ true) names
    → AllValues (λ g. contains g.pool_name (modify k f pools) ≡ true) names
names_kept [] k f pools h = tt
names_kept ((name, g) ∷ names) k f pools h =
    (contains-modify k g.pool_name f pools ∙ h.0, names_kept names k f pools h.1)

-- A ready state stays ready when a table is replaced by a servable one.
pub set_table-IsReady :
    (pool_name : String) (name : TableName) (t : Table) (st : DistState)
    → IsServable t
    → IsReady st
    → IsReady (set_table pool_name name t st)
unfolding set_table
set_table-IsReady pool_name name t st fits r = record {
  pools_ready =
      AllValues-modify IsReadyPool pool_name _ st.pools
        (λ pool. IsReadyPool-modify name t pool fits) r.pools_ready;
  names_known = names_kept st.globalnames pool_name _ st.pools r.names_known;
}

-- In a ready state every global name resolves, to a servable `_default` table.
pub IsReady-Resolves :
    (name : String) (st : DistState)
    → IsReady st
    → contains name st.globalnames ≡ true
    → (g : DistName) × (pool : DistPool) × (default : Table) × Resolves name st g pool default
      × IsReadyPool pool
IsReady-Resolves name st r known =
    let (g, has_name) = lookup-some_of_contains name st.globalnames known in
    let (pool, has_pool) = lookup-some_of_contains g.pool_name st.pools (
      AllValues-lookup (λ g. contains g.pool_name st.pools ≡ true) name st.globalnames r.names_known
        has_name) in
    let ready : IsReadyPool pool =
      AllValues-lookup IsReadyPool g.pool_name st.pools r.pools_ready has_pool in
    let (default, has_default) =
      lookup-some_of_contains default_name pool.dist_tables ready.has_default in
    (
      g,
      pool,
      default,
      record { has_name = has_name; has_pool = has_pool; has_default = has_default },
      ready,
    )
