-- ===== src/Pdns/Sync.antt =====
-- What one global name does in `sync_dist_table_indexes`, on ready states.
use mathlib.Core.Path.{subst₂}
use polaris_gslb.Prelude.{
  ◌≡◌, refl, sym, subst, ap, ◌∙◌, String, Bool, true, false, Option, none, some, [], arith,
  if◌then◌else◌, Bool-cases, inl, inr, ◌&&◌,
}
use polaris_gslb.Prelude.Eq.{Eq, ◌==◌, string_eq, option_eq}
use polaris_gslb.Prelude.Dict.{
  Dict, lookup, contains, modify, AllValues, AllValues-lookup, map_option, lookup-some_of_contains,
  lookup-modify, lookup-none_of_contains, contains-modify,
}
use polaris_gslb.Prelude.Result.{ok}
use polaris_gslb.Pool.Dist.{TableName, default_name, Table, DistPool}
use polaris_gslb.Published.{DistName, DistState}
use polaris_gslb.Pdns.Answers.{set_table}
use polaris_gslb.Pdns.Updates.{sync_index, sync_name}
use polaris_gslb.Pdns.Ready.{IsServable, IsReadyPool, IsReady, set_table-IsReady}

abbrev tables_of : Option DistPool → Dict TableName Table
tables_of none = []
tables_of (some pool) = pool.dist_tables

-- The table with its index taken over from the old table, if there is one.
abbrev pub sync_option : Option Table → Option Table → Option Table
sync_option none new = new
sync_option (some old) new = map_option (sync_index old) new

-- The table of a pool, by names.
unfoldable pub table_at : Dict String DistPool → String → TableName → Option Table
table_at pools pool_name name = lookup name (tables_of (lookup pool_name pools))

abbrev put_table : TableName → Table → DistPool → DistPool
put_table n t pool = record pool { dist_tables = modify n (λ _. t) pool.dist_tables }

table_at_step :
    (n m : TableName) (t : Table) (b : Bool) (o : Option DistPool)
    → lookup m (tables_of (if b then map_option (put_table n t) o else o)) ≡ (
        if b && (n == m)
        then map_option (λ _. t) (lookup m (tables_of o))
        else lookup m (tables_of o))
unfolding lookup
table_at_step n m t false o = refl
table_at_step n m t true none = ground arith
table_at_step n m t true (some pool) = lookup-modify n m (λ _. t) pool.dist_tables

table_at-set_table :
    (p : String) (n : TableName) (t : Table) (st : DistState) (q : String) (m : TableName)
    → table_at (set_table p n t st).pools q m ≡ (
        if (p == q) && (n == m)
        then map_option (λ _. t) (table_at st.pools q m)
        else table_at st.pools q m)
unfolding table_at set_table
table_at-set_table p n t st q m =
    ap (λ o. lookup m (tables_of o)) (lookup-modify p q (put_table n t) st.pools)
    ∙ table_at_step n m t (p == q) (lookup q st.pools)

sync_index-IsServable : (old new : Table) → IsServable new → IsServable (sync_index old new)
unfolding sync_index
sync_index-IsServable old new h = ground arith

pub sync_index_idem : (old new : Table) → sync_index old (sync_index old new) ≡ sync_index old new
unfolding sync_index
sync_index_idem old new = ground arith

-- In ready pools every pool has a table `_default`, which is servable.
ready_default :
    (p : String) (pools : Dict String DistPool)
    → AllValues IsReadyPool pools
    → contains p pools ≡ true
    → (pool : DistPool) × (t : Table) × (lookup p pools ≡ some pool)
      × (lookup default_name pool.dist_tables ≡ some t)
      × IsServable t
ready_default p pools ready known =
    let (pool, found) = lookup-some_of_contains p pools known in
    let r : IsReadyPool pool = AllValues-lookup IsReadyPool p pools ready found in
    let (t, has) = lookup-some_of_contains default_name pool.dist_tables r.has_default in
    (pool, t, found, has, AllValues-lookup IsServable default_name pool.dist_tables r.servable has)

table_at-found :
    (p : String) (n : TableName) (pools : Dict String DistPool) {pool : DistPool} {t : Table}
    → lookup p pools ≡ some pool
    → lookup n pool.dist_tables ≡ some t
    → table_at pools p n ≡ some t
unfolding table_at
table_at-found p n pools found has = ap (λ o. lookup n (tables_of o)) found ∙ has

table_at-unknown :
    (p : String) (n : TableName) (pools : Dict String DistPool)
    → contains p pools ≡ false
    → table_at pools p n ≡ none
unfolding table_at lookup
table_at-unknown p n pools h = ap (λ o. lookup n (tables_of o)) (lookup-none_of_contains p pools h)

-- What one global name does to the new state: nothing, or a new index for one table.
pub record Synced (old : Dict String DistPool) (g : DistName) (st synced : DistState) : Type 0 where
  pub same_names : synced.globalnames ≡ st.globalnames
  pub ready : IsReady synced
  pub known : (q : String) → contains q synced.pools ≡ contains q st.pools
  pub tables :
      (q : String) (m : TableName)
      → table_at synced.pools q m ≡ (
          if (g.pool_name == q) && (default_name == m)
          then sync_option (table_at old q default_name) (table_at st.pools q m)
          else table_at st.pools q m)

and_left : (a b : Bool) → a && b ≡ true → a ≡ true
and_left a b h = ground arith

and_right : (a b : Bool) → a && b ≡ true → b ≡ true
and_right a b h = ground arith

-- The keys that a test finds equal are equal.
both_keys : (p q : String) (n m : TableName) → (p == q) && (n == m) ≡ true → (p ≡ q) × (n ≡ m)
both_keys p q n m h =
    let e : Eq TableName = option_eq in
    ((string_eq.beq_iff p q).0 (and_left _ _ h), (e.beq_iff n m).0 (and_right _ _ h))

unknown-Synced :
    (old : Dict String DistPool) (g : DistName) (st : DistState)
    → IsReady st
    → contains g.pool_name old ≡ false
    → Synced old g st st
unknown-Synced old g st ready unknown = record {
  same_names = refl;
  ready = ready;
  known = λ q. refl;
  tables = λ q m. elim (Bool-cases ((g.pool_name == q) && (default_name == m))) [
    | inl hit ↦
        let (same, _) = both_keys g.pool_name q default_name m hit in
        rw hit (
          ap (λ o. sync_option o (table_at st.pools q m))
            (sym (
              table_at-unknown q default_name old
                (subst (λ k. contains k old ≡ false) same unknown))))
    | inr miss ↦ rw miss
  ];
}

known-Synced :
    (old : Dict String DistPool) (g : DistName) (st : DistState) (od nd : Table)
    → IsReady st
    → IsServable nd
    → table_at old g.pool_name default_name ≡ some od
    → table_at st.pools g.pool_name default_name ≡ some nd
    → Synced old g st (set_table g.pool_name default_name (sync_index od nd) st)
known-Synced old g st od nd ready fits had has = record {
  same_names = unfold set_table in refl;
  ready = set_table-IsReady g.pool_name default_name _ st (sync_index-IsServable od nd fits) ready;
  known = λ q. unfold set_table in contains-modify g.pool_name q _ st.pools;
  tables = λ q m.
      table_at-set_table g.pool_name default_name (sync_index od nd) st q m
      ∙ elim (Bool-cases ((g.pool_name == q) && (default_name == m))) [
        | inl hit ↦
            let (same, named) = both_keys g.pool_name q default_name m hit in
            let had' : table_at old q default_name ≡ some od =
              subst (λ k. table_at old k default_name ≡ some od) same had in
            let has' : table_at st.pools q m ≡ some nd =
              subst₂ (λ k n. table_at st.pools k n ≡ some nd) same named has in
            rw (hit, had', has')
        | inr miss ↦ rw miss
      ];
}

pub sync_name_lem :
    (old : Dict String DistPool) (g : DistName) (st : DistState)
    → AllValues IsReadyPool old
    → IsReady st
    → contains g.pool_name st.pools ≡ true
    → (synced : DistState) × (sync_name old g st ≡ ok synced) × Synced old g st synced
unfolding sync_name
sync_name_lem old g st old_ready ready listed = elim (Bool-cases (contains g.pool_name old)) [
  | inr unknown ↦ (st, rw unknown, unknown-Synced old g st ready unknown)
  | inl known ↦
      let (old_pool, od, a, b, _) = ready_default g.pool_name old old_ready known in
      let (new_pool, nd, c, d, fits) =
        ready_default g.pool_name st.pools ready.pools_ready listed in
      (
        _,
        rw (known, a, b, c, d) refl,
        known-Synced old g st od nd ready fits (table_at-found _ _ old a b)
            (table_at-found _ _ st.pools c d),
      )
]
