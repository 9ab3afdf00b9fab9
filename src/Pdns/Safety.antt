-- ===== src/Pdns/Safety.antt =====
-- On a ready state every query is answered or refused, without an exception.
use polaris_gslb.Prelude.{
  ℕ, ◌<◌, ◌≡◌, refl, ◌∙◌, String, true, ◌&&◌, Option, none, some, arith, Bool-cases, inl, inr,
  dec_lt,
}
use polaris_gslb.Prelude.Eq.{string_eq, option_eq}
use polaris_gslb.Prelude.Dict.{lookup, contains, AllValues-lookup}
use polaris_gslb.Prelude.Result.{Result, ok}
use polaris_gslb.Topology.{IpParser, get_region}
use polaris_gslb.Pool.Dist.{TableName, default_name, Table, DistPool}
use polaris_gslb.Published.{DistName, DistState}
use polaris_gslb.Pdns.{Config, Server, refused}
use polaris_gslb.Pdns.Answers.{Params, do_lookup, num_records_return, table_or, is_twrr, set_table}
use polaris_gslb.Pdns.Rotation.{IsInside, advance_by, advance_by-IsInside}
use polaris_gslb.Pdns.Queries.{
  asked, Resolves, table_for, is_refusing, is_address_query, Answered, do_lookup-Answered,
}
use polaris_gslb.Pdns.Refusals.{
  IsRefused, is_soa_query, do_lookup-unknown, do_lookup-other_type, do_lookup-refusing,
  do_lookup-empty, do_lookup-soa_record,
}
use polaris_gslb.Pdns.Turned.{IsTurned, set_table-IsTurned, advance_by-at_start}
use polaris_gslb.Pdns.Ready.{IsServable, IsReadyPool, IsReady, set_table-IsReady, IsReady-Resolves}

-- The handler returned, and STATE is ready, and what it was but for the indexes.
abbrev pub KeepsReady : DistState → Result (Unit {0}) × Server → Type 0
KeepsReady st r =
    (r.0 ≡ ok tt) × (st' : DistState) × (r.1.state ≡ some st') × IsReady st' × IsTurned st st'

table_or-found :
    (pool : DistPool) (region : TableName) (o : Option Table) (default : Table)
    → lookup region pool.dist_tables ≡ o
    → lookup default_name pool.dist_tables ≡ some default
    → lookup (table_or region o default).0 pool.dist_tables ≡ some (table_or region o default).1
table_or-found pool region none default e found = found
table_or-found pool region (some t) default e found = e

-- The table that answers is one of the pool.
table_for-found :
    (pool : DistPool) (region : TableName) (default : Table)
    → lookup default_name pool.dist_tables ≡ some default
    → lookup (table_for pool region default).0 pool.dist_tables
      ≡ some (table_for pool region default).1
table_for-found pool region default found =
    elim (Bool-cases (pool.status && is_twrr pool.lb_method)) [
      | inl up ↦
          rw up (table_or-found pool region (lookup region pool.dist_tables) default refl found)
      | inr down ↦ rw down found
    ]

IsServable-table_or :
    (pool : DistPool) (region : TableName) (o : Option Table) (default : Table)
    → lookup region pool.dist_tables ≡ o
    → IsReadyPool pool
    → IsServable default
    → IsServable (table_or region o default).1
IsServable-table_or pool region none default e r fits = fits
IsServable-table_or pool region (some t) default e r fits =
    AllValues-lookup IsServable region pool.dist_tables r.servable e

pub IsServable-table_for :
    (pool : DistPool) (region : TableName) (default : Table)
    → lookup default_name pool.dist_tables ≡ some default
    → IsReadyPool pool
    → IsServable (table_for pool region default).1
IsServable-table_for pool region default found r =
    let fits : IsServable default =
      AllValues-lookup IsServable default_name pool.dist_tables r.servable found in
    elim (Bool-cases (pool.status && is_twrr pool.lb_method)) [
      | inl up ↦
          rw up
            (IsServable-table_or pool region (lookup region pool.dist_tables) default refl r fits)
      | inr down ↦ rw down fits
    ]

pub num_records_return-pos :
    (t : Table) (pool : DistPool) → 0 < num_records_return t pool → 0 < t.num_unique_addrs
unfolding num_records_return
num_records_return-pos t pool h = ground arith

module _ (parser : IpParser) (config : Config) (params : Params) (s : Server) (st : DistState)
    (held : s.state ≡ some st) (ready : IsReady st) where
  refused_lem :
      IsRefused s (do_lookup parser config params s)
      → KeepsReady st (do_lookup parser config params s)
  refused_lem (returned, _, kept) = (returned, st, kept ∙ held, ready, refl)

  answered_lem :
      (g : DistName) (pool : DistPool) (n : ℕ) (name : TableName) (t : Table)
      → lookup g.pool_name st.pools ≡ some pool
      → lookup name pool.dist_tables ≡ some t
      → IsInside t
      → Answered params g n name t st (do_lookup parser config params s)
      → KeepsReady st (do_lookup parser config params s)
  answered_lem g pool n name t has_pool has_table inside a = (
    a.returned,
    set_table g.pool_name name (advance_by n t) st,
    a.moved,
    set_table-IsReady g.pool_name name (advance_by n t) st (λ _. advance_by-IsInside n t inside)
        ready,
    set_table-IsTurned g.pool_name name t (advance_by n t) st has_pool has_table
        (advance_by-at_start n t),
  )

  module _ (fresh : s.result ≡ refused) (region : Option String)
      (located : get_region parser params.remote config.topology_map ≡ ok region) where
    address_lem :
        (g : DistName) (pool : DistPool) (default : Table)
        → Resolves (asked params) st g pool default
        → IsReadyPool pool
        → is_address_query params ≡ true
        → KeepsReady st (do_lookup parser config params s)
    address_lem g pool default r pool_ready address = elim (Bool-cases (is_refusing pool)) [
      | inl refusing ↦
          refused_lem (
            do_lookup-refusing parser config params s st g pool default held r (rw address)
              refusing)
      | inr willing ↦
          let (name, t) = table_for pool region default in
          elim (dec_lt 0 (num_records_return t pool)) [
            | yes pos ↦
                let inside : IsInside t =
                  IsServable-table_for pool region default r.has_default pool_ready
                    (num_records_return-pos t pool pos) in
                answered_lem g pool (num_records_return t pool) name t r.has_pool
                  (table_for-found pool region default r.has_default) inside
                  (do_lookup-Answered parser config params st g pool default s region held fresh r
                    address willing located inside pos)
            | no nothing ↦ refused_lem (
                do_lookup-empty parser config params s st g pool default held r region address
                  willing located (omega arith))
          ]
    ]

    soa_lem :
        (g : DistName) (pool : DistPool) (default : Table)
        → Resolves (asked params) st g pool default
        → is_soa_query params ≡ true
        → KeepsReady st (do_lookup parser config params s)
    soa_lem g pool default r soa = elim (Bool-cases (is_refusing pool)) [
      | inl refusing ↦ refused_lem (
          do_lookup-refusing parser config params s st g pool default held r (ground arith)
            refusing)
      | inr willing ↦
          let (returned, _, kept) =
            do_lookup-soa_record parser config params s st g pool default held r fresh soa
              willing in
          (returned, st, kept ∙ held, ready, refl)
    ]

    -- On a ready state a query from an address that parses raises no exception, whatever it asks,
    -- and leaves a ready state, which differs from the old one in the indexes of its tables only.
    pub do_lookup-KeepsReady : KeepsReady st (do_lookup parser config params s)
    do_lookup-KeepsReady = elim (Bool-cases (contains (asked params) st.globalnames)) [
      | inr unknown ↦ refused_lem (do_lookup-unknown parser config params s st held unknown)
      | inl known ↦
          let (g, pool, default, r, pool_ready) = IsReady-Resolves (asked params) st ready known in
          elim (Bool-cases (is_address_query params)) [
            | inl address ↦ address_lem g pool default r pool_ready address
            | inr other ↦ elim (Bool-cases (is_soa_query params)) [
              | inl soa ↦ soa_lem g pool default r soa
              | inr not_soa ↦
                  refused_lem (do_lookup-other_type parser config params s st held other not_soa)
            ]
          ]
    ]
