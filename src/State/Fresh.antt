-- ===== src/State/Fresh.antt =====
-- From the health state to a client: what polaris_pdns answers from a table that polaris_health has
-- just published.
use polaris_gslb.Prelude.{
  ℕ, ◌<◌, ◌≡◌, refl, ap, ◌∙◌, String, true, false, ◌&&◌, Option, some, length, every,
}
use polaris_gslb.Prelude.Eq.{◌==◌, string_eq, option_eq}
use polaris_gslb.Prelude.Dict.{lookup, lookup-map_values, map_option}
use polaris_gslb.Prelude.Result.{ok}
use polaris_gslb.Topology.{IpParser, get_region}
use polaris_gslb.Pool.{Pool, pool_status}
use polaris_gslb.Pool.Dist.{is_any, TableName, default_name, Table, DistPool, Rng}
use polaris_gslb.Pool.Dist
use polaris_gslb.Pool.Served.{served}
use polaris_gslb.Pool.Distribution.{HasRegionsApart, served_in, Serves, to_dist_dict-default}
use polaris_gslb.Pool.Servable.{to_dist_dict-servable}
use polaris_gslb.GlobalName.{GlobalName}
use polaris_gslb.GlobalName
use polaris_gslb.State.{State, to_dist_dict}
use polaris_gslb.Pdns.{Config, Server, refused}
use polaris_gslb.Pdns.Answers.{Params, do_lookup, is_twrr, num_records_return}
use polaris_gslb.Pdns.Rotation.{IsInside, addresses}
use polaris_gslb.Pdns.Queries.{
  asked, Resolves, table_for, is_refusing, is_address_query, do_lookup-Answered,
}
use polaris_gslb.Pdns.Safety.{IsServable-table_for, num_records_return-pos}
use polaris_gslb.Prelude.Dict.{AllValues-lookup}
use polaris_gslb.Prelude.{sym, subst}
use mathlib.Core.Option.{some-injective}
use polaris_gslb.Published.{DistState}
use polaris_gslb.Pdns.Turned.{at_start, pool_at_start}
use polaris_gslb.Pdns.Alike.{IsTurned-globalnames, IsTurned-pool, table_alike, table_for_alike}
use polaris_gslb.Pdns.Ready.{IsReadyPool}
use polaris_gslb.Pdns.Holding.{Holds}
use polaris_gslb.State.Gets.{
  Gets, is_address_of, served_to, addresses-every, table_for-Serves, willing_lem, or_else-pos,
  num_records_lem, min-pos, every-Serves,
}

-- What the backend answers from a state whose pool is a published one but for the indexes.
turned_lem :
    (parser : IpParser) (config : Config) (params : Params) (rng : Rng) (server : Server)
    (st : DistState) (g : GlobalName) (p : Pool) (dist : DistPool) (default : Table)
    (region : Option String)
    → server.state ≡ some st
    → server.result ≡ refused
    → Resolves (asked params) st (GlobalName.to_dist_dict g) dist default
    → pool_at_start dist ≡ pool_at_start (Dist.to_dist_dict rng p)
    → IsReadyPool dist
    → is_address_query params ≡ true
    → get_region parser params.remote config.topology_map ≡ ok region
    → (default_name == region) ≡ false
    → HasRegionsApart p
    → 0 < length (served p)
    → 0 < p.max_addrs_returned
    → Gets params g p region (do_lookup parser config params server).1.result
unfolding GlobalName.to_dist_dict
turned_lem parser config params rng server st g p dist default region held fresh resolves same ready
      address located other apart some_served max_pos =
    let first : DistPool = Dist.to_dist_dict rng p in
    let (default₀, has_default₀, d) = to_dist_dict-default rng p apart in
    let (default', has_default', same_default) =
      table_alike default_name first dist same has_default₀ in
    let one : default' ≡ default =
      some-injective default' default (sym has_default' ∙ resolves.has_default) in
    let (name, t) = table_for dist region default in
    let t₀ = (table_for first region default₀).1 in
    let like : at_start t ≡ at_start t₀ =
      table_for_alike first dist region default₀ default same
        (subst (λ x. at_start x ≡ at_start default₀) one same_default) in
    let ms = served_to p region in
    let serves : Serves ms t₀ = table_for-Serves rng p region default₀ other d in
    let count =
      num_records_lem t dist p ms (ap (λ x. x.num_unique_addrs) like ∙ serves.counts)
        (unfold Dist.to_dist_dict in ap (λ x. x.max_addrs_returned) same) in
    let some_to : 0 < length ms =
      or_else-pos (pool_status p && is_twrr p.lb_method) (served_in p region) (served p)
        some_served in
    let n = num_records_return t dist in
    let pos : 0 < n = min-pos n (length ms) p.max_addrs_returned count some_to max_pos in
    let inside : IsInside t =
      IsServable-table_for dist region default resolves.has_default ready
        (num_records_return-pos t dist pos) in
    let a =
      do_lookup-Answered parser config params st (GlobalName.to_dist_dict g) dist default server
        region held fresh resolves address (ap is_refusing same ∙ willing_lem rng p some_served)
        located inside pos in
    let (length_ips, only) =
      addresses-every (is_address_of ms) n t inside
        (ap (λ x. every (is_address_of ms) x.rotation) like ∙ every-Serves t₀ ms serves) in
    record {
      ips = addresses n t;
      returned = a.answer;
      counted = length_ips ∙ count;
      served_only = only;
    }

published_name :
    (now : ℕ) (rng : String → Rng) (s : State) (params : Params) {g : GlobalName}
    → lookup (asked params) s.globalnames ≡ some g
    → lookup (asked params) (to_dist_dict now rng s).globalnames ≡ some (GlobalName.to_dist_dict g)
unfolding to_dist_dict
published_name now rng s params known =
    lookup-map_values (λ name g. GlobalName.to_dist_dict g) (asked params) s.globalnames
    ∙ ap (map_option GlobalName.to_dist_dict) known

published_pool :
    (now : ℕ) (rng : String → Rng) (s : State) (g : GlobalName) {p : Pool}
    → lookup g.pool_name s.pools ≡ some p
    → lookup g.pool_name (to_dist_dict now rng s).pools
      ≡ some (Dist.to_dist_dict (rng g.pool_name) p)
unfolding to_dist_dict
published_pool now rng s g pool =
    lookup-map_values (λ name p. Dist.to_dist_dict (rng name) p) g.pool_name s.pools
    ∙ ap (map_option (Dist.to_dist_dict (rng g.pool_name))) pool

-- An A or ANY query, right after STATE was set to a published state, for a name whose pool serves
-- some member: the answer holds addresses of members that are served to the client's region, as
-- many as there are of them or as the pool returns at most. (No member and no client has the region
-- `_default`, and a pool returns at least one address.)
do_lookup-published :
    (parser : IpParser) (config : Config) (params : Params) (now : ℕ) (rng : String → Rng)
    (s : State) (server : Server) (g : GlobalName) (p : Pool) (region : Option String)
    → server.state ≡ some (to_dist_dict now rng s)
    → server.result ≡ refused
    → lookup (asked params) s.globalnames ≡ some g
    → lookup g.pool_name s.pools ≡ some p
    → is_address_query params ≡ true
    → get_region parser params.remote config.topology_map ≡ ok region
    → (default_name == region) ≡ false
    → HasRegionsApart p
    → 0 < length (served p)
    → 0 < p.max_addrs_returned
    → Gets params g p region (do_lookup parser config params server).1.result
unfolding to_dist_dict GlobalName.to_dist_dict
do_lookup-published parser config params now rng s server g p region held fresh known pool address
      located other apart some_served max_pos =
    let st = to_dist_dict now rng s in
    let dist = Dist.to_dist_dict (rng g.pool_name) p in
    let (default, has_default, _) = to_dist_dict-default (rng g.pool_name) p apart in
    let resolves : Resolves (asked params) st (GlobalName.to_dist_dict g) dist default = record {
      has_name = published_name now rng s params known;
      has_pool = published_pool now rng s g pool;
      has_default = has_default;
    } in
    let (found, servable) = to_dist_dict-servable (rng g.pool_name) p in
    turned_lem parser config params (rng g.pool_name) server st g p dist default region held fresh
      resolves refl (record { has_default = found; servable = servable }) address located other
      apart some_served max_pos

-- The same query of a server that holds the published state, however far its indexes have gone.
pub do_lookup-Holds :
    (parser : IpParser) (config : Config) (params : Params) (now : ℕ) (rng : String → Rng)
    (s : State) (server : Server) (g : GlobalName) (p : Pool) (region : Option String)
    → Holds (to_dist_dict now rng s) server.state
    → server.result ≡ refused
    → lookup (asked params) s.globalnames ≡ some g
    → lookup g.pool_name s.pools ≡ some p
    → is_address_query params ≡ true
    → get_region parser params.remote config.topology_map ≡ ok region
    → (default_name == region) ≡ false
    → HasRegionsApart p
    → 0 < length (served p)
    → 0 < p.max_addrs_returned
    → Gets params g p region (do_lookup parser config params server).1.result
unfolding GlobalName.to_dist_dict
do_lookup-Holds parser config params now rng s server g p region (st, held, ready, turned) fresh
      known pool address located other apart some_served max_pos =
    let published = to_dist_dict now rng s in
    let dist = Dist.to_dist_dict (rng g.pool_name) p in
    let (default, has_default, _) = to_dist_dict-default (rng g.pool_name) p apart in
    let (dist', has_pool, same) =
      IsTurned-pool g.pool_name published st turned (published_pool now rng s g pool) in
    let (default', has_default', _) = table_alike default_name dist dist' same has_default in
    let resolves : Resolves (asked params) st (GlobalName.to_dist_dict g) dist' default' = record {
      has_name =
          ap (lookup (asked params)) (IsTurned-globalnames published st turned)
          ∙ published_name now rng s params known;
      has_pool = has_pool;
      has_default = has_default';
    } in
    turned_lem parser config params (rng g.pool_name) server st g p dist' default' region held fresh
      resolves same (AllValues-lookup IsReadyPool g.pool_name st.pools ready.pools_ready has_pool)
      address located other apart some_served max_pos
