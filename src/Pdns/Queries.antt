-- ===== src/Pdns/Queries.antt =====
-- What `do_lookup` answers.
use polaris_gslb.Prelude.{
  get_elem?-some_of_lt, ℕ, zero, suc, ◌<◌, ◌≡◌, sym, subst, ap, ◌∙◌, append-nil, append_assoc,
  String, Bool, true, false, ◌&&◌, ◌||◌, not, Option, some, List, [], ◌∷◌, ◌++◌, map, arith,
  if◌then◌else◌, Bool-cases, inl, inr, lower, rstrip_dots,
}
use polaris_gslb.Prelude.Eq.{◌==◌, string_eq, option_eq}
use polaris_gslb.Prelude.Dict.{lookup, contains, contains_of_lookup}
use polaris_gslb.Prelude.Result.{Result, ok, key_error}
use polaris_gslb.Topology.{IpParser, get_region}
use polaris_gslb.Pool.Dist.{TableName, default_name, Table, DistPool}
use polaris_gslb.Published.{DistName, DistState}
use polaris_gslb.Pdns.{
  Config, Record, refused, records, LogEntry, lookup_time, client_region, Server, ◌>>=◌, set_result,
  bind-ok, branch-true, branch-false, bind-found, add_record,
}
use polaris_gslb.Pdns.Answers.{
  advance, Params, set_table, num_records_return, respond, choose_table, any_response, do_lookup,
  table_or, is_twrr, is_refuse,
}
use polaris_gslb.Pdns.Rotation.{
  IsInside, addresses, advance_by, a_record, add_records, answer_loop_lem,
}

-- The name that a query asks for.
abbrev pub asked : Params → String
asked params = lower (rstrip_dots params.qname)

-- STATE has the name, its pool and the pool's `_default` table.
pub record Resolves (name : String) (st : DistState) (g : DistName) (pool : DistPool)
    (default : Table) : Type 0 where
  pub has_name : lookup name st.globalnames ≡ some g
  pub has_pool : lookup g.pool_name st.pools ≡ some pool
  pub has_default : lookup default_name pool.dist_tables ≡ some default

-- The table that answers a client of a region.
abbrev pub table_for : DistPool → TableName → Table → TableName × Table
table_for pool region default =
    if pool.status && is_twrr pool.lb_method
    then table_or region (lookup region pool.dist_tables) default
    else (default_name, default)

abbrev pub is_refusing : DistPool → Bool
is_refusing pool = not pool.status && is_refuse pool.fallback

abbrev pub is_address_query : Params → Bool
is_address_query params = params.qtype == "ANY" || params.qtype == "A"

add_records-records : (rs xs : List Record) → add_records rs (records xs) ≡ records (xs ++ rs)
unfolding add_records
add_records-records [] xs = ap records (sym (append-nil xs))
add_records-records (r ∷ rs) xs =
    add_records-records rs (xs ++ r ∷ []) ∙ ap records (append_assoc xs (r ∷ []) rs)

-- What a successful answer is: the next addresses, and the table that has moved on by as many.
pub record Answered (params : Params) (g : DistName) (n : ℕ) (name : TableName) (t : Table)
    (st : DistState) (r : Result (Unit {0}) × Server) : Type 0 where
  pub returned : r.0 ≡ ok tt
  pub answer : r.1.result ≡ records (map (a_record params.qname g.ttl) (addresses n t))
  pub moved : r.1.state ≡ some (set_table g.pool_name name (advance_by n t) st)

addresses-records :
    (params : Params) (g : DistName) (n : ℕ) (t : Table)
    → IsInside t
    → 0 < n
    → add_records (map (a_record params.qname g.ttl) (addresses n t)) refused
      ≡ records (map (a_record params.qname g.ttl) (addresses n t))
unfolding add_records addresses add_record
addresses-records params g zero t h pos = absurd (omega arith)
addresses-records params g (suc n) t h pos =
    let (ip, at) = get_elem?-some_of_lt t.rotation t.index h in
    rw (at, addresses)
      (add_records-records (map (a_record params.qname g.ttl) (addresses n (advance t)))
        (a_record params.qname g.ttl ip ∷ []))

pub respond-Answered :
    (params : Params) (g : DistName) (pool : DistPool) (name : TableName) (t : Table)
    (st : DistState) (s : Server)
    → s.state ≡ some st
    → s.result ≡ refused
    → IsInside t
    → 0 < num_records_return t pool
    → Answered params g (num_records_return t pool) name t st (respond params g pool name t s)
unfolding respond
respond-Answered params g pool name t st s held fresh h pos =
    let n = num_records_return t pool in
    ground (
      arith,
      answer_loop_lem params.qname g.ttl n s.result t h,
      addresses-records params g n t h pos,
    )

pub respond-nothing :
    (params : Params) (g : DistName) (pool : DistPool) (name : TableName) (t : Table) (s : Server)
    → num_records_return t pool ≡ 0
    → ((respond params g pool name t s).0 ≡ ok tt)
      × ((respond params g pool name t s).1.result ≡ refused)
      × ((respond params g pool name t s).1.state ≡ s.state)
unfolding respond
respond-nothing params g pool name t s none' = ground arith

-- What the choice of a table adds to the log.
abbrev pub located_log : DistPool → Option String → List LogEntry → List LogEntry
located_log pool region log =
    if pool.status && is_twrr pool.lb_method
    then (log ++ lookup_time ∷ []) ++ client_region region ∷ []
    else log

module _ (parser : IpParser) (config : Config) (params : Params) where
  choose_table_lem :
      (pool : DistPool) (default : Table) (s : Server) (region : Option String)
      → pool.status ≡ true
      → get_region parser params.remote config.topology_map ≡ ok region
      → choose_table parser config params pool default s
        ≡ (ok (table_for pool region default), record s { log = located_log pool region s.log })
  unfolding choose_table
  choose_table_lem pool default s region up located = ground arith

  resolved_lem :
      (g : DistName) (pool : DistPool) (default : Table) (s : Server) (region : Option String)
      → is_refusing pool ≡ false
      → get_region parser params.remote config.topology_map ≡ ok region
      → (if pool.status
            then choose_table parser config params pool default
              >>= (λ chosen. respond params g pool chosen.0 chosen.1)
            else if is_refuse pool.fallback
            then set_result refused
            else respond params g pool default_name default)
          s
        ≡ respond params g pool
            (table_for pool region default).0
            (table_for pool region default).1
            (record s { log = located_log pool region s.log })
  resolved_lem g pool default s region willing located = elim (Bool-cases pool.status) [
    | inl up ↦
        branch-true pool.status _ _ s up
        ∙ bind-ok (choose_table parser config params pool default) _ s
            (choose_table_lem pool default s region up located)
    | inr down ↦
        branch-false pool.status _ _ s down
        ∙ (branch-false (is_refuse pool.fallback) _ _ s (ground arith) ∙ ground arith)
  ]

  -- `_any_response` ends in `respond`, on the table for the client's region.
  pub any_response_lem :
      (name : String) (st : DistState) (g : DistName) (pool : DistPool) (default : Table)
      (s : Server) (region : Option String)
      → s.state ≡ some st
      → Resolves name st g pool default
      → is_refusing pool ≡ false
      → get_region parser params.remote config.topology_map ≡ ok region
      → any_response parser config params name s
        ≡ respond params g pool
            (table_for pool region default).0
            (table_for pool region default).1
            (record s { log = located_log pool region s.log })
  unfolding any_response
  any_response_lem name st g pool default s region held r willing located =
      bind-found s.state key_error _ s held
      ∙ (bind-found (lookup name st.globalnames) key_error _ s r.has_name
          ∙ (bind-found (lookup g.pool_name st.pools) key_error _ s r.has_pool
              ∙ (bind-found (lookup default_name pool.dist_tables) key_error _ s r.has_default
                  ∙ resolved_lem g pool default s region willing located)))

  -- The address branch of `do_lookup`.
  pub do_lookup-address :
      (st : DistState) (s : Server)
      → s.state ≡ some st
      → contains (asked params) st.globalnames ≡ true
      → is_address_query params ≡ true
      → do_lookup parser config params s ≡ any_response parser config params (asked params) s
  unfolding do_lookup
  do_lookup-address st s held known address =
      bind-found s.state key_error _ s held
      ∙ (branch-false (not (contains (asked params) st.globalnames)) _ _ s (ground arith)
          ∙ branch-true (is_address_query params) _ _ s address)

  -- An A or ANY query for a known name, whose pool does not refuse and whose table for the client's
  -- region has an address to return and an index inside the rotation, returns: the answer is the
  -- next addresses of that table, as many as the lower of its number of unique addresses and the
  -- pool's maximum, and that table moves on by as many. Nothing else of the state changes.
  pub do_lookup-Answered :
      (st : DistState) (g : DistName) (pool : DistPool) (default : Table) (s : Server)
      (region : Option String)
      → s.state ≡ some st
      → s.result ≡ refused
      → Resolves (asked params) st g pool default
      → is_address_query params ≡ true
      → is_refusing pool ≡ false
      → get_region parser params.remote config.topology_map ≡ ok region
      → IsInside (table_for pool region default).1
      → 0 < num_records_return (table_for pool region default).1 pool
      → Answered params g
          (num_records_return (table_for pool region default).1 pool)
          (table_for pool region default).0
          (table_for pool region default).1
          st
          (do_lookup parser config params s)
  do_lookup-Answered st g pool default s region held fresh r address willing located inside pos =
      let (name, t) = table_for pool region default in
      subst (Answered params g (num_records_return t pool) name t st)
        (sym (
          do_lookup-address st s held (contains_of_lookup _ _ r.has_name) address
          ∙ any_response_lem (asked params) st g pool default s region held r willing located))
        (respond-Answered params g pool name t st _ held fresh inside pos)
