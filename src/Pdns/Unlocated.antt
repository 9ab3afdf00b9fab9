-- ===== src/Pdns/Unlocated.antt =====
-- Queries whose client's address does not parse, and queries before the first update.
use polaris_gslb.Prelude.{
  ◌≡◌, refl, sym, subst, ap, ◌∙◌, String, Bool, true, false, Option, none, some, arith,
  if◌then◌else◌, Bool-cases, inl, inr, dec_lt,
}
use polaris_gslb.Prelude.Eq.{string_eq, option_eq}
use polaris_gslb.Prelude.Dict.{lookup, contains, AllValues-lookup}
use polaris_gslb.Prelude.Result.{Exception, Result, ok, raise, or_raise, key_error}
use polaris_gslb.Topology.{IpParser, get_region}
use polaris_gslb.Pool.Dist.{TableName, default_name, Table, DistPool}
use polaris_gslb.Published.{DistName, DistState}
use polaris_gslb.Pdns.{
  Config, Server, Action, refused, ◌>>=◌, set_result, bind-ok, bind-raise, bind-found,
}
use polaris_gslb.Pdns.Answers.{
  get_state, Params, respond, choose_table, any_response, do_lookup, num_records_return, is_twrr,
  is_refuse,
}
use polaris_gslb.Pdns.Rotation.{advance_by, advance_by-IsInside}
use polaris_gslb.Pdns.Queries.{
  asked, Resolves, is_refusing, is_address_query, do_lookup-address, respond-Answered,
  respond-nothing,
}
use polaris_gslb.Pdns.Refusals.{
  is_soa_query, do_lookup-unknown, do_lookup-refusing, do_lookup-soa_record, do_lookup-other_type,
}
use polaris_gslb.Pdns.Turned.{set_table-IsTurned, advance_by-at_start}
use polaris_gslb.Pdns.Ready.{IsServable, IsReady, set_table-IsReady, IsReady-Resolves}
use polaris_gslb.Pdns.Safety.{do_lookup-KeepsReady, num_records_return-pos}
use polaris_gslb.Pdns.Carry.{IsReadyOrUnset}
use polaris_gslb.Pdns.Follows.{Follows, KeepsState, kept_ready, moved_ready}

branch-KeepsState :
    (o : Option DistState) (b : Bool) (m n : Action (Unit {0})) (s : Server)
    → KeepsState o (m s)
    → KeepsState o (n s)
    → KeepsState o ((if b then m else n) s)
branch-KeepsState o true m n s h k = h
branch-KeepsState o false m n s h k = k

respond-KeepsState :
    (params : Params) (g : DistName) (pool : DistPool) (name : TableName) (t : Table)
    (st : DistState) (s : Server)
    → s.state ≡ some st
    → s.result ≡ refused
    → lookup g.pool_name st.pools ≡ some pool
    → lookup name pool.dist_tables ≡ some t
    → IsServable t
    → IsReady st
    → KeepsState s.state (respond params g pool name t s)
respond-KeepsState params g pool name t st s held fresh has_pool has_table fits ready =
    let n = num_records_return t pool in
    elim (dec_lt 0 n) [
      | yes pos ↦
          let inside = fits (num_records_return-pos t pool pos) in
          let a = respond-Answered params g pool name t st s held fresh inside pos in
          moved_ready s.state _ st _ held a.moved
            (set_table-IsReady g.pool_name name (advance_by n t) st
              (λ _. advance_by-IsInside n t inside) ready)
            (set_table-IsTurned g.pool_name name t (advance_by n t) st has_pool has_table
              (advance_by-at_start n t))
      | no nothing ↦
          let (_, _, kept) = respond-nothing params g pool name t s (omega arith) in
          kept_ready s.state _ st held (kept ∙ held) ready
    ]

module _ (parser : IpParser) (config : Config) (params : Params) where
  choose_table_unlocated :
      (pool : DistPool) (default : Table) (s : Server) (e : Exception)
      → is_twrr pool.lb_method ≡ true
      → get_region parser params.remote config.topology_map ≡ raise e
      → choose_table parser config params pool default s ≡ (raise e, s)
  unfolding choose_table
  choose_table_unlocated pool default s e twrr unlocated = ground arith

  choose_table_plain :
      (pool : DistPool) (default : Table) (s : Server)
      → is_twrr pool.lb_method ≡ false
      → choose_table parser config params pool default s ≡ (ok (default_name, default), s)
  unfolding choose_table
  choose_table_plain pool default s plain = ground arith

  module _ (st : DistState) (g : DistName) (pool : DistPool) (default : Table) (s : Server)
      (e : Exception) (held : s.state ≡ some st) (fresh : s.result ≡ refused)
      (r : Resolves (asked params) st g pool default) (ready : IsReady st)
      (fits : IsServable default)
      (unlocated : get_region parser params.remote config.topology_map ≡ raise e) where
    up_lem : KeepsState s.state (
        (choose_table parser config params pool default
            >>= (λ chosen. respond params g pool chosen.0 chosen.1))
          s)
    up_lem = elim (Bool-cases (is_twrr pool.lb_method)) [
      | inl twrr ↦
          subst (KeepsState s.state)
            (sym (
              bind-raise (choose_table parser config params pool default) _ s
                (choose_table_unlocated pool default s e twrr unlocated)))
            (kept_ready s.state s.state st held held ready)
      | inr plain ↦
          subst (KeepsState s.state)
            (sym (
              bind-ok (choose_table parser config params pool default) _ s
                (choose_table_plain pool default s plain)))
            (respond-KeepsState params g pool default_name default st s held fresh r.has_pool
              r.has_default fits ready)
    ]

    any_response-KeepsState :
        KeepsState s.state (any_response parser config params (asked params) s)
    unfolding any_response
    any_response-KeepsState =
        subst (KeepsState s.state)
          (sym (
            bind-found s.state key_error _ s held
            ∙ (bind-found (lookup (asked params) st.globalnames) key_error _ s r.has_name
                ∙ (bind-found (lookup g.pool_name st.pools) key_error _ s r.has_pool
                    ∙ bind-found (lookup default_name pool.dist_tables) key_error _ s
                        r.has_default))))
          (branch-KeepsState s.state pool.status _ _ s up_lem (
            branch-KeepsState s.state (is_refuse pool.fallback) (set_result refused) _ s
              (kept_ready s.state s.state st held held ready)
              (respond-KeepsState params g pool default_name default st s held fresh r.has_pool
                r.has_default fits ready)))

  -- Before the first update every lookup raises a KeyError, and changes nothing.
  do_lookup-unset :
      (s : Server) → s.state ≡ none → do_lookup parser config params s ≡ (raise key_error, s)
  unfolding do_lookup
  do_lookup-unset s unset = bind-raise get_state _ s (ap (λ o. (or_raise o key_error, s)) unset)

  module _ (s : Server) (fresh : s.result ≡ refused) where
    soa_lem :
        (st : DistState)
        → s.state ≡ some st
        → IsReady st
        → contains (asked params) st.globalnames ≡ true
        → is_soa_query params ≡ true
        → KeepsState s.state (do_lookup parser config params s)
    soa_lem st held ready known soa =
        let (g, pool, default, r, _) = IsReady-Resolves (asked params) st ready known in
        elim (Bool-cases (is_refusing pool)) [
          | inl refusing ↦
              kept_ready s.state _ st held
                ((do_lookup-refusing parser config params s st g pool default held r (ground arith)
                    refusing).2
                  ∙ held)
                ready
          | inr willing ↦
              kept_ready s.state _ st held
                ((do_lookup-soa_record parser config params s st g pool default held r fresh soa
                    willing).2
                  ∙ held)
                ready
        ]

    ready_lem :
        (st : DistState)
        → s.state ≡ some st
        → IsReady st
        → (located : Result (Option String))
        → get_region parser params.remote config.topology_map ≡ located
        → KeepsState s.state (do_lookup parser config params s)
    ready_lem st held ready (ok region) located =
        let (_, st', moved, ready', turned) =
          do_lookup-KeepsReady parser config params s st held ready fresh region located in
        moved_ready s.state _ st st' held moved ready' turned
    ready_lem st held ready (raise e) unlocated =
        elim (Bool-cases (contains (asked params) st.globalnames)) [
          | inr unknown ↦
              kept_ready s.state _ st held
                ((do_lookup-unknown parser config params s st held unknown).2 ∙ held) ready
          | inl known ↦ elim (Bool-cases (is_address_query params)) [
            | inr other ↦ elim (Bool-cases (is_soa_query params)) [
              | inr not_soa ↦
                  kept_ready s.state _ st held
                    ((do_lookup-other_type parser config params s st held other not_soa).2 ∙ held)
                    ready
              | inl soa ↦ soa_lem st held ready known soa
            ]
            | inl address ↦
                let (g, pool, default, r, pool_ready) =
                  IsReady-Resolves (asked params) st ready known in
                let fits : IsServable default =
                  AllValues-lookup IsServable default_name pool.dist_tables pool_ready.servable
                    r.has_default in
                subst (KeepsState s.state)
                  (sym (do_lookup-address parser config params st s held known address))
                  (any_response-KeepsState st g pool default s e held fresh r ready fits unlocated)
          ]
        ]

    unset_lem :
        (o : Option DistState)
        → s.state ≡ o
        → IsReadyOrUnset o
        → KeepsState s.state (do_lookup parser config params s)
    unset_lem none unset h =
        subst (KeepsState s.state) (sym (do_lookup-unset s unset))
          (subst (λ x. Follows x s.state) (sym unset) unset)
    unset_lem (some st) held ready = ready_lem st held ready _ refl

    -- Whatever is asked, by whatever client, a lookup leaves STATE ready or never set.
    pub do_lookup-KeepsState :
        IsReadyOrUnset s.state → KeepsState s.state (do_lookup parser config params s)
    do_lookup-KeepsState h = unset_lem s.state refl h
