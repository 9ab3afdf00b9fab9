-- ===== src/Site.antt =====
-- A whole site: from its configuration, over the rounds of the tracker and a publication, to the answer
-- that a client gets from the backend.
use polaris_gslb.Prelude.{
  ℕ, ◌<◌, ◌≡◌, refl, sym, subst, ap, ◌∙◌, ◌++◌, String, true, false, Option, some, List, [], ◌∷◌,
  length, eqb,
}
use polaris_gslb.Prelude.Eq.{string_eq, option_eq}
use polaris_gslb.Prelude.Dict.{Dict, lookup, AllValues-lookup}
use polaris_gslb.Prelude.Result.{ok}
use polaris_gslb.Config.{LbConfig}
use polaris_gslb.Topology.{IpParser, get_region, config_to_map}
use polaris_gslb.Topology.Apart.{
  HasNoDefault, config_to_map-HasNoDefault, get_region-IsInMap, IsInMap-other,
}
use polaris_gslb.Monitors.Build.{Compile}
use polaris_gslb.Pool.{Pool}
use polaris_gslb.Pool.Served.{served}
use polaris_gslb.GlobalName.{GlobalName}
use polaris_gslb.Published.{DistState}
use polaris_gslb.State.{State, health_converged, to_dist_dict}
use polaris_gslb.Tracker.Pusher.{Memory, Push, Pusher, IsSteady, Succeeds, push_round}
use polaris_gslb.Sharing.{push_round-Succeeds}
use polaris_gslb.State.Config.{new}
use polaris_gslb.State.Checked.{new-IsSound}
use polaris_gslb.State.Publish.{to_dist_dict-IsReady}
use polaris_gslb.State.Gets.{Gets}
use polaris_gslb.State.Fresh.{do_lookup-Holds}
use polaris_gslb.Tracker.{Tracker}
use polaris_gslb.Tracker.Schedule.{Round, run_rounds}
use polaris_gslb.Tracker.Fit.{IsFit, IsNewPool-IsFit}
use polaris_gslb.Tracker.Configured.{IsConfigured, run_rounds-IsConfigured}
use polaris_gslb.Pdns.{Config, Server}
use polaris_gslb.Pdns.Answers.{Params, do_lookup}
use polaris_gslb.Pdns.Queries.{asked, is_address_query}
use polaris_gslb.Pdns.Carry.{IsReadyOrUnset}
use polaris_gslb.Pdns.Holding.{Holds, AreQuiet, update_state-Holds, main_loop-Holds}
use polaris_gslb.Pdns.Backend.{Json, Response, reset, write_response}
use polaris_gslb.Pdns.Lookups.{IsLookup, pass-lookup, main_loop-line}
use polaris_gslb.Pdns.Safety.{do_lookup-KeepsReady}
use polaris_gslb.Pdns.Loop.{Event, line, update, updated, reading, main_loop}

-- The tracker, as it is built: a state, the time it was built at, and no requests.
abbrev pub at_first : State → ℕ → Tracker
at_first s timestamp = record { state = s; timestamp = timestamp; requests = [] }

-- What the backend writes, after an update from shared memory, in some events.
abbrev pub written_after : IpParser → Config → Json → Memory → List Event → Server → List Response
written_after parser config json memory events server =
    (main_loop parser config json (update memory.timestamp memory.dist ∷ events) server).written

-- The loop is reading, and a lookup gets this response next.
looked_up :
    (parser : IpParser) (config : Config) (json : Json) (published : DistState)
    (events : List Event) (server : Server) (params : Params) (l : String) (region : Option String)
    → (main_loop parser config json events server).end ≡ reading
    → Holds published (main_loop parser config json events server).server.state
    → IsLookup json params l
    → get_region parser params.remote config.topology_map ≡ ok region
    → (r : Response) × ((main_loop parser config json (events ++ line l ∷ []) server).written
        ≡ (main_loop parser config json events server).written ++ r ∷ [])
      × (r.result
          ≡ (do_lookup parser config params
              (reset (main_loop parser config json events server).server)).1.result)
unfolding write_response
looked_up parser config json published events server params l region ended (st, held, ready, _) k
      located =
    let s : Server = reset (main_loop parser config json events server).server in
    let after = do_lookup parser config params s in
    let returned =
      (do_lookup-KeepsReady parser config params s st held ready refl region located).0 in
    let r : Response = write_response config l after.1 in
    (
      r,
      main_loop-line parser config json events l server after.1 r ended (
          pass-lookup parser config json params l
            (main_loop parser config json events server).server after.1 k
            (ap (λ x. (x, after.1)) returned)),
      refl,
    )

module _ (parser : IpParser) (compile : Compile) (config : Config) (json : Json)
    (regions : Dict String (List String)) (at : ℕ → ℕ) (obj : LbConfig) (s : State) (timestamp : ℕ)
    (rs : List Round) (t : Tracker) where
  tracked-IsConfigured :
      HasNoDefault config.topology_map
      → new parser compile config.topology_map at obj ≡ ok s
      → run_rounds rs (at_first s timestamp) ≡ ok t
      → IsConfigured s.globalnames t
  tracked-IsConfigured apart built ran =
      let (known, pools_new) = new-IsSound parser compile config.topology_map at obj s built in
      run_rounds-IsConfigured s.globalnames rs (at_first s timestamp)
        (record {
          fit = IsNewPool-IsFit config.topology_map s.pools apart pools_new;
          same_names = refl;
          known = known;
        })
        ran

  -- A site at work. Its topology and its pools are built from a configuration, with the topology map
  -- that the backend has too; the tracker goes some rounds without an exception, after which every
  -- member has a status; the pusher, which has not noted the tracker's timestamp, pushes the state, and
  -- no change comes in between; the backend, whose STATE is ready or was never set and has another
  -- timestamp, updates from shared memory; and it answers any requests, while it fetches nothing else.
  -- Then the next line, an A or ANY query for a configured name whose pool serves some member, gets a
  -- response with addresses of members that are served to the client's region, as many as there are of
  -- them or as the pool returns at most.
  pub main_loop-served :
      (push : Push) (pusher : Pusher) (server : Server) (events : List Event) (l : String)
      (params : Params) (g : GlobalName) (p : Pool) (region : Option String)
      → config_to_map parser regions ≡ ok config.topology_map
      → new parser compile config.topology_map at obj ≡ ok s
      → run_rounds rs (at_first s timestamp) ≡ ok t
      → eqb t.timestamp pusher.state_ts ≡ false
      → (health_converged t.state).1 ≡ true
      → Succeeds push
      → IsSteady t.timestamp push
      → IsReadyOrUnset server.state
      → eqb t.timestamp server.state_ts ≡ false
      → AreQuiet parser config json
          (to_dist_dict push.now push.rng (health_converged t.state).0)
          events
      → IsLookup json params l
      → lookup (asked params) s.globalnames ≡ some g
      → lookup g.pool_name t.state.pools ≡ some p
      → is_address_query params ≡ true
      → get_region parser params.remote config.topology_map ≡ ok region
      → 0 < length (served p)
      → let memory = (push_round t.timestamp push t.state pusher).1.memory in
        (r : Response) × (written_after parser config json memory (events ++ line l ∷ []) server
          ≡ written_after parser config json memory events server ++ r ∷ [])
        × Gets params g p region r.result
  unfolding main_loop
  main_loop-served push pusher server events l params g p region mapped built ran stale converged
        succeeds steady ready new_ts quiet asks known pool address located some_served =
      let apart = config_to_map-HasNoDefault parser regions mapped in
      let c = tracked-IsConfigured apart built ran in
      let s' : State = (health_converged t.state).0 in
      let published = to_dist_dict push.now push.rng s' in
      let published_ready =
        to_dist_dict-IsReady push.now push.rng s' (unfold health_converged in c.known) in
      let fetched : Server = updated (some t.timestamp) (some published) server in
      let (ended, held) =
        main_loop-Holds parser config json published events fetched published_ready quiet
          (update_state-Holds t.timestamp published server ready published_ready new_ts) in
      let (r, written, result) =
        looked_up parser config json published events fetched params l region ended held asks
          located in
      let fit : IsFit p = AllValues-lookup IsFit g.pool_name t.state.pools c.fit pool in
      let gets =
        do_lookup-Holds parser config params push.now push.rng s'
          (reset (main_loop parser config json events fetched).server) g p region held refl
          (unfold health_converged in ap (lookup (asked params)) c.same_names ∙ known)
          (unfold health_converged in pool) address located
          (IsInMap-other config.topology_map region apart
            (get_region-IsInMap parser params.remote config.topology_map located)).1
          fit.apart some_served fit.returns_some in
      subst
        (λ x.
          (r : Response) × (written_after parser config json x.memory (events ++ line l ∷ []) server
            ≡ written_after parser config json x.memory events server ++ r ∷ [])
          × Gets params g p region r.result)
        (sym (push_round-Succeeds t.timestamp push t.state pusher stale converged succeeds steady))
        (r, written, subst (Gets params g p region) (sym result) gets)
