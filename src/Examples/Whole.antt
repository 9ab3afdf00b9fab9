-- ===== src/Examples/Whole.antt =====
-- A site from its configuration to an answer.
use polaris_gslb.Prelude.{eqb}
use polaris_gslb.Prelude.{
  ◌<◌, ◌≡◌, refl, String, true, false, some, none, List, [], ◌∷◌, arith, if◌then◌else◌, length,
  ◌++◌, lower, rstrip_dots,
}
use polaris_gslb.Prelude.Int.{pos}
use polaris_gslb.Prelude.Eq.{◌==◌, string_eq, option_eq}
use polaris_gslb.Prelude.Dict.{Dict, lookup, insert, contains, map_values}
use polaris_gslb.Prelude.Result.{ok}
use polaris_gslb.Config.{LbConfig, scalar, str, int}
use polaris_gslb.Topology.{IpParser, v4, config_to_map, get_region}
use polaris_gslb.Pool.{Pool}
use polaris_gslb.Pool.Config
use polaris_gslb.Pool.Served.{served}
use polaris_gslb.GlobalName
use polaris_gslb.GlobalName.{GlobalName}
use polaris_gslb.Tracker.Pusher.{Push, Pusher, done, push_round}
use polaris_gslb.State.{health_converged, State, pool_at, member_at}
use polaris_gslb.State.Init.{init}
use polaris_gslb.State.Queue.{replace}
use polaris_gslb.State.Config.{new}
use polaris_gslb.State.Gets.{Gets}
use polaris_gslb.Tracker.{Tracker, respond, store_response, round}
use polaris_gslb.Tracker.Schedule.{Round, run_rounds}
use polaris_gslb.Prober.{Probe}
use polaris_gslb.Pdns.{Config, Server, refused}
use polaris_gslb.Pdns.Answers.{Params}
use polaris_gslb.Pdns.Queries.{asked}
use polaris_gslb.Pdns.Backend.{Request, Json, Response}
use polaris_gslb.Pdns.Lookups.{IsLookup}
use polaris_gslb.Pdns.Loop.{Event, line, update}
use polaris_gslb.Pdns.Service.{IsRequest}
use polaris_gslb.Site.{at_first, written_after, main_loop-served}
use polaris_gslb.Examples.{state_object, monitor, still}
use polaris_gslb.Examples

-- Two addresses of one network.
abbrev parser : IpParser
parser = record {
  ip_address = λ s.
      if s == "10.1.7.7"
      then some (v4 167839495)
      else if s == "10.1.0.1"
      then some (v4 167837697)
      else none;
  ip_network = λ s.
      if s == "10.1.0.0/16"
      then some (record { six = false; address = 167837696; prefixlen = 16 })
      else none;
}

abbrev regions : Dict String (List String)
regions = ("dc1", "10.1.0.0/16" ∷ []) ∷ []

abbrev config : Config
config = record Examples.config {
  topology_map = (record { six = false; address = 167837696; prefixlen = 16 }, "dc1") ∷ [];
}

mapped : config_to_map parser regions ≡ ok config.topology_map
unfolding config_to_map insert
mapped = refl

abbrev site : LbConfig
site = record {
  pools = some (
      (
        "pool1",
        record {
          monitor = some (scalar (str "forced"));
          monitor_params = none;
          lb_method = some (scalar (str "twrr"));
          members = some (
              record {
                ip = some "10.1.0.1";
                name = some (scalar (str "www"));
                weight = some (scalar (int (pos 2)));
                monitor_ip = none;
              }
              ∷ []);
          fallback = none;
          max_addrs_returned = none;
        },
      )
      ∷ []);
  globalnames = some (
      (
        "www.test.org",
        record { pool = some (scalar (str "pool1")); ttl = some (scalar (int (pos 30))) },
      )
      ∷ []);
}

abbrev probe : Probe
probe = record {
  pool_id = 0;
  pool_name = "pool1";
  member_id = 0;
  member_ip = "10.1.0.1";
  monitor = monitor;
  monitor_ip = "10.1.0.1";
  status = some true;
  status_reason = none;
}

-- The probe of the server is asked for, and its response comes.
abbrev rounds : List Round
rounds =
    record { time = 5; checked = 5; now = 5; response = none }
    ∷ record { time = 7; checked = 7; now = 7; response = some probe }
    ∷ []

abbrev query : Params
query = record { qname = "www.test.org."; qtype = "A"; remote = "10.1.7.7" }

-- The state, the tracker after the rounds, the global name and its pool.
record Built : Type 0 where
  pub state : State
  pub tracked : Tracker
  pub name : GlobalName
  pub pool : Pool
  pub made : new parser (λ re. true) config.topology_map (λ i. 0) site ≡ ok state
  pub ran : run_rounds rounds (at_first state 0) ≡ ok tracked
  pub known : lookup (asked query) state.globalnames ≡ some name
  pub pooled : lookup name.pool_name tracked.state.pools ≡ some pool
  pub some_served : 0 < length (served pool)
  pub stale : eqb tracked.timestamp 0 ≡ false
  pub converged : (health_converged tracked.state).1 ≡ true

built : Built
unfolding new contains Config.from_config_dict lookup insert GlobalName.from_config_dict round
    get_region health_converged served init map_values pool_at member_at respond store_response
    replace lower rstrip_dots
built = record {
  state = _;
  tracked = _;
  name = _;
  pool = _;
  made = refl;
  ran = refl;
  known = refl;
  pooled = refl;
  some_served = omega arith;
  stale = refl;
  converged = refl;
}

located : get_region parser "10.1.7.7" config.topology_map ≡ ok (some "dc1")
unfolding get_region lookup
located = refl

abbrev lookup_request : Request
lookup_request = record {
  method = some "lookup";
  parameters =
      some (record { qname = some "www.test.org."; qtype = some "A"; remote = some "10.1.7.7" });
}

abbrev json : Json
json l = if l == "lookup" then some lookup_request else none

-- A request, and an update that fetches nothing.
abbrev events : List Event
events = line "lookup" ∷ update none none ∷ []

lookup_line : IsRequest parser config json "lookup"
lookup_line = record {
  full = refl;
  request = lookup_request;
  method = "lookup";
  parses = refl;
  has_method = refl;
}

abbrev empty : Server
empty = record { result = refused; log = []; state = none; state_ts = 0 }

-- The same line again, as a query.
query_line : IsLookup json query "lookup"
query_line = record {
  full = refl;
  request = lookup_request;
  parameters = record { qname = some "www.test.org."; qtype = some "A"; remote = some "10.1.7.7" };
  parses = refl;
  has_method = refl;
  has_parameters = refl;
  has_qname = refl;
  has_qtype = refl;
  has_remote = refl;
}

-- All sets of the push succeed.
abbrev push : Push
push = record {
  now = 9;
  rng = λ name. still;
  objects = λ s. state_object;
  set_dist = done;
  set_generic = done;
  set_timestamp = done;
  generic_ts = built.tracked.timestamp;
  pushed_ts = built.tracked.timestamp;
  noted_ts = built.tracked.timestamp;
}

abbrev pusher : Pusher
pusher = record { state_ts = 0; memory = record { dist = none; generic = none; timestamp = none } }

main_loop-served_example :
    let memory = (push_round built.tracked.timestamp push built.tracked.state pusher).1.memory in
    (r : Response) × (written_after parser config json memory (events ++ line "lookup" ∷ []) empty
      ≡ written_after parser config json memory events empty ++ r ∷ [])
    × Gets query built.name built.pool (some "dc1") r.result
main_loop-served_example =
    main_loop-served parser (λ re. true) config json regions (λ i. 0) site built.state 0 rounds
      built.tracked push pusher empty events "lookup" query built.name built.pool (some "dc1")
      mapped built.made built.ran built.stale built.converged
      (record { set_dist = refl; set_generic = refl; set_timestamp = refl })
      (record { generic = refl; pushed = refl; noted = refl }) tt built.stale
      (lookup_line, (tt, tt)) query_line built.known built.pooled refl located built.some_served
