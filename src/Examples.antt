-- ===== src/Examples.antt =====
-- A small site, which the tests and the applications of the theorems share: two servers in two
-- regions behind one name.
mod Serving
mod Health
mod Startup
mod Requests
mod Probers
mod Checks
mod Guarding
mod Rounds
mod Tools
mod Whole
mod Shared
use mathlib.Core.List.Perm
use mathlib.Core.List.{Perm}
use polaris_gslb.Prelude.{
  ℕ, ◌≤◌, ◌<◌, ◌≡◌, ◌≢◌, refl, ◌⊎◌, String, Bool, true, false, not, Option, none, some, List, [],
  ◌∷◌, ◌++◌, map, arith, length, ◌-◌, lower, rstrip_dots, if◌then◌else◌,
}
use polaris_gslb.Prelude.Eq.{◌==◌, string_eq, option_eq, bool_eq}
use polaris_gslb.Prelude.Int.{pos}
use polaris_gslb.Util.{Obj, leaf, Leaf, instance', attribute, none_left, list, nil}
use polaris_gslb.Prelude.Dict.{lookup, insert, contains, modify, map_values}
use polaris_gslb.Prelude.Result.{Result, ok, raise, value_error}
use polaris_gslb.Monitors.{Kind, forced, Monitor}
use polaris_gslb.Topology.{
  IpAddress, v4, Network, IpParser, TopologyMap, get_region, config_to_map, network_eq,
}
use polaris_gslb.Topology.Longest.{IsRegionOf, get_region-IsRegionOf}
use polaris_gslb.Topology.Regions.{last_region, config_to_map-lookup}
use polaris_gslb.Pool.{Member, wrr, twrr, any, Pool}
use polaris_gslb.Pool.Dist.{default_name, Table, Rng}
use polaris_gslb.Pool.Dist
use polaris_gslb.Pool.Served.{served}
use polaris_gslb.Pool.Distribution.{
  HasRegionsApart, Serves, ServesOrAbsent, served_in, to_dist_dict-default, to_dist_dict-region,
}
use polaris_gslb.GlobalName.{GlobalName}
use polaris_gslb.GlobalName
use polaris_gslb.State.{State, to_dist_dict}
use polaris_gslb.State.Publish.{to_dist_dict-IsReady, do_lookup-mixed_case}
use polaris_gslb.State.Gets.{Gets}
use polaris_gslb.Published.{DistState, DistName}
use polaris_gslb.Pdns.{address, Config, auto, Server, refused, records}
use polaris_gslb.Pdns.Answers.{Params, do_lookup}
use polaris_gslb.Pdns.Ready.{IsReady}

-- The state as an object, with a private attribute.
abbrev pub state_object : Obj
state_object = instance' (
    attribute "timestamp" (leaf (Leaf.int (pos 1)))
      (attribute "_member_by_id" (list nil) none_left))

abbrev pub monitor : Monitor
monitor = record { interval = 10000; timeout = 1000; retries = 2; kind = forced true }

-- a member that is UP
abbrev pub server_at : String → ℕ → String → Member
server_at ip weight region = record {
  ip = ip;
  name = "www";
  weight = weight;
  region = some region;
  monitor_ip = ip;
  status = some true;
  status_reason = none;
  retries_left = some 2;
}

abbrev pub pool : Pool
pool = record {
  name = "pool1";
  monitor = monitor;
  members = server_at "10.1.0.1" 2 "dc1" ∷ server_at "10.2.0.1" 1 "dc2" ∷ [];
  lb_method = twrr;
  fallback = any;
  max_addrs_returned = 1;
  last_status = none;
}

abbrev pub www : GlobalName
www = record { name = "www.test.org"; pool_name = "pool1"; ttl = 30 }

abbrev pub site : State
site = record {
  pools = ("pool1", pool) ∷ [];
  globalnames = ("www.test.org", www) ∷ [];
  status_undetermined = [];
  pq = [];
}

-- No shuffle, and the index 0.
abbrev pub still : Rng
still = record {
  shuffle = λ name l. l;
  shuffle-perm = λ name l. Perm.refl l;
  random = λ name. 0;
  random-lt = λ name. omega arith;
}

-- Two addresses and two networks are known.
abbrev pub parser : IpParser
parser = record {
  ip_address = λ s.
      if s == "10.1.7.7"
      then some (v4 167839495)
      else if s == "10.9.0.1"
      then some (v4 168361985)
      else none;
  ip_network = λ s.
      if s == "10.1.0.0/16"
      then some (record { six = false; address = 167837696; prefixlen = 16 })
      else if s == "10.0.0.0/8"
      then some (record { six = false; address = 167772160; prefixlen = 8 })
      else none;
}

abbrev pub regions : List (String × List String)
regions = ("dc1", "10.1.0.0/16" ∷ []) ∷ ("dc2", "10.0.0.0/8" ∷ []) ∷ []

abbrev pub topology : TopologyMap
topology =
    (record { six = false; address = 167837696; prefixlen = 16 }, "dc1")
    ∷ (record { six = false; address = 167772160; prefixlen = 8 }, "dc2")
    ∷ []

pub regions-map : config_to_map parser regions ≡ ok topology
unfolding config_to_map insert
regions-map = refl

abbrev pub config : Config
config = record {
  soa_mname = "ns1.test.org";
  soa_rname = "admin.test.org";
  soa_serial = auto;
  soa_refresh = 3600;
  soa_retry = 600;
  soa_expire = 86400;
  soa_minimum = 1;
  soa_ttl = 86400;
  log = true;
  topology_map = topology;
}

abbrev pub query : Params
query = record { qname = "WWW.test.org."; qtype = "A"; remote = "10.1.7.7" }

abbrev pub published : DistState
published = to_dist_dict 5000 (λ name. still) site

abbrev pub backend : Server
backend = record { result = refused; log = []; state = some published; state_ts = 5000 }

pub located : get_region parser "10.1.7.7" topology ≡ ok (some "dc1")
unfolding get_region lookup
located = refl
