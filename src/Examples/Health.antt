-- ===== src/Examples/Health.antt =====
-- The health of the small site, its tables and its topology.
use polaris_gslb.Prelude.{
  ℕ, ◌≡◌, ◌≢◌, refl, ◌⊎◌, not, String, Bool, true, false, Option, none, some, List, [], ◌∷◌,
}
use polaris_gslb.Prelude.{every}
use polaris_gslb.State.Converged.{IsSplit, is_determined, health_converged-every}
use polaris_gslb.Prelude.Eq.{◌==◌, string_eq, option_eq, bool_eq}
use polaris_gslb.Prelude.Dict.{lookup}
use polaris_gslb.Prelude.Result.{ok}
use polaris_gslb.Topology.{v4, Network, network_eq, get_region}
use polaris_gslb.Topology.Longest.{IsRegionOf, get_region-IsRegionOf}
use polaris_gslb.Topology.Regions.{last_region, config_to_map-lookup}
use polaris_gslb.Pool.{Member}
use polaris_gslb.Pool.Dist.{default_name, Table, to_dist_dict}
use polaris_gslb.Pool.Served.{served}
use polaris_gslb.Pool.Distribution.{
  Serves, ServesOrAbsent, served_in, to_dist_dict-default, to_dist_dict-region,
}
use polaris_gslb.Prober.{Probe}
use polaris_gslb.State.{State, health_converged}
use polaris_gslb.State
use polaris_gslb.Tracker.Responses.{Processed, process_probe_response-Processed}
use polaris_gslb.State.{pool_at, member_at}
use polaris_gslb.Tracker.{respond, Tracker, process_probe_response}
use polaris_gslb.Tracker.Retries.{respond_all, respond_all-status}
use polaris_gslb.Tracker.Pusher.{
  done, Push, Pusher, IsNoted, push_round, push_round-cases, push_round-lost,
}
use polaris_gslb.Examples.{
  state_object, parser, regions, regions-map, topology, pool, still, site, monitor, server_at,
}

to_dist_dict-default_example :
    (t : Table) × (lookup default_name (to_dist_dict still pool).dist_tables ≡ some t)
    × Serves (served pool) t
to_dist_dict-default_example = to_dist_dict-default still pool (refl, (refl, tt))

to_dist_dict-region_example :
    ServesOrAbsent
      (served_in pool (some "dc2"))
      (lookup (some "dc2") (to_dist_dict still pool).dist_tables)
to_dist_dict-region_example = to_dist_dict-region still pool (some "dc2") refl

get_region-IsRegionOf_example :
    (r : Option String) × (get_region parser "10.9.0.1" topology ≡ ok r)
    × IsRegionOf (v4 168361985) topology r
get_region-IsRegionOf_example = get_region-IsRegionOf parser "10.9.0.1" topology (v4 168361985) refl

abbrev net : Network
net = record { six = false; address = 167837696; prefixlen = 16 }

config_to_map-lookup_example : lookup net topology ≡ last_region parser net regions none
config_to_map-lookup_example = config_to_map-lookup parser regions topology net regions-map

-- a probe that passed, or failed
abbrev probe : Bool → Probe
probe status = record {
  pool_id = 0;
  pool_name = "pool1";
  member_id = 0;
  member_ip = "10.1.0.1";
  monitor = monitor;
  monitor_ip = "10.1.0.1";
  status = some status;
  status_reason = none;
}

abbrev new : Member
new = record (server_at "10.1.0.1" 2 "dc1") { status = none }

-- Three failures after a success, with two retries.
abbrev probes : List Probe
probes = probe true ∷ probe false ∷ probe false ∷ probe false ∷ []

respond_all-status_example :
    (m' : Member) × (respond_all 2 probes new ≡ ok m')
    × (m'.status ≡ some false)
    × (m'.retries_left ≡ some 0)
respond_all-status_example = respond_all-status 2 probes new refl refl

abbrev risen : Member
risen = record new { status = some true; retries_left = some 2 }

abbrev one_push : Push
one_push = record {
  now = 5000;
  rng = λ name. still;
  objects = λ s. state_object;
  set_dist = done;
  set_generic = done;
  set_timestamp = done;
  generic_ts = 5000;
  pushed_ts = 5000;
  noted_ts = 5000;
}

abbrev pusher : Pusher
pusher = record { state_ts = 0; memory = record { dist = none; generic = none; timestamp = none } }

push_round-cases_example :
    (((◌≡◌ {A = ℕ} 5000 0) ⊎ ((health_converged site).1 ≡ false))
      × ((push_round 5000 one_push site pusher).1 ≡ pusher))
    ⊎ ((◌≢◌ {A = ℕ} 5000 0)
        × ((health_converged site).1 ≡ true)
        × IsNoted 5000 one_push
            (health_converged site).0
            pusher
            (push_round 5000 one_push site pusher).1)
push_round-cases_example =
    push_round-cases 5000 one_push site pusher
      (record { generic = refl; pushed = refl; noted = refl })

-- The site after its only pool lost its members.
abbrev later : State
later = record site { pools = ("pool1", record pool { members = [] }) ∷ [] }

push_round-lost_example :
    ((push_round 4000 one_push site pusher).1.memory.dist
      ≡ some (State.to_dist_dict 5000 (λ name. still) (health_converged site).0))
    × ((push_round 4000 one_push site pusher).1.memory.timestamp ≡ some 5000)
    × (push_round 5000 one_push later (push_round 4000 one_push site pusher).1
        ≡ (later, (push_round 4000 one_push site pusher).1))
unfolding health_converged
push_round-lost_example =
    push_round-lost 4000 5000 one_push one_push site later pusher refl refl refl refl refl
      (record { generic = refl; pushed = refl; noted = refl })

-- The tracker of the site.
abbrev tracker : Tracker
tracker = record { state = site; timestamp = 1000; requests = [] }

process_probe_response-Processed_example :
    (m : Member) × (changed : Bool) × (t' : Tracker) × (process_probe_response 9000
        (probe false)
        tracker
      ≡ ok t')
    × (respond 2 (probe false) (server_at "10.1.0.1" 2 "dc1") ≡ ok (m, changed))
    × (changed ≡ not (m.status == some true))
    × Processed 9000 (probe false) m changed tracker t'
unfolding pool_at member_at
process_probe_response-Processed_example =
    process_probe_response-Processed 9000 (probe false) tracker pool (server_at "10.1.0.1" 2 "dc1")
      2 refl refl refl

-- The site with both members on the list of the undetermined, the second of them new.
abbrev waiting : State
waiting = record site {
  pools = ("pool1", record pool { members = server_at "10.1.0.1" 2 "dc1" ∷ new ∷ [] }) ∷ [];
  status_undetermined = 0 ∷ 1 ∷ [];
}

health_converged-every_example :
    ((health_converged waiting).1 ≡ every (is_determined waiting.pools) (0 ∷ 1 ∷ []))
    × IsSplit
        (is_determined waiting.pools)
        (0 ∷ 1 ∷ [])
        (health_converged waiting).0.status_undetermined
    × ((health_converged waiting).0.pools ≡ waiting.pools)
    × ((health_converged waiting).0.globalnames ≡ waiting.globalnames)
    × ((health_converged waiting).0.pq ≡ waiting.pq)
health_converged-every_example = health_converged-every waiting
