-- ===== src/Examples/Serving.antt =====
-- The backend's answers on the small site.
use mathlib.Core.List.{Perm}
use polaris_gslb.Pool.Dist.{Rng}
use polaris_gslb.Prelude.{
  ◌≡◌, refl, Bool, true, false, none, some, [], ◌∷◌, arith, lower, rstrip_dots,
}
use polaris_gslb.Prelude.Eq.{string_eq, option_eq, ne_of_beq-false}
use polaris_gslb.Prelude.Dict.{lookup, insert, contains, modify, map_values}
use polaris_gslb.Prelude.Result.{ok}
use polaris_gslb.Topology.{get_region}
use polaris_gslb.Pool.{refuse, wrr}
use polaris_gslb.Pool.Dist.{default_name, Table, DistPool}
use polaris_gslb.Pool.Dist
use polaris_gslb.GlobalName
use polaris_gslb.GlobalName.{GlobalName}
use polaris_gslb.State.{State, to_dist_dict}
use polaris_gslb.State.Publish.{to_dist_dict-IsReady, do_lookup-mixed_case}
use polaris_gslb.Published.{DistState, DistName}
use polaris_gslb.Pdns.{address, Server, refused, records}
use polaris_gslb.Pdns.Answers.{
  Params, any_response, choose_table, respond, do_lookup, num_records_return,
}
use polaris_gslb.Pdns.Rotation.{addresses, addresses-perm}
use polaris_gslb.Pdns.Queries.{asked, Resolves, Answered, do_lookup-Answered}
use polaris_gslb.Pdns.Refusals.{
  IsSoaAnswer, IsRefused, do_lookup-unknown, do_lookup-refusing, do_lookup-soa_record,
}
use polaris_gslb.Pdns.Ready.{IsReady}
use polaris_gslb.Pdns.Turned.{IsTurned}
use polaris_gslb.Pdns.Safety.{KeepsReady, do_lookup-KeepsReady}
use polaris_gslb.Pdns.Sync.{table_at}
use polaris_gslb.Pdns.Updates.{pools_of, update_state}
use polaris_gslb.Pdns.Carry.{
  carried_option, HasCarried, IsReadyOrUnset, update_state-installs, update_state-IsReady,
}
use polaris_gslb.Examples.{parser, config, query, site, backend, published, still, www, located}

-- The answer of the backend, computed.
answer-example :
    (do_lookup parser config query backend).1.result
    ≡ records (
        record { qtype = "A"; qname = "WWW.test.org."; content = address "10.1.0.1"; ttl = 30 }
        ∷ [])
unfolding do_lookup to_dist_dict Dist.to_dist_dict GlobalName.to_dist_dict map_values lookup
    contains lower rstrip_dots insert modify any_response choose_table respond get_region
answer-example = refl

to_dist_dict-IsReady_example : IsReady published
unfolding contains
to_dist_dict-IsReady_example = to_dist_dict-IsReady 5000 (λ name. still) site (refl, tt)

site-IsReady : IsReady published
unfolding contains
site-IsReady = to_dist_dict-IsReady 5000 (λ name. still) site (refl, tt)

abbrev empty : Server
empty = record { result = refused; log = []; state = none; state_ts = 0 }

do_lookup-KeepsReady_example : KeepsReady published (do_lookup parser config query backend)
do_lookup-KeepsReady_example =
    do_lookup-KeepsReady parser config query backend published refl site-IsReady refl (some "dc1")
      located

update_state-IsReady_example :
    ((update_state (some 5000) (some published) empty).0 ≡ ok tt)
    × IsReadyOrUnset (update_state (some 5000) (some published) empty).1.state
update_state-IsReady_example =
    update_state-IsReady (some 5000) (some published) empty tt site-IsReady

-- A backend whose tables are at their second place.
abbrev spun : Rng
spun = record still { random = λ name. 4503599627370496; random-lt = λ name. omega arith }

abbrev old : DistState
old = to_dist_dict 4000 (λ name. spun) site

abbrev behind : Server
behind = record { result = refused; log = []; state = some old; state_ts = 4000 }

old-IsReady : IsReady old
unfolding contains
old-IsReady = to_dist_dict-IsReady 4000 (λ name. spun) site (refl, tt)

update_state-installs_example :
    (synced : DistState) × (update_state (some 5000) (some published) behind
      ≡ (ok tt, record behind { state = some synced; state_ts = 5000 }))
    × IsReady synced
    × HasCarried (pools_of (some old)) published.globalnames published synced
    × IsTurned published synced
update_state-installs_example =
    update_state-installs 5000 published behind old-IsReady site-IsReady refl

-- The index that is taken over.
carried-example :
    carried_option
      (table_at old.pools "pool1" default_name)
      (table_at published.pools "pool1" default_name)
    ≡ some (record {
      rotation = "10.1.0.1" ∷ "10.1.0.1" ∷ "10.2.0.1" ∷ [];
      num_unique_addrs = 2;
      index = 1;
    })
unfolding to_dist_dict Dist.to_dist_dict map_values lookup insert modify table_at contains
carried-example = refl

-- Three places for two servers, at the last of them.
abbrev table : Table
table = record {
  rotation = "10.1.0.1" ∷ "10.1.0.1" ∷ "10.2.0.1" ∷ [];
  num_unique_addrs = 2;
  index = 2;
}

addresses-perm_example : Perm (addresses 3 table) table.rotation
addresses-perm_example = addresses-perm table (omega arith)

-- A state that is written out, whose pool is DOWN in `down`.
abbrev dist : Bool → DistPool
dist status = record {
  status = status;
  lb_method = wrr;
  fallback = refuse;
  max_addrs_returned = 2;
  dist_tables = (default_name, table) ∷ [];
}

abbrev name : DistName
name = record { pool_name = "pool1"; ttl = 30 }

abbrev state : Bool → DistState
state status = record {
  timestamp = 5000;
  pools = ("pool1", dist status) ∷ [];
  globalnames = ("www.test.org", name) ∷ [];
}

abbrev holding : Bool → Server
holding status = record { result = refused; log = []; state = some (state status); state_ts = 5000 }

resolves : (status : Bool) → Resolves "www.test.org" (state status) name (dist status) table
unfolding lookup
resolves status = record { has_name = refl; has_pool = refl; has_default = refl }

do_lookup-Answered_example :
    Answered query name 2 default_name table
      (state true)
      (do_lookup parser config query (holding true))
unfolding lower rstrip_dots num_records_return
do_lookup-Answered_example =
    do_lookup-Answered parser config query (state true) name (dist true) table (holding true)
      (some "dc1") refl refl (resolves true) refl refl located (omega arith) (omega arith)

do_lookup-refusing_example :
    IsRefused (holding false) (do_lookup parser config query (holding false))
unfolding lower rstrip_dots
do_lookup-refusing_example =
    do_lookup-refusing parser config query (holding false) (state false) name (dist false) table
      refl (resolves false) refl refl

abbrev soa_query : Params
soa_query = record { qname = "www.test.org"; qtype = "SOA"; remote = "10.1.7.7" }

do_lookup-soa_record_example :
    ((do_lookup parser config soa_query (holding true)).0 ≡ ok tt)
    × IsSoaAnswer config soa_query 5000 (do_lookup parser config soa_query (holding true)).1.result
    × ((do_lookup parser config soa_query (holding true)).1.state ≡ some (state true))
unfolding lower rstrip_dots
do_lookup-soa_record_example =
    do_lookup-soa_record parser config soa_query (holding true) (state true) name (dist true) table
      refl (resolves true) refl refl refl

do_lookup-unknown_example :
    IsRefused
      (holding true)
      (do_lookup parser config (record query { qname = "mail.test.org" }) (holding true))
unfolding lower rstrip_dots contains
do_lookup-unknown_example =
    do_lookup-unknown parser config (record query { qname = "mail.test.org" }) (holding true)
      (state true) refl refl

-- The site with a capital letter in one of its global names.
abbrev mixed : State
mixed = record site { globalnames = ("ftp.test.org", www) ∷ ("WWW.test.org", www) ∷ [] }

abbrev mixed_backend : Server
mixed_backend = record backend { state = some (to_dist_dict 5000 (λ name. still) mixed) }

do_lookup-mixed_case_example : IsRefused mixed_backend (do_lookup parser config query mixed_backend)
unfolding lower rstrip_dots
do_lookup-mixed_case_example =
    do_lookup-mixed_case parser config query 5000 (λ name. still) mixed mixed_backend refl
      (
        λ same. absurd (ne_of_beq-false (lower "ftp.test.org") (asked query) refl same),
        (λ same. ne_of_beq-false (lower "WWW.test.org") "WWW.test.org" refl, tt),
      )
