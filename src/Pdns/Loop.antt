-- ===== src/Pdns/Loop.antt =====
-- The request loop over a sequence of lines and state updates.
use polaris_gslb.Prelude.{ℕ, String, Option, none, some, List, [], ◌∷◌}
use polaris_gslb.Prelude.Result.{Exception}
use polaris_gslb.Published.{DistState}
use polaris_gslb.Topology.{IpParser}
use polaris_gslb.Pdns.{Config, Server}
use polaris_gslb.Pdns.Updates
use polaris_gslb.Pdns.Backend.{Json, Response, goes_on, returned, crashed, pass}

-- A line on stdin, or a run of StateUpdater.update_state with what it fetches.
pub data Event : Type 0 where
  line : String → Event
  update : Option ℕ → Option DistState → Event

-- How the loop ends: it has read all the lines, it has returned, or an exception has left it.
pub data End : Type 0 where
  reading : End
  stopped : End
  failed : Exception → End

-- What the loop wrote, and how it ended.
pub record Run : Type 0 where
  pub written : List Response
  pub end : End
  pub server : Server

abbrev pub one : Option Response → List Response
one none = []
one (some r) = r ∷ []

-- StateUpdater.run, whose thread an exception would end, and STATE with it stay as it is
abbrev pub updated : Option ℕ → Option DistState → Server → Server
updated ts fetched s = (Updates.update_state ts fetched s).1

module _ (parser : IpParser) (config : Config) (json : Json) where
  unfoldable pub main_loop : List Event → Server → Run
  main_loop [] s = record { written = []; end = reading; server = s }
  main_loop (update ts fetched ∷ events) s = main_loop events (updated ts fetched s)
  main_loop (line l ∷ events) s = elim (pass parser config json l s) [
    | goes_on r s' ↦ (let rest = main_loop events s' in record rest { written = r ∷ rest.written })
    | returned o s' ↦ record { written = one o; end = stopped; server = s' }
    | crashed e s' ↦ record { written = []; end = failed e; server = s' }
  ]
