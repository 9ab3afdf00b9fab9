-- ===== src/Pdns/Backend.antt =====
-- polaris_pdns/core/remotebackend.py: the request loop. What `json` reads from a line is a
-- parameter; `method` and `parameters` are `none` when the request has no such key. The updates
-- of the state, which run in a thread of their own, stand between the lines they come between.
use polaris_gslb.Prelude.{
  String, Bool, true, false, Option, none, some, List, [], ◌∷◌, ◌++◌, ◌&&◌, ◌||◌, lower,
  rstrip_dots, if◌then◌else◌,
}
use polaris_gslb.Prelude.Eq.{◌==◌, string_eq}
use polaris_gslb.Prelude.Result.{Exception, Result, ok, raise, or_raise, key_error}
use polaris_gslb.Topology.{IpParser}
use polaris_gslb.Pdns.{
  Config, Answer, refused, accepted, LogEntry, initialized, no_globalname, cannot_parse,
  not_implemented, failed_to_execute, request_was, result_was, process_id, time_taken, Server,
  Action, ◌>>=◌, ◌>>◌, lift, set_result, append_log,
}
use polaris_gslb.Pdns.Answers.{is_twrr, do_lookup, do_get_domain_metadata}
use polaris_gslb.Prelude.Dict.{lookup, contains}
use polaris_gslb.Published.{DistState}

-- obj['parameters'], with the keys that do_lookup reads
pub record Parameters : Type 0 where
  pub qname : Option String
  pub qtype : Option String
  pub remote : Option String

pub record Request : Type 0 where
  pub method : Option String
  pub parameters : Option Parameters

-- What json.loads makes of a line: a request, or `none` for a ValueError.
abbrev pub Json : Type 0
Json = String → Option Request

-- the object that is written, whose key `log` is there only if the log is on
pub record Response : Type 0 where
  pub result : Answer
  pub log : Option (List LogEntry)

-- One pass of the loop: it goes on, it returns, or an exception leaves it. The response is `none`
-- if nothing was written.
pub data Pass : Type 0 where
  goes_on : Response → Server → Pass
  returned : Option Response → Server → Pass
  crashed : Exception → Server → Pass

unfoldable pub do_initialize : Action (Unit {0})
do_initialize = do append_log initialized; set_result accepted

abbrev pub log_of : Bool → List LogEntry → Option (List LogEntry)
log_of true entries = some entries
log_of false entries = none

unfoldable pub write_response : Config → String → Server → Response
write_response config request s = record {
  result = s.result;
  log =
      log_of config.log
        (s.log ++ request_was request ∷ result_was s.result ∷ process_id ∷ time_taken ∷ []);
}

abbrev pub reset : Server → Server
reset s = record s { result = refused; log = [] }

-- a lookup without `qtype`, which is read for a name that is there
abbrev pub lookup_untyped : String → Option DistState → Action (Unit {0})
lookup_untyped qname none s = (raise key_error, s)
lookup_untyped qname (some st) s =
    let name = lower (rstrip_dots qname) in
    if contains name st.globalnames
    then (raise key_error, s)
    else (ok tt, record s { result = refused; log = s.log ++ no_globalname name ∷ [] })

-- `remote` is read for an A or ANY query of an UP pool with lb_method twrr.
abbrev pub reads_remote : String → String → DistState → Bool
reads_remote qname qtype st = elim (lookup (lower (rstrip_dots qname)) st.globalnames) [
  | none ↦ false
  | some g ↦ elim (lookup g.pool_name st.pools) [
    | none ↦ false
    | some pool ↦ (qtype == "ANY" || qtype == "A") && (pool.status && is_twrr pool.lb_method)
  ]
]

module _ (parser : IpParser) (config : Config) where
  -- a lookup without `remote`; where it is not read, its value does not matter
  abbrev pub lookup_without_remote : String → String → Option DistState → Action (Unit {0})
  lookup_without_remote qname qtype none s = (raise key_error, s)
  lookup_without_remote qname qtype (some st) s =
      if reads_remote qname qtype st
      then (raise key_error, s)
      else do_lookup parser config (record { qname = qname; qtype = qtype; remote = "" }) s

  abbrev pub lookup_with : String → Option String → Option String → Action (Unit {0})
  lookup_with qname none remote s = lookup_untyped qname s.state s
  lookup_with qname (some qtype) none s = lookup_without_remote qname qtype s.state s
  lookup_with qname (some qtype) (some remote) s =
      do_lookup parser config (record { qname = qname; qtype = qtype; remote = remote }) s

  -- do_lookup, as it reads its parameters: a missing one is a KeyError where it is read
  unfoldable pub lookup_handler : Parameters → Action (Unit {0})
  lookup_handler p = do
    qname ← lift (or_raise p.qname key_error)
    lookup_with qname p.qtype p.remote

  -- getattr(self, method_name): the methods of Polaris and RemoteBackend
  unfoldable pub get_method : String → Option (Parameters → Action (Unit {0}))
  unfolding lookup_handler do_initialize
  get_method name =
      if name == "lookup"
      then some lookup_handler
      else if name == "getDomainMetadata"
      then some (λ _. do_get_domain_metadata)
      else if name == "initialize"
      then some (λ _. do_initialize)
      else none

  -- the response after a method that returned, or that raised
  unfoldable pub after_method : String → String → Result (Unit {0}) × Server → Pass
  unfolding write_response
  after_method request name (Result.ok u, s) = goes_on (write_response config request s) s
  after_method request name (Result.raise e, s) =
      let failed = record s { result = refused; log = s.log ++ failed_to_execute name ∷ [] } in
      goes_on (write_response config request failed) failed

  -- method(obj['parameters'])
  abbrev pub call : (Parameters → Action (Unit {0})) → Option Parameters → Action (Unit {0})
  call f p = lift (or_raise p key_error) >>= f

  unfoldable pub execute :
      String → String → Option (Parameters → Action (Unit {0})) → Option Parameters → Server → Pass
  unfolding after_method write_response
  execute request name none p s =
      let missing = record s { result = refused; log = s.log ++ not_implemented name ∷ [] } in
      goes_on (write_response config request missing) missing
  execute request name (some f) p s = after_method request name (call f p s)

  -- the request, once it is parsed
  unfoldable pub dispatch : String → Option Request → Server → Pass
  unfolding get_method execute write_response
  dispatch request none s =
      let unparsed = record s { log = s.log ++ cannot_parse request ∷ [] } in
      returned (some (write_response config request unparsed)) unparsed
  dispatch request (some r) s = elim r.method [
    | none ↦ crashed key_error s
    | some name ↦ execute request name (get_method name) r.parameters s
  ]

  -- one pass of the loop, on a line without its end
  unfoldable pub pass : Json → String → Server → Pass
  unfolding dispatch
  pass json request s =
      if request == "" then returned none (reset s) else dispatch request (json request) (reset s)
