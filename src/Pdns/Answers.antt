-- ===== src/Pdns/Answers.antt =====
-- polaris_pdns/core/polaris.py, class Polaris: the answers to queries. A request's parameters are
-- given as a record; a lookup that lacks one is in Pdns/Backend.antt.
use polaris_gslb.Prelude.{
  ℕ, suc, zero, ◌+◌, ◌/◌, String, Bool, true, false, ◌&&◌, ◌||◌, not, Option, none, some, [], ◌∷◌,
  ◌++◌, length, get_elem?, leb, eqb, if◌then◌else◌, lower, rstrip_dots,
}
use polaris_gslb.Prelude.Eq.{◌==◌, string_eq, option_eq}
use polaris_gslb.Prelude.Dict.{lookup, contains, modify}
use polaris_gslb.Prelude.Result.{Result, ok, raise, or_raise, key_error, index_error}
use polaris_gslb.Topology.{IpParser, get_region}
use polaris_gslb.Pool.{LbMethod, twrr, Fallback, refuse}
use polaris_gslb.Pool.Dist.{TableName, default_name, Table, DistPool}
use polaris_gslb.Published.{DistName, DistState}
use polaris_gslb.Pdns.{
  Serial, auto, static, Config, address, soa, Record, Answer, refused, no_globalname, lookup_time,
  client_region, table_used, Action, ◌>>=◌, ◌>>◌, lift, gets, set_result, append_log, add_record,
}

-- params['qname'], params['qtype'], params['remote']
pub record Params : Type 0 where
  pub qname : String
  pub qtype : String
  pub remote : String

-- increment the index, and set it to 0 at the end of the rotation list
unfoldable pub advance : Table → Table
advance t =
    let next = t.index + 1 in record t { index = if leb (length t.rotation) next then 0 else next }

-- One of the answers of a query: what the loop has written when it ends, by an IndexError too.
pub record Progress : Type 0 where
  pub outcome : Result (Unit {0})
  pub result : Answer
  pub table : Table

-- the loop that adds records to the response
unfoldable pub answer_loop : String → ℕ → ℕ → Answer → Table → Progress
unfolding advance add_record
answer_loop qname ttl zero a t = record { outcome = ok tt; result = a; table = t }
answer_loop qname ttl (suc n) a t = elim (get_elem? t.rotation t.index) [
  | none ↦ record { outcome = raise index_error; result = a; table = t }
  | some ip ↦
      answer_loop qname ttl n
        (add_record (record { qtype = "A"; qname = qname; content = address ip; ttl = ttl }) a)
        (advance t)
]

-- STATE[...], which has no keys before the first update
abbrev pub get_state : Action DistState
get_state s = (or_raise s.state key_error, s)

-- the number of records to return
unfoldable pub num_records_return : Table → DistPool → ℕ
num_records_return t pool =
    if leb t.num_unique_addrs pool.max_addrs_returned
    then t.num_unique_addrs
    else pool.max_addrs_returned

-- STATE with another table: the loop changes the index of a table that STATE holds.
unfoldable pub set_table : String → TableName → Table → DistState → DistState
set_table pool_name name t st =
    let put : DistPool → DistPool =
      λ pool. record pool { dist_tables = modify name (λ _. t) pool.dist_tables } in
    record st { pools = modify pool_name put st.pools }

abbrev pub update_state : (DistState → DistState) → Option DistState → Option DistState
update_state f none = none
update_state f (some st) = some (f st)

-- from the table that was chosen to the end of _any_response
unfoldable pub respond : Params → DistName → DistPool → TableName → Table → Action (Unit {0})
unfolding num_records_return set_table answer_loop
respond params g pool name t s =
    let logged = record s { log = s.log ++ table_used t ∷ [] } in
    let n = num_records_return t pool in
    let p = answer_loop params.qname g.ttl n logged.result t in
    if eqb n 0 then (ok tt, record logged { result = refused }) else (
      p.outcome,
      record logged {
        result = p.result;
        state = update_state (set_table g.pool_name name p.table) logged.state;
      },
    )

abbrev pub is_twrr : LbMethod → Bool
is_twrr twrr = true
is_twrr _ = false

abbrev pub is_refuse : Fallback → Bool
is_refuse refuse = true
is_refuse _ = false

-- the region's table, if there is one
abbrev pub table_or : TableName → Option Table → Table → TableName × Table
table_or region none default = (default_name, default)
table_or region (some t) default = (region, t)

module _ (parser : IpParser) (config : Config) where
  -- the table for a client of an UP pool: that of its region, if there is one
  unfoldable pub choose_table : Params → DistPool → Table → Action (TableName × Table)
  choose_table params pool default s =
      if is_twrr pool.lb_method
      then (do
        region ← lift (get_region parser params.remote config.topology_map)
        append_log lookup_time
        append_log (client_region region)
        lift (ok (table_or region (lookup region pool.dist_tables) default)))
          s
      else (ok (default_name, default), s)

  unfoldable pub any_response : Params → String → Action (Unit {0})
  any_response params qname = do
    st ← get_state
    g ← lift (or_raise (lookup qname st.globalnames) key_error)
    pool ← lift (or_raise (lookup g.pool_name st.pools) key_error)
    default ← lift (or_raise (lookup default_name pool.dist_tables) key_error)
    if pool.status
        then (do chosen ← choose_table params pool default; respond params g pool chosen.0 chosen.1)
        else if is_refuse pool.fallback
        then set_result refused
        else respond params g pool default_name default

  -- int(STATE_TS), the seconds of the timestamp, or the configured number
  unfoldable pub serial_of : ℕ → Serial → ℕ
  serial_of state_ts auto = state_ts / 1000
  serial_of state_ts (static n) = n

  unfoldable pub soa_record : Params → ℕ → Record
  unfolding serial_of
  soa_record params state_ts = record {
    qtype = "SOA";
    qname = params.qname;
    content = soa (record {
      mname = config.soa_mname;
      rname = config.soa_rname;
      serial = serial_of state_ts config.soa_serial;
      refresh = config.soa_refresh;
      retry = config.soa_retry;
      expire = config.soa_expire;
      minimum = config.soa_minimum;
    });
    ttl = config.soa_ttl;
  }

  unfoldable pub soa_response : Params → String → Action (Unit {0})
  unfolding soa_record
  soa_response params qname = do
    st ← get_state
    g ← lift (or_raise (lookup qname st.globalnames) key_error)
    pool ← lift (or_raise (lookup g.pool_name st.pools) key_error)
    s ← gets (λ s. s)
    if not pool.status && is_refuse pool.fallback
        then set_result refused
        else set_result (add_record (soa_record params s.state_ts) s.result)

  unfoldable pub do_lookup : Params → Action (Unit {0})
  do_lookup params = do
    let qname = lower (rstrip_dots params.qname)
    st ← get_state
    if not (contains qname st.globalnames)
        then (do append_log (no_globalname qname); set_result refused)
        else if params.qtype == "ANY" || params.qtype == "A"
        then any_response params qname
        else if params.qtype == "SOA"
        then soa_response params qname
        else set_result refused

-- do_getDomainMetadata
unfoldable pub do_get_domain_metadata : Action (Unit {0})
do_get_domain_metadata = set_result refused
