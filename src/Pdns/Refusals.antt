-- ===== src/Pdns/Refusals.antt =====
-- When `do_lookup` refuses a query, and what it answers to SOA queries.
use polaris_gslb.Prelude.{ℕ, ◌*◌, ◌+◌, ◌≤◌, ◌<◌}
use polaris_gslb.Prelude.{
  ◌≡◌, refl, sym, subst, ◌∙◌, String, Bool, true, false, ◌&&◌, ◌||◌, not, Option, some, [], ◌∷◌,
  arith, if◌then◌else◌, Bool-cases, inl, inr,
}
use polaris_gslb.Prelude.Eq.{◌==◌, string_eq, option_eq}
use polaris_gslb.Prelude.Dict.{lookup, contains, contains_of_lookup}
use polaris_gslb.Prelude.Result.{Result, ok, key_error}
use polaris_gslb.Topology.{IpParser, get_region}
use polaris_gslb.Pool.Dist.{default_name, Table, DistPool}
use polaris_gslb.Published.{DistName, DistState}
use polaris_gslb.Pdns.{
  Config, Serial, auto, static, Content, Answer, refused, records, Server, add_record, bind-found,
  branch-true, branch-false,
}
use polaris_gslb.Pdns.Answers.{
  Params, num_records_return, any_response, serial_of, soa_record, soa_response, do_lookup,
  is_refuse,
}
use polaris_gslb.Pdns.Queries.{
  asked, Resolves, table_for, is_refusing, is_address_query, respond-nothing, any_response_lem,
  do_lookup-address,
}

-- The handler returned, with the result False, and left STATE as it was.
abbrev pub IsRefused : Server → Result (Unit {0}) × Server → Type 0
IsRefused s r = (r.0 ≡ ok tt) × (r.1.result ≡ refused) × (r.1.state ≡ s.state)

abbrev pub is_soa_query : Params → Bool
is_soa_query params = not (is_address_query params) && (params.qtype == "SOA")

-- The serial is the configured number, or the seconds of a time in milliseconds.
abbrev pub IsSerial : Serial → ℕ → ℕ → Type 0
IsSerial (static n) ts serial = serial ≡ n
IsSerial auto ts serial = (serial * 1000 ≤ ts) × (ts < serial * 1000 + 1000)

-- One SOA record, with the configured fields and a serial.
pub record IsSoaAnswer (config : Config) (params : Params) (ts : ℕ) (answer : Answer) : Type 0 where
  pub serial : ℕ
  pub answers :
      answer
      ≡ records (
          record {
            qtype = "SOA";
            qname = params.qname;
            content = Content.soa (record {
              mname = config.soa_mname;
              rname = config.soa_rname;
              serial = serial;
              refresh = config.soa_refresh;
              retry = config.soa_retry;
              expire = config.soa_expire;
              minimum = config.soa_minimum;
            });
            ttl = config.soa_ttl;
          }
          ∷ [])
  pub is_serial : IsSerial config.soa_serial ts serial

serial_of-IsSerial :
    (parser : IpParser) (config : Config) (ts : ℕ) (serial : Serial)
    → IsSerial serial ts (serial_of parser config ts serial)
unfolding serial_of
serial_of-IsSerial parser config ts auto = (omega arith, omega arith)
serial_of-IsSerial parser config ts (static n) = refl

soa_record-IsSoaAnswer :
    (parser : IpParser) (config : Config) (params : Params) (ts : ℕ)
    → IsSoaAnswer config params ts (add_record (soa_record parser config params ts) refused)
unfolding soa_record add_record
soa_record-IsSoaAnswer parser config params ts = record {
  serial = serial_of parser config ts config.soa_serial;
  answers = refl;
  is_serial = serial_of-IsSerial parser config ts config.soa_serial;
}

module _ (parser : IpParser) (config : Config) (params : Params) (s : Server) where
  -- A query for a name that is not a global name is refused.
  pub do_lookup-unknown :
      (st : DistState)
      → s.state ≡ some st
      → contains (asked params) st.globalnames ≡ false
      → IsRefused s (do_lookup parser config params s)
  unfolding do_lookup
  do_lookup-unknown st held unknown =
      subst (IsRefused s)
        (sym (
          bind-found s.state key_error _ s held
          ∙ branch-true (not (contains (asked params) st.globalnames)) _ _ s (ground arith)))
        (refl, refl, refl)

  -- A query of a type other than A, ANY and SOA is refused.
  pub do_lookup-other_type :
      (st : DistState)
      → s.state ≡ some st
      → is_address_query params ≡ false
      → is_soa_query params ≡ false
      → IsRefused s (do_lookup parser config params s)
  unfolding do_lookup
  do_lookup-other_type st held other not_soa =
      elim (Bool-cases (contains (asked params) st.globalnames)) [
        | inr unknown ↦ do_lookup-unknown st held unknown
        | inl known ↦
            subst (IsRefused s)
              (sym (
                bind-found s.state key_error _ s held
                ∙ (branch-false (not (contains (asked params) st.globalnames)) _ _ s (ground arith)
                    ∙ (branch-false (is_address_query params) _ _ s other
                        ∙ branch-false (params.qtype == "SOA") _ _ s (ground arith)))))
              (refl, refl, refl)
      ]

  module _ (st : DistState) (g : DistName) (pool : DistPool) (default : Table)
      (held : s.state ≡ some st) (r : Resolves (asked params) st g pool default) where
    do_lookup-soa :
        is_soa_query params ≡ true
        → do_lookup parser config params s ≡ soa_response parser config params (asked params) s
    unfolding do_lookup
    do_lookup-soa soa =
        bind-found s.state key_error _ s held
        ∙ (branch-false (not (contains (asked params) st.globalnames)) _ _ s
              (ground (arith, contains_of_lookup (asked params) st.globalnames r.has_name))
            ∙ (branch-false (is_address_query params) _ _ s (ground arith)
                ∙ branch-true (params.qtype == "SOA") _ _ s (ground arith)))

    soa_response_lem : soa_response parser config params (asked params) s ≡ (
        if is_refusing pool then (ok tt, record s { result = refused }) else (
          ok tt,
          record s { result = add_record (soa_record parser config params s.state_ts) s.result },
        ))
    unfolding soa_response
    soa_response_lem =
        bind-found s.state key_error _ s held
        ∙ (bind-found (lookup (asked params) st.globalnames) key_error _ s r.has_name
            ∙ (bind-found (lookup g.pool_name st.pools) key_error _ s r.has_pool ∙ ground arith))

    any_response-refusing :
        is_refusing pool ≡ true
        → any_response parser config params (asked params) s
          ≡ (ok tt, record s { result = refused })
    unfolding any_response
    any_response-refusing refusing =
        bind-found s.state key_error _ s held
        ∙ (bind-found (lookup (asked params) st.globalnames) key_error _ s r.has_name
            ∙ (bind-found (lookup g.pool_name st.pools) key_error _ s r.has_pool
                ∙ (bind-found (lookup default_name pool.dist_tables) key_error _ s r.has_default
                    ∙ (branch-false pool.status _ _ s (ground arith)
                        ∙ branch-true (is_refuse pool.fallback) _ _ s (ground arith)))))

    -- A pool that is DOWN with the fallback `refuse` refuses A, ANY and SOA queries.
    pub do_lookup-refusing :
        is_address_query params || is_soa_query params ≡ true
        → is_refusing pool ≡ true
        → IsRefused s (do_lookup parser config params s)
    do_lookup-refusing query refusing = elim (Bool-cases (is_address_query params)) [
      | inl address ↦
          subst (IsRefused s)
            (sym (
              do_lookup-address parser config params st s held (contains_of_lookup _ _ r.has_name)
                address
              ∙ any_response-refusing refusing))
            (refl, refl, refl)
      | inr other ↦
          subst (IsRefused s) (sym (do_lookup-soa (ground arith) ∙ soa_response_lem))
            (rw refusing (refl, refl, refl))
    ]

    -- A SOA query on a pool that does not refuse is answered with one SOA record, which has the name as
    -- it was asked, the configured fields, and as its serial the configured number, or else the whole
    -- seconds of the state's timestamp; and STATE stays as it was.
    pub do_lookup-soa_record :
        s.result ≡ refused
        → is_soa_query params ≡ true
        → is_refusing pool ≡ false
        → ((do_lookup parser config params s).0 ≡ ok tt)
          × IsSoaAnswer config params s.state_ts (do_lookup parser config params s).1.result
          × ((do_lookup parser config params s).1.state ≡ s.state)
    do_lookup-soa_record fresh soa willing =
        rw (do_lookup-soa soa ∙ soa_response_lem, willing, fresh)
          (refl, soa_record-IsSoaAnswer parser config params s.state_ts, refl)

    -- An address query is refused if the table for the client's region has no address to return.
    pub do_lookup-empty :
        (region : Option String)
        → is_address_query params ≡ true
        → is_refusing pool ≡ false
        → get_region parser params.remote config.topology_map ≡ ok region
        → num_records_return (table_for pool region default).1 pool ≡ 0
        → IsRefused s (do_lookup parser config params s)
    do_lookup-empty region address willing located nothing =
        subst (IsRefused s)
          (sym (
            do_lookup-address parser config params st s held (contains_of_lookup _ _ r.has_name)
              address
            ∙ any_response_lem parser config params (asked params) st g pool default s region held r
                willing located))
          (respond-nothing params g pool (table_for pool region default).0
            (table_for pool region default).1 _ nothing)
