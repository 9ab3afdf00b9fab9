-- ===== src/Pdns/Service.antt =====
-- The request loop answers every request, whatever happens in the handlers.
use polaris_gslb.Prelude.{
  ℕ, suc, ◌≡◌, refl, sym, subst, ap, ◌∙◌, lower, rstrip_dots, String, false, Option, none, some,
  List, [], ◌∷◌, length, Bool-cases, inl, inr,
}
use polaris_gslb.Prelude.Dict.{contains}
use polaris_gslb.Prelude.Eq.{◌==◌, string_eq}
use polaris_gslb.Prelude.Result.{Result, ok, raise, or_raise, key_error}
use polaris_gslb.Topology.{IpParser}
use polaris_gslb.Pdns.{Config, Server, Action, refused, ◌>>=◌, lift}
use polaris_gslb.Pdns.Answers.{do_get_domain_metadata}
use polaris_gslb.Pdns.Carry.{IsReadyOrUnset, update_state-IsReady}
use polaris_gslb.Pdns.Follows.{Follows, KeepsState, Follows-refl, Follows-IsReady}
use polaris_gslb.Pdns.Unlocated.{do_lookup-KeepsState}
use polaris_gslb.Published.{DistState}
use polaris_gslb.Pdns.Backend.{
  Parameters, Request, Json, Response, Pass, goes_on, do_initialize, lookup_handler, lookup_with,
  lookup_untyped, lookup_without_remote, reads_remote, get_method, after_method, call, execute,
  dispatch, pass, reset,
}
use polaris_gslb.Pdns.Loop.{Event, line, update, reading, main_loop, updated}

lift-KeepsState :
    {A : Type 0} (o : Option A) (f : A → Action (Unit {0})) (s : Server)
    → IsReadyOrUnset s.state
    → ((a : A) → KeepsState s.state (f a s))
    → KeepsState s.state ((lift (or_raise o key_error) >>= f) s)
lift-KeepsState none f s h k = Follows-refl s.state h
lift-KeepsState (some a) f s h k = k a

-- A method that keeps the state from a server with no answer, as the loop calls it.
abbrev IsSafe : Option (Parameters → Action (Unit {0})) → Type 0
IsSafe none = Unit
IsSafe (some f) =
    (p : Parameters) (s : Server)
    → s.result ≡ refused
    → IsReadyOrUnset s.state
    → KeepsState s.state (f p s)

-- The pass goes on, with a state that follows the old one.
abbrev GoesOn : Option DistState → Pass → Type 0
GoesOn o q = (r : Response) × (s : Server) × (q ≡ goes_on r s) × Follows o s.state

lookup_untyped-state :
    (qname : String) (o : Option DistState) (s : Server)
    → (lookup_untyped qname o s).1.state ≡ s.state
lookup_untyped-state qname none s = refl
lookup_untyped-state qname (some st) s =
    elim (Bool-cases (contains (lower (rstrip_dots qname)) st.globalnames)) [
      | inl known ↦ rw known refl
      | inr unknown ↦ rw unknown refl
    ]

module _ (parser : IpParser) (config : Config) where
  -- A lookup that lacks parameters follows the state too.
  lookup_without_remote-KeepsState :
      (qname qtype : String) (o : Option DistState) (s : Server)
      → s.result ≡ refused
      → IsReadyOrUnset s.state
      → KeepsState s.state (lookup_without_remote parser config qname qtype o s)
  lookup_without_remote-KeepsState qname qtype none s fresh h = Follows-refl s.state h
  lookup_without_remote-KeepsState qname qtype (some st) s fresh h =
      elim (Bool-cases (reads_remote qname qtype st)) [
        | inl reads ↦ rw reads (Follows-refl s.state h)
        | inr passes ↦ rw passes (do_lookup-KeepsState parser config _ s fresh h)
      ]

  lookup_with-KeepsState :
      (qname : String) (qtype remote : Option String) (s : Server)
      → s.result ≡ refused
      → IsReadyOrUnset s.state
      → KeepsState s.state (lookup_with parser config qname qtype remote s)
  lookup_with-KeepsState qname none remote s fresh h =
      subst (Follows s.state) (sym (lookup_untyped-state qname s.state s)) (Follows-refl s.state h)
  lookup_with-KeepsState qname (some qtype) none s fresh h =
      lookup_without_remote-KeepsState qname qtype s.state s fresh h
  lookup_with-KeepsState qname (some qtype) (some remote) s fresh h =
      do_lookup-KeepsState parser config _ s fresh h

  get_method-IsSafe : (name : String) → IsSafe (get_method parser config name)
  unfolding get_method
  get_method-IsSafe name = elim (Bool-cases (name == "lookup")) [
    | inl lookup' ↦ rw lookup' (
        unfold lookup_handler in
        λ p s fresh h.
          lift-KeepsState p.qname _ s h
            (λ qname. lookup_with-KeepsState qname p.qtype p.remote s fresh h))
    | inr other ↦ elim (Bool-cases (name == "getDomainMetadata")) [
      | inl metadata ↦
          rw (other, metadata)
            (unfold do_get_domain_metadata in λ p s fresh h. Follows-refl s.state h)
      | inr other' ↦ elim (Bool-cases (name == "initialize")) [
        | inl initialize ↦
            rw (other, other', initialize)
              (unfold do_initialize in λ p s fresh h. Follows-refl s.state h)
        | inr unknown ↦ rw (other, other', unknown) tt
      ]
    ]
  ]

  after_method-GoesOn :
      (o : Option DistState) (request name : String) (r : Result (Unit {0}) × Server)
      → KeepsState o r
      → GoesOn o (after_method parser config request name r)
  unfolding after_method
  after_method-GoesOn o request name (ok u, s) h = (_, s, refl, h)
  after_method-GoesOn o request name (raise e, s) h = (_, _, refl, h)

  execute-GoesOn :
      (request name : String) (m : Option (Parameters → Action (Unit {0}))) (p : Option Parameters)
      (s : Server)
      → IsSafe m
      → s.result ≡ refused
      → IsReadyOrUnset s.state
      → GoesOn s.state (execute parser config request name m p s)
  unfolding execute
  execute-GoesOn request name none p s safe fresh h = (_, _, refl, Follows-refl s.state h)
  execute-GoesOn request name (some f) p s safe fresh h =
      after_method-GoesOn s.state request name (call parser config f p s)
        (lift-KeepsState p f s h (λ q. safe q s fresh h))

  after_method-goes_on :
      (request name : String) (r : Result (Unit {0}) × Server)
      → (q : Response) × (s' : Server) × (after_method parser config request name r ≡ goes_on q s')
  unfolding after_method
  after_method-goes_on request name (ok u, s) = (_, s, refl)
  after_method-goes_on request name (raise e, s) = (_, _, refl)

  -- A method that is there or not, and that raises or not.
  execute-goes_on :
      (request name : String) (m : Option (Parameters → Action (Unit {0}))) (p : Option Parameters)
      (s : Server)
      → (r : Response) × (s' : Server) × (execute parser config request name m p s ≡ goes_on r s')
  unfolding execute
  execute-goes_on request name none p s = (_, _, refl)
  execute-goes_on request name (some f) p s =
      after_method-goes_on request name (call parser config f p s)

  module _ (json : Json) where
    -- A line that is not empty and holds a request with a method.
    pub record IsRequest (l : String) : Type 0 where
      pub full : (l == "") ≡ false
      pub request : Request
      pub method : String
      pub parses : json l ≡ some request
      pub has_method : request.method ≡ some method

    dispatch-GoesOn :
        (l : String) (r : Request) (o : Option String) (s : Server)
        → r.method ≡ o
        → (method : String) → o ≡ some method
        → s.result ≡ refused
        → IsReadyOrUnset s.state
        → GoesOn s.state (dispatch parser config l (some r) s)
    unfolding dispatch
    dispatch-GoesOn l r o s e method found fresh h = rw (e ∙ found) (
        execute-GoesOn l method (get_method parser config method) r.parameters s
          (get_method-IsSafe method) fresh h)

    pub pass-GoesOn :
        (l : String) (s : Server)
        → IsRequest l
        → IsReadyOrUnset s.state
        → GoesOn s.state (pass parser config json l s)
    unfolding pass
    pass-GoesOn l s r h =
        rw (r.full, r.parses)
          (dispatch-GoesOn l r.request r.request.method (reset s) refl r.method r.has_method refl h)

    -- Every line is a request, and every update fetches a ready state, or none.
    abbrev pub AreServed : List Event → Type 0
    AreServed [] = Unit
    AreServed (line l ∷ events) = IsRequest l × AreServed events
    AreServed (update ts fetched ∷ events) = IsReadyOrUnset fetched × AreServed events

    abbrev pub count_lines : List Event → ℕ
    count_lines [] = 0
    count_lines (line l ∷ events) = suc (count_lines events)
    count_lines (update ts fetched ∷ events) = count_lines events

    -- From a state that is ready or was never set, requests and updates that fetch ready states leave
    -- it ready or never set.
    main_loop-IsReadyOrUnset :
        (events : List Event) (s : Server)
        → IsReadyOrUnset s.state
        → AreServed events
        → IsReadyOrUnset (main_loop parser config json events s).server.state
    unfolding main_loop
    main_loop-IsReadyOrUnset [] s h all = h
    main_loop-IsReadyOrUnset (update ts fetched ∷ events) s h all =
        main_loop-IsReadyOrUnset events (updated ts fetched s)
          (update_state-IsReady ts fetched s h all.0).1 all.1
    main_loop-IsReadyOrUnset (line l ∷ events) s h all =
        let (r, s', e, follows) = pass-GoesOn l s all.0 h in
        rw (e, main_loop)
          (main_loop-IsReadyOrUnset events s' (Follows-IsReady s.state s'.state follows) all.1)

    -- Every line is a request.
    abbrev pub AreRequests : List Event → Type 0
    AreRequests [] = Unit
    AreRequests (line l ∷ events) = IsRequest l × AreRequests events
    AreRequests (update ts fetched ∷ events) = AreRequests events

    pass-goes_on :
        (l : String) (s : Server)
        → IsRequest l
        → (r : Response) × (s' : Server) × (pass parser config json l s ≡ goes_on r s')
    unfolding pass dispatch
    pass-goes_on l s k =
        rw (k.full, k.parses, k.has_method)
          (execute-goes_on l k.method (get_method parser config k.method) k.request.parameters
            (reset s))

    -- The loop writes one response for every line and goes on reading, if every line is a request with
    -- a method: whatever the method, whether it raises or not, from any state, and whatever is fetched
    -- in between.
    pub main_loop-serves :
        (events : List Event) (s : Server)
        → AreRequests events
        → ((main_loop parser config json events s).end ≡ reading)
          × (length (main_loop parser config json events s).written ≡ count_lines events)
    unfolding main_loop
    main_loop-serves [] s all = (refl, refl)
    main_loop-serves (update ts fetched ∷ events) s all =
        main_loop-serves events (updated ts fetched s) all
    main_loop-serves (line l ∷ events) s all =
        let (r, s', e) = pass-goes_on l s all.0 in
        let (end, count) = main_loop-serves events s' all.1 in rw (e, main_loop) (end, ap suc count)
