-- ===== src/Tracker/Reachable.antt =====
-- The tracker and the probers together: the probes that the tracker has requested come back with the
-- outcomes of their monitors, in any order and at any time.
use mathlib.Core.List.{Memᴰ}
use polaris_gslb.Prelude.{
  ℕ, ◌<◌, ◌≡◌, refl, sym, subst, ◌∙◌, String, Bool, true, false, Option, none, some, List, [], ◌∷◌,
  ◌++◌, All, leb, Bool-cases, inl, inr,
}
use polaris_gslb.Prelude.Dict.{Dict}
use polaris_gslb.Prelude.Result.{ok, or_raise, index_error, >>=-eq-ok, ok_injective}
use polaris_gslb.Pool.{Member, Pool}
use polaris_gslb.GlobalName.{GlobalName}
use polaris_gslb.State.{pool_at, member_at}
use polaris_gslb.State.Queue.{Item}
use polaris_gslb.Prober.{Probe, Outcome, passed, failed, crashed, run}
use polaris_gslb.Tracker.{Tracker, store_response, issue_probe_request, schedule, round, receive}
use polaris_gslb.Tracker.Schedule.{
  receive_kept, receive-pq, IsSchedule, Round, init-IsSchedule, round-IsSchedule,
}
use polaris_gslb.Tracker.Progress.{Refers, IsRunning, IsKnown}
use polaris_gslb.Tracker.Rounds.{
  started, member_count, pool_count, round_returns, started-IsRunning,
}

-- No response, or a probe that was requested, after its monitor has run.
abbrev pub IsAnswer : List Probe → Option Probe → Type 0
IsAnswer requests none = Unit
IsAnswer requests (some probe) =
    (q : Probe) × (outcome : Outcome) × Memᴰ q requests × (probe ≡ run outcome q)

-- The states of the tracker that rounds lead to, when every response answers a request.
pub data Reaches (first : Tracker) : Tracker → Type 0 where
  here : Reaches first first
  after :
      (t t' : Tracker) (r : Round)
      → Reaches first t
      → IsAnswer t.requests r.response
      → round r.time r.checked r.now r.response t ≡ ok t'
      → Reaches first t'

module _ (n pools : ℕ) where
  abbrev IsKnownProbe : Probe → Type 0
  IsKnownProbe q = (q.member_id < n) × (q.pool_id < pools)

  run-IsKnown : (outcome : Outcome) (q : Probe) → IsKnownProbe q → IsKnownProbe (run outcome q)
  unfolding run
  run-IsKnown passed q h = h
  run-IsKnown (failed message) q h = h
  run-IsKnown (crashed message) q h = h

  All-Memᴰ : (q : Probe) (l : List Probe) → All IsKnownProbe l → Memᴰ q l → IsKnownProbe q
  All-Memᴰ q [] h listed = elim listed [ ]
  All-Memᴰ q (x ∷ l) h (Memᴰ.head same) = subst IsKnownProbe (sym same) h.0
  All-Memᴰ q (x ∷ l) h (Memᴰ.tail listed) = All-Memᴰ q l h.1 listed

  All-append_one :
      (l : List Probe) (q : Probe)
      → All IsKnownProbe l
      → IsKnownProbe q
      → All IsKnownProbe (l ++ q ∷ [])
  All-append_one [] q all one = (one, tt)
  All-append_one (x ∷ l) q all one = (all.0, All-append_one l q all.1 one)

  answer-IsKnown :
      (requests : List Probe) (response : Option Probe)
      → All IsKnownProbe requests
      → IsAnswer requests response
      → IsKnown n pools response
  answer-IsKnown requests none h answer = tt
  answer-IsKnown requests (some probe) h (q, outcome, listed, same) =
      subst IsKnownProbe (sym same) (run-IsKnown outcome q (All-Memᴰ q requests h listed))

  store_response-requests :
      (now : ℕ) (probe : Probe) (r : Member × Bool) (t : Tracker)
      → (store_response now probe r t).requests ≡ t.requests
  unfolding store_response
  store_response-requests now probe (m, true) t = refl
  store_response-requests now probe (m, false) t = refl

  schedule-requests :
      (checked now : ℕ) (q : List Item) (t : Tracker) {t' : Tracker}
      → Refers n pools q
      → All IsKnownProbe t.requests
      → schedule checked now q t ≡ ok t'
      → All IsKnownProbe t'.requests
  unfolding schedule issue_probe_request
  schedule-requests checked now [] t refers h e = absurd (cc e)
  schedule-requests checked now (top ∷ rest) t (known, (known_pool, refers)) h e =
      elim (Bool-cases (leb top.time checked)) [
        | inl due ↦
            let (pool, _, e₁) =
              >>=-eq-ok (or_raise (pool_at t.state.pools top.pool_id) index_error) _
                (rw due at e) in
            let (member, _, e₂) =
              >>=-eq-ok (or_raise (member_at t.state.pools top.member_id) index_error) _ e₁ in
            subst (λ x. All IsKnownProbe x.requests) (ok_injective _ _ e₂)
              (All-append_one t.requests (issue_probe_request pool member top.pool_id top.member_id)
                h (known, known_pool))
        | inr early ↦ subst (λ x. All IsKnownProbe x.requests) (ok_injective t _ (rw early at e)) h
      ]

  round-requests :
      (r : Round) (t : Tracker) {t' : Tracker}
      → Refers n pools t.state.pq
      → All IsKnownProbe t.requests
      → round r.time r.checked r.now r.response t ≡ ok t'
      → All IsKnownProbe t'.requests
  unfolding round
  round-requests r t refers h e =
      let (t₁, received, e₁) = >>=-eq-ok (receive r.time r.response t) _ e in
      let same =
        receive_kept (λ x. x.requests) r.time r.response t t₁
          (λ probe x. store_response-requests r.time probe x t) received in
      schedule-requests r.checked r.now t₁.state.pq t₁
        (subst (Refers n pools) (sym (receive-pq r.time r.response t t₁ received)) refers)
        (subst (All IsKnownProbe) (sym same) h) e₁

  -- The tracker's state at work, and its requests are for members and pools that are there.
  record IsServed (t : Tracker) : Type 0 where
    pub running : IsRunning n pools t
    pub schedule : IsSchedule n t.state.pq
    pub requests : All IsKnownProbe t.requests

  module _ (some_member : 0 < n) where
    round-IsServed :
        (r : Round) (t : Tracker)
        → IsServed t
        → IsAnswer t.requests r.response
        → (t' : Tracker) × (round r.time r.checked r.now r.response t ≡ ok t') × IsServed t'
    round-IsServed r t h answer =
        let (t', returned, running) =
          round_returns n pools some_member r.time r.checked r.now r.response t
            (answer-IsKnown t.requests r.response h.requests answer) h.running h.schedule in
        (
          t',
          returned,
          record {
            running = running;
            schedule =
                round-IsSchedule n r.time r.checked r.now r.response t t' h.schedule returned;
            requests = round-requests r t h.running.refers h.requests returned;
          },
        )

    Reaches-IsServed : (first t : Tracker) → IsServed first → Reaches first t → IsServed t
    Reaches-IsServed first t h here = h
    Reaches-IsServed first t' h (after t _ r reached answer returned) =
        let (t'', returned', h') = round-IsServed r t (Reaches-IsServed first t h reached) answer in
        subst IsServed (ok_injective t'' t' (sym returned' ∙ returned)) h'

-- From the state that is built of some pools, which have a member, the tracker and the probers go on
-- for ever. In whatever order and at whatever time the probes that were requested come back, with
-- whatever outcomes, and whatever the clocks show: the next round raises no exception, and then the item
-- at the top of the queue is the next one in time, and the queue holds exactly one item for each member.
pub Reaches-goes_on :
    (at : ℕ → ℕ) (pools : Dict String Pool) (names : Dict String GlobalName) (timestamp : ℕ)
    (t : Tracker) (r : Round)
    → 0 < member_count (started at pools names timestamp)
    → Reaches (started at pools names timestamp) t
    → IsAnswer t.requests r.response
    → (t' : Tracker) × (round r.time r.checked r.now r.response t ≡ ok t')
      × Reaches (started at pools names timestamp) t'
      × IsSchedule (member_count (started at pools names timestamp)) t'.state.pq
Reaches-goes_on at pools names timestamp t r some_member reached answer =
    let first = started at pools names timestamp in
    let n = member_count first in
    let count = pool_count first in
    let h =
      Reaches-IsServed n count some_member first t
        (record {
          running = started-IsRunning at pools names timestamp;
          schedule = init-IsSchedule at pools names;
          requests = tt;
        })
        reached in
    let (t', returned, h') = round-IsServed n count some_member r t h answer in
    (t', returned, after t t' r reached answer returned, h'.schedule)
