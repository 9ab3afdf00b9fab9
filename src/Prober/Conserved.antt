-- ===== src/Prober/Conserved.antt =====
-- Where the probes are: none is lost, and none is run twice.
use polaris_gslb.Prelude.{
  ℕ, ◌+◌, ◌-◌, ◌≡◌, refl, ap, ◌∙◌, Bool, true, false, Option, none, some, List, [], ◌∷◌, arith,
  length, get_elem?, replicate, select, leb, ltb, eqb, if◌then◌else◌, Bool-cases, inl, inr, sum,
  sum-append, sum-change_at, sum-select, sum-replicate,
}
use polaris_gslb.Prober.{Probe, Outcome, passed, failed, crashed}
use polaris_gslb.Prober
use polaris_gslb.Prober.Threads.{
  ProberThread, waiting, taken, running, reported, exited, ProberProcess, is_alive, spinathread,
  put_request, pass_request, process_probe_request, pass_response, process_probe_response,
  cleanup_threads, note_busy, clean_periodically, take_request, step_thread, run_thread, Event,
  requested, passes_request, passes_response, notes_busy, cleans_up, thread_steps, step, run_events,
  spin, start,
}

abbrev pub one_if : Bool → ℕ
one_if true = 1
one_if false = 0

-- A probe of the member `k` counts 1, on a queue, on the queue of the threads and in a thread.
abbrev pub of_member : ℕ → Probe → ℕ
of_member k probe = one_if (eqb probe.member_id k)

abbrev pub requests_member : ℕ → Option Probe → ℕ
requests_member k none = 0
requests_member k (some probe) = of_member k probe

abbrev pub holds_member : ℕ → ProberThread → ℕ
holds_member k (taken probe) = of_member k probe
holds_member k (running probe) = of_member k probe
holds_member k _ = 0

-- The number of probes of the member `k` in all the places.
abbrev pub tally : ℕ → ProberProcess → ℕ
tally k s =
    sum (of_member k) s.prober_requests
    + sum (requests_member k) s.thread_requests
    + sum (holds_member k) s.threads
    + sum (of_member k) s.thread_responses
    + sum (of_member k) s.prober_responses

-- The probes of the member `k` that the tracker has requested.
abbrev pub asked_for : ℕ → List Event → ℕ
asked_for k [] = 0
asked_for k (requested probe ∷ es) = of_member k probe + asked_for k es
asked_for k (e ∷ es) = asked_for k es

module _ (k : ℕ) where
  spinathread-tally : (s : ProberProcess) → tally k (spinathread s) ≡ tally k s
  unfolding spinathread
  spinathread-tally s = elim (Bool-cases (leb 500 (length s.threads))) [
    | inl full ↦ rw full refl
    | inr room ↦
        let h = sum-append (holds_member k) s.threads (waiting ∷ []) in
        rw room (unfold sum in omega (arith, h))
  ]

  put_request-tally :
      (probe : Probe) (rest : List Probe) (s : ProberProcess)
      → s.prober_requests ≡ probe ∷ rest
      → tally k (put_request probe rest s) ≡ tally k s
  unfolding put_request
  put_request-tally probe rest s e =
      let h = sum-append (requests_member k) s.thread_requests (some probe ∷ []) in
      let q : sum (of_member k) s.prober_requests ≡ _ = ap (sum (of_member k)) e in
      unfold sum in omega (arith, h, q)

  spin_or-requests :
      (b : Bool) (s : ProberProcess)
      → ((if b then spinathread s else s).prober_requests ≡ s.prober_requests)
        × (tally k (if b then spinathread s else s) ≡ tally k s)
  unfolding spinathread
  spin_or-requests true s = (ground arith, spinathread-tally s)
  spin_or-requests false s = (refl, refl)

  pass_request-tally :
      (s : ProberProcess) (l : List Probe)
      → s.prober_requests ≡ l
      → tally k (pass_request s l) ≡ tally k s
  unfolding pass_request
  pass_request-tally s [] e = refl
  pass_request-tally s (probe ∷ rest) e =
      let b = leb (length s.threads) s.threads_busy in
      let (same, kept) = spin_or-requests b s in
      put_request-tally probe rest (if b then spinathread s else s) (same ∙ e) ∙ kept

  pass_response-tally :
      (s : ProberProcess) (l : List Probe)
      → s.thread_responses ≡ l
      → tally k (pass_response s l) ≡ tally k s
  unfolding pass_response
  pass_response-tally s [] e = refl
  pass_response-tally s (probe ∷ rest) e =
      let h = sum-append (of_member k) s.prober_responses (probe ∷ []) in
      let q : sum (of_member k) s.thread_responses ≡ _ = ap (sum (of_member k)) e in
      unfold sum in omega (arith, h, q)

  exited_empty : (t : ProberThread) → is_alive t ≡ false → holds_member k t ≡ 0
  exited_empty exited h = refl
  exited_empty waiting h = refl
  exited_empty (taken p) h = cc
  exited_empty (running p) h = cc
  exited_empty reported h = refl

  cleanup_threads-tally : (s : ProberProcess) → tally k (cleanup_threads s) ≡ tally k s
  unfolding cleanup_threads
  cleanup_threads-tally s =
      let left = select is_alive s.threads in
      let n = length left - s.max_busy_threads - 1 in
      let p = sum-append (requests_member k) s.thread_requests (replicate n none) in
      let z = sum-replicate (requests_member k) n none refl in
      let h = sum-select (holds_member k) is_alive s.threads exited_empty in
      elim (Bool-cases (leb (25 + s.max_busy_threads) (length left))) [
        | inl excess ↦ rw excess (omega (arith, p, z, h))
        | inr few ↦ rw few (omega (arith, h))
      ]

  run-of_member :
      (outcome : Outcome) (probe : Probe)
      → of_member k (Prober.run outcome probe) ≡ of_member k probe
  unfolding Prober.run
  run-of_member passed probe = refl
  run-of_member (failed m) probe = refl
  run-of_member (crashed m) probe = refl

  take_request-tally :
      (i : ℕ) (s : ProberProcess) (l : List (Option Probe))
      → s.thread_requests ≡ l
      → get_elem? s.threads i ≡ some waiting
      → tally k (take_request i s l) ≡ tally k s
  unfolding take_request
  take_request-tally i s [] e at = refl
  take_request-tally i s (none ∷ rest) e at =
      let h = sum-change_at (holds_member k) i exited s.threads at in
      let q : sum (requests_member k) s.thread_requests ≡ _ = ap (sum (requests_member k)) e in
      unfold sum in omega (arith, h, q)
  take_request-tally i s (some probe ∷ rest) e at =
      let h = sum-change_at (holds_member k) i (taken probe) s.threads at in
      let q : sum (requests_member k) s.thread_requests ≡ _ = ap (sum (requests_member k)) e in
      unfold sum in omega (arith, h, q)

  step_thread-tally :
      (i : ℕ) (outcome : Outcome) (s : ProberProcess) (t : ProberThread)
      → get_elem? s.threads i ≡ some t
      → tally k (step_thread i outcome s t) ≡ tally k s
  unfolding step_thread
  step_thread-tally i outcome s waiting at = take_request-tally i s s.thread_requests refl at
  step_thread-tally i outcome s (taken probe) at =
      let h = sum-change_at (holds_member k) i (running probe) s.threads at in omega (arith, h)
  step_thread-tally i outcome s (running probe) at =
      let h = sum-change_at (holds_member k) i reported s.threads at in
      let p = sum-append (of_member k) s.thread_responses (Prober.run outcome probe ∷ []) in
      let r = run-of_member outcome probe in unfold sum in omega (arith, h, p, r)
  step_thread-tally i outcome s reported at =
      let h = sum-change_at (holds_member k) i waiting s.threads at in omega (arith, h)
  step_thread-tally i outcome s exited at = refl

  run_thread-tally :
      (i : ℕ) (outcome : Outcome) (s : ProberProcess) (o : Option ProberThread)
      → get_elem? s.threads i ≡ o
      → tally k (run_thread i outcome s) ≡ tally k s
  unfolding run_thread
  run_thread-tally i outcome s none e = rw (e, run_thread) refl
  run_thread-tally i outcome s (some t) e = rw (e, run_thread) (step_thread-tally i outcome s t e)

  step-tally :
      (e : Event) (s : ProberProcess) → tally k (step e s) ≡ asked_for k (e ∷ []) + tally k s
  unfolding step process_probe_request process_probe_response note_busy clean_periodically
  step-tally (requested probe) s =
      let p = sum-append (of_member k) s.prober_requests (probe ∷ []) in
      unfold sum in omega (arith, p)
  step-tally passes_request s = omega (arith, pass_request-tally s s.prober_requests refl)
  step-tally passes_response s = omega (arith, pass_response-tally s s.thread_responses refl)
  step-tally notes_busy s = omega arith
  step-tally (cleans_up now) s = elim (Bool-cases (ltb 30000 (now - s.t_last))) [
    | inl due ↦ rw due (omega (arith, cleanup_threads-tally s))
    | inr early ↦ rw early (omega arith)
  ]
  step-tally (thread_steps i outcome) s = omega (arith, run_thread-tally i outcome s _ refl)

  asked_for-cons :
      (e : Event) (es : List Event) → asked_for k (e ∷ es) ≡ asked_for k (e ∷ []) + asked_for k es
  asked_for-cons (requested probe) es = omega arith
  asked_for-cons passes_request es = omega arith
  asked_for-cons passes_response es = omega arith
  asked_for-cons notes_busy es = omega arith
  asked_for-cons (cleans_up now) es = omega arith
  asked_for-cons (thread_steps i outcome) es = omega arith

  run_events-tally_from :
      (es : List Event) (s : ProberProcess) → tally k (run_events es s) ≡ asked_for k es + tally k s
  unfolding run_events
  run_events-tally_from [] s = omega arith
  run_events-tally_from (e ∷ es) s =
      omega (arith, run_events-tally_from es (step e s), step-tally e s, asked_for-cons e es)

start-tally : (k now : ℕ) → tally k (start now) ≡ 0
unfolding start spin spinathread sum
start-tally k now = refl

-- After any interleaving, each probe of a member that was requested stands in exactly one place: on
-- one of the queues, in a thread, or on the responses to the tracker.
pub run_events-tally :
    (k now : ℕ) (es : List Event) → tally k (run_events es (start now)) ≡ asked_for k es
run_events-tally k now es = omega (arith, run_events-tally_from k es (start now), start-tally k now)
