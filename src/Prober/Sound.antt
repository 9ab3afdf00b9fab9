-- ===== src/Prober/Sound.antt =====
-- What holds of a prober process after any sequence of events.
use polaris_gslb.Prelude.{
  ℕ, zero, suc, ◌+◌, ◌-◌, ◌≤◌, ◌≡◌, refl, ap, ◌∙◌, Option, none, some, List, [], ◌∷◌, arith,
  get_elem?, change_at, ltb, Bool-cases, inl, inr, length-change_at, sum, sum-change_at,
}
use polaris_gslb.Prober.{Probe, Outcome}
use polaris_gslb.Prober.Threads.{
  ProberThread, waiting, taken, running, reported, exited, ProberProcess, spinathread,
  process_probe_request, process_probe_response, note_busy, clean_periodically, take_request,
  step_thread, run_thread, Event, requested, passes_request, passes_response, notes_busy, cleans_up,
  thread_steps, step, run_events, spin, start,
}
use polaris_gslb.Prober.Upkeep.{
  counts, lives, is_pill, pills, IsSound, pass_request-IsSound, pass_response-IsSound,
  cleanup_threads-IsSound,
}

-- The weight of one element is part of the sum.
sum-one :
    (w : ProberThread → ℕ) (l : List ProberThread) (i : ℕ) (t : ProberThread) {n : ℕ}
    → get_elem? l i ≡ some t
    → n ≡ sum w l
    → w t ≤ n
unfolding sum
sum-one w [] i t at e = cc
sum-one w (u ∷ l) zero t at e = ground arith
sum-one w (u ∷ l) (suc i) t {n} at e =
    let k : w t ≤ sum w l = sum-one w l i t at refl in omega (arith, e)

-- A step of the thread `i` from one state to another.
moved-IsSound :
    (i : ℕ) (t u : ProberThread) (s s' : ProberProcess)
    → get_elem? s.threads i ≡ some t
    → s'.threads ≡ change_at i (λ _. u) s.threads
    → (counts t ≤ s.threads_busy → s'.threads_busy + counts t ≡ s.threads_busy + counts u)
    → pills s' + lives t ≡ pills s + lives u
    → IsSound s
    → IsSound s'
moved-IsSound i t u s s' at threads busy taken_pills h =
    let c = sum-change_at counts i u s.threads at in
    let l = sum-change_at lives i u s.threads at in
    record {
      bounded = rw threads (omega (arith, length-change_at i (λ _. u) s.threads, h.bounded));
      counted =
          rw threads
            (omega (arith, c, h.counted, busy (sum-one counts s.threads i t at h.counted)));
      manned = rw threads (omega (arith, l, taken_pills, h.manned));
    }

take_request-IsSound :
    (i : ℕ) (s : ProberProcess) (l : List (Option Probe))
    → s.thread_requests ≡ l
    → get_elem? s.threads i ≡ some waiting
    → IsSound s
    → IsSound (take_request i s l)
unfolding take_request
take_request-IsSound i s [] e at h = h
take_request-IsSound i s (none ∷ rest) e at h =
    let p : pills s ≡ 1 + sum is_pill rest = ap (sum is_pill) e ∙ (unfold sum in refl) in
    moved-IsSound i waiting exited s _ at refl (λ _. refl) (omega (arith, p)) h
take_request-IsSound i s (some probe ∷ rest) e at h =
    let p : pills s ≡ 0 + sum is_pill rest = ap (sum is_pill) e ∙ (unfold sum in refl) in
    moved-IsSound i waiting (taken probe) s _ at refl (λ _. refl) (omega (arith, p)) h

step_thread-IsSound :
    (i : ℕ) (outcome : Outcome) (s : ProberProcess) (t : ProberThread)
    → get_elem? s.threads i ≡ some t
    → IsSound s
    → IsSound (step_thread i outcome s t)
unfolding step_thread
step_thread-IsSound i outcome s waiting at h = take_request-IsSound i s s.thread_requests refl at h
step_thread-IsSound i outcome s (taken probe) at h =
    moved-IsSound i (taken probe) (running probe) s _ at refl (λ _. omega arith) refl h
step_thread-IsSound i outcome s (running probe) at h =
    moved-IsSound i (running probe) reported s _ at refl (λ _. refl) refl h
step_thread-IsSound i outcome s reported at h =
    moved-IsSound i reported waiting s _ at refl (λ one. omega (arith, one)) refl h
step_thread-IsSound i outcome s exited at h = h

run_thread-IsSound :
    (i : ℕ) (outcome : Outcome) (s : ProberProcess) (o : Option ProberThread)
    → get_elem? s.threads i ≡ o
    → IsSound s
    → IsSound (run_thread i outcome s)
unfolding run_thread
run_thread-IsSound i outcome s none e h = rw (e, run_thread) h
run_thread-IsSound i outcome s (some t) e h =
    rw (e, run_thread) (step_thread-IsSound i outcome s t e h)

-- The poison pills of a clean-up have been taken before the next clean-up.
abbrev pub IsTimely : Event → ProberProcess → Type 0
IsTimely (cleans_up now) s = pills s ≡ 0
IsTimely _ s = Unit

abbrev pub AreTimely : List Event → ProberProcess → Type 0
AreTimely [] s = Unit
AreTimely (e ∷ es) s = IsTimely e s × AreTimely es (step e s)

step-IsSound : (e : Event) (s : ProberProcess) → IsTimely e s → IsSound s → IsSound (step e s)
unfolding step process_probe_request process_probe_response note_busy clean_periodically
step-IsSound (requested probe) s timely h = record {
  bounded = h.bounded;
  counted = h.counted;
  manned = h.manned;
}
step-IsSound passes_request s timely h = pass_request-IsSound s s.prober_requests h
step-IsSound passes_response s timely h = pass_response-IsSound s s.thread_responses h
step-IsSound notes_busy s timely h = record {
  bounded = h.bounded;
  counted = h.counted;
  manned = h.manned;
}
step-IsSound (cleans_up now) s timely h = elim (Bool-cases (ltb 30000 (now - s.t_last))) [
  | inl due ↦
      let k = cleanup_threads-IsSound s timely h in
      rw due (record { bounded = k.bounded; counted = k.counted; manned = k.manned })
  | inr early ↦ rw early h
]
step-IsSound (thread_steps i outcome) s timely h = run_thread-IsSound i outcome s _ refl h

start-IsSound : (now : ℕ) → IsSound (start now)
unfolding start spin spinathread sum
start-IsSound now = record { bounded = omega arith; counted = refl; manned = omega arith }

run_events-IsSound_from :
    (es : List Event) (s : ProberProcess) → AreTimely es s → IsSound s → IsSound (run_events es s)
unfolding run_events
run_events-IsSound_from [] s timely h = h
run_events-IsSound_from (e ∷ es) s timely h =
    run_events-IsSound_from es (step e s) timely.1 (step-IsSound e s timely.0 h)

-- After any interleaving of the process, its threads and the tracker, in which the poison pills of
-- one clean-up are taken before the next: there are at most 500 threads, _THREADS_BUSY is the number
-- of threads that are at a probe, and more threads are alive than there are pills for, so that one
-- is left to serve the requests.
pub run_events-IsSound :
    (now : ℕ) (es : List Event) → AreTimely es (start now) → IsSound (run_events es (start now))
run_events-IsSound now es timely = run_events-IsSound_from es (start now) timely (start-IsSound now)
