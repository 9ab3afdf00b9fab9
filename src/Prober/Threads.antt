-- ===== src/Prober/Threads.antt =====
-- polaris_health/prober/__init__.py: a prober process and its threads. The steps of the process and
-- of its threads interleave: `Event` names the next one to run. A queue is a list, its oldest
-- element first; on `thread_requests` the poison pill is `none`.
use polaris_gslb.Prelude.{
  ℕ, zero, suc, ◌+◌, ◌-◌, Bool, true, false, Option, none, some, List, [], ◌∷◌, ◌++◌, length,
  get_elem?, change_at, replicate, select, leb, ltb, if◌then◌else◌,
}
use polaris_gslb.Prober.{Probe, Outcome}
use polaris_gslb.Prober

-- Where a ProberThread stands in its loop: it waits for a request, it has taken a probe, it has
-- counted itself as busy, it has put the probe on the responses, or it has returned.
pub data ProberThread : Type 0 where
  waiting : ProberThread
  taken : Probe → ProberThread
  running : Probe → ProberThread
  reported : ProberThread
  exited : ProberThread

-- ProberProcess, with the queues to the tracker and the counter _THREADS_BUSY
pub record ProberProcess : Type 0 where
  pub prober_requests : List Probe
  pub prober_responses : List Probe
  pub thread_requests : List (Option Probe)
  pub thread_responses : List Probe
  pub threads : List ProberThread
  pub threads_busy : ℕ
  pub max_busy_threads : ℕ
  pub t_last : ℕ

abbrev pub is_alive : ProberThread → Bool
is_alive exited = false
is_alive _ = true

abbrev pub max_prober_threads : ℕ
max_prober_threads = 500

-- _spinathread
unfoldable pub spinathread : ProberProcess → ProberProcess
spinathread s =
    if leb max_prober_threads (length s.threads)
    then s
    else record s { threads = s.threads ++ waiting ∷ [] }

-- the request goes on to the threads
unfoldable pub put_request : Probe → List Probe → ProberProcess → ProberProcess
put_request probe rest s = record s {
  prober_requests = rest;
  thread_requests = s.thread_requests ++ some probe ∷ [];
}

-- _process_probe_request, after the read of the queue
unfoldable pub pass_request : ProberProcess → List Probe → ProberProcess
unfolding spinathread put_request
pass_request s [] = s
pass_request s (probe ∷ rest) =
    put_request probe rest (if leb (length s.threads) s.threads_busy then spinathread s else s)

unfoldable pub process_probe_request : ProberProcess → ProberProcess
unfolding pass_request
process_probe_request s = pass_request s s.prober_requests

-- _process_probe_response
unfoldable pub pass_response : ProberProcess → List Probe → ProberProcess
pass_response s [] = s
pass_response s (probe ∷ rest) = record s {
  thread_responses = rest;
  prober_responses = s.prober_responses ++ probe ∷ [];
}

unfoldable pub process_probe_response : ProberProcess → ProberProcess
unfolding pass_response
process_probe_response s = pass_response s s.thread_responses

-- _cleanup_threads: the threads that have exited are joined and removed; then, if there are many
-- more threads than were ever busy, all but one of these get a poison pill
unfoldable pub cleanup_threads : ProberProcess → ProberProcess
cleanup_threads s =
    let left = select is_alive s.threads in
    let total = length left in
    record s {
      threads = left;
      thread_requests =
          if leb (25 + s.max_busy_threads) total
          then s.thread_requests ++ replicate (total - s.max_busy_threads - 1) none
          else s.thread_requests;
    }

-- the update of _max_busy_threads
unfoldable pub note_busy : ProberProcess → ProberProcess
note_busy s = record s {
  max_busy_threads =
      if ltb s.max_busy_threads s.threads_busy then s.threads_busy else s.max_busy_threads;
}

-- the periodic clean-up, at a value of time.monotonic()
unfoldable pub clean_periodically : ℕ → ProberProcess → ProberProcess
unfolding cleanup_threads
clean_periodically now s =
    if ltb 30000 (now - s.t_last)
    then record (cleanup_threads s) { max_busy_threads = 0; t_last = now }
    else s

-- ProberThread.run, from the `get` on: what the thread takes from the queue
unfoldable pub take_request : ℕ → ProberProcess → List (Option Probe) → ProberProcess
unfolding change_at
take_request i s [] = s
take_request i s (none ∷ rest) = record s {
  threads = change_at i (λ _. exited) s.threads;
  thread_requests = rest;
}
take_request i s (some probe ∷ rest) = record s {
  threads = change_at i (λ _. taken probe) s.threads;
  thread_requests = rest;
}

-- the next step of thread `i`, whose monitor ends as `outcome` says
unfoldable pub step_thread : ℕ → Outcome → ProberProcess → ProberThread → ProberProcess
unfolding take_request change_at
step_thread i outcome s waiting = take_request i s s.thread_requests
step_thread i outcome s (taken probe) = record s {
  threads = change_at i (λ _. running probe) s.threads;
  threads_busy = s.threads_busy + 1;
}
step_thread i outcome s (running probe) = record s {
  threads = change_at i (λ _. reported) s.threads;
  thread_responses = s.thread_responses ++ Prober.run outcome probe ∷ [];
}
step_thread i outcome s reported = record s {
  threads = change_at i (λ _. waiting) s.threads;
  threads_busy = s.threads_busy - 1;
}
step_thread i outcome s exited = s

unfoldable pub run_thread : ℕ → Outcome → ProberProcess → ProberProcess
unfolding step_thread
run_thread i outcome s = elim (get_elem? s.threads i) [
  | none ↦ s
  | some thread ↦ step_thread i outcome s thread
]

-- What can happen next: the tracker puts a request on the queue, the process runs one of the four
-- parts of its loop, or a thread makes a step.
pub data Event : Type 0 where
  requested : Probe → Event
  passes_request passes_response notes_busy : Event
  cleans_up : ℕ → Event
  thread_steps : ℕ → Outcome → Event

unfoldable pub step : Event → ProberProcess → ProberProcess
unfolding process_probe_request process_probe_response note_busy clean_periodically run_thread
step (requested probe) s = record s { prober_requests = s.prober_requests ++ probe ∷ [] }
step passes_request s = process_probe_request s
step passes_response s = process_probe_response s
step notes_busy s = note_busy s
step (cleans_up now) s = clean_periodically now s
step (thread_steps i outcome) s = run_thread i outcome s

unfoldable pub run_events : List Event → ProberProcess → ProberProcess
unfolding step
run_events [] s = s
run_events (e ∷ es) s = run_events es (step e s)

-- the number of spins at the start of `run`
unfoldable pub spin : ℕ → ProberProcess → ProberProcess
unfolding spinathread
spin zero s = s
spin (suc n) s = spin n (spinathread s)

abbrev pub created : ℕ → ProberProcess
created now = record {
  prober_requests = [];
  prober_responses = [];
  thread_requests = [];
  thread_responses = [];
  threads = [];
  threads_busy = 0;
  max_busy_threads = 0;
  t_last = now;
}

-- ProberProcess.run, up to its loop
unfoldable pub start : ℕ → ProberProcess
unfolding spin
start now = spin 25 (created now)
