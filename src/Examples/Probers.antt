-- ===== src/Examples/Probers.antt =====
-- A prober process on its first 31 seconds.
use polaris_gslb.Prelude.{ℕ, zero, suc, ◌+◌, ◌≡◌, ◌<◌, refl, List, [], ◌∷◌, arith, sum, none}
use polaris_gslb.Prober.{Probe, passed}
use polaris_gslb.Prober.Threads.{
  ProberProcess, running, Event, requested, passes_request, cleans_up, thread_steps, run_events,
  start, step, spin, spinathread, process_probe_request, pass_request, put_request,
  clean_periodically, cleanup_threads, run_thread, step_thread, take_request,
}
use polaris_gslb.Prober.Upkeep.{IsSound, counts, lives}
use polaris_gslb.Prober.Sound.{AreTimely, run_events-IsSound}
use polaris_gslb.Prober.Conserved.{tally, run_events-tally}
use polaris_gslb.Prober.Starved.{process_probe_request-starved}
use polaris_gslb.Prelude.{change_at}
use polaris_gslb.Prober.Starved.{exits}
use polaris_gslb.Examples.{monitor}

abbrev probe : Probe
probe = record {
  pool_id = 0;
  pool_name = "pool1";
  member_id = 0;
  member_ip = "10.1.0.1";
  monitor = monitor;
  monitor_ip = "10.1.0.1";
  status = none;
  status_reason = none;
}

-- the threads from `i` on, `n` of them, make a step
abbrev all_step : ℕ → ℕ → List Event → List Event
all_step zero i es = es
all_step (suc n) i es = thread_steps i passed ∷ all_step n (i + 1) es

-- After 31 seconds without a request, 24 of the 25 threads get a pill and exit; the last one then
-- starts on a probe.
abbrev one_request : List Event
one_request =
    requested probe ∷ passes_request ∷ thread_steps 24 passed ∷ thread_steps 24 passed ∷ []

abbrev quiet_start : List Event
quiet_start = cleans_up 31000 ∷ all_step 24 0 one_request

abbrev starved : ProberProcess
starved = run_events quiet_start (start 0)

all_step-AreTimely :
    (n i : ℕ) (es : List Event)
    → ((s : ProberProcess) → AreTimely es s)
    → (s : ProberProcess) → AreTimely (all_step n i es) s
all_step-AreTimely zero i es h s = h s
all_step-AreTimely (suc n) i es h s =
    (tt, all_step-AreTimely n (i + 1) es h (step (thread_steps i passed) s))

starved_lives : sum lives starved.threads ≡ sum counts starved.threads
unfolding run_events step start spin spinathread process_probe_request pass_request put_request
    clean_periodically cleanup_threads run_thread step_thread take_request sum change_at
starved_lives = refl

starved_exits : 0 < sum exits starved.threads
unfolding run_events step start spin spinathread process_probe_request pass_request put_request
    clean_periodically cleanup_threads run_thread step_thread take_request sum change_at
starved_exits = omega arith

quiet_start-AreTimely : AreTimely quiet_start (start 0)
unfolding start spin spinathread sum
quiet_start-AreTimely = (
  refl,
  all_step-AreTimely 24 0 one_request (λ s. (tt, (tt, (tt, (tt, tt)))))
      (step (cleans_up 31000) (start 0)),
)

run_events-IsSound_example : IsSound starved
run_events-IsSound_example = run_events-IsSound 0 quiet_start quiet_start-AreTimely

run_events-tally_example : tally 0 starved ≡ 1
run_events-tally_example = run_events-tally 0 0 quiet_start

process_probe_request-starved_example : (process_probe_request starved).threads ≡ starved.threads
process_probe_request-starved_example =
    process_probe_request-starved starved (run_events-IsSound 0 quiet_start quiet_start-AreTimely)
      starved_lives starved_exits

-- one thread, which is at a probe, and a second request
abbrev busy : ProberProcess
busy = record {
  prober_requests = probe ∷ [];
  prober_responses = [];
  thread_requests = [];
  thread_responses = [];
  threads = running probe ∷ [];
  threads_busy = 1;
  max_busy_threads = 1;
  t_last = 0;
}

busy-IsSound : IsSound busy
unfolding sum
busy-IsSound = record { bounded = omega arith; counted = refl; manned = omega arith }

busy_counts : sum counts busy.threads ≡ 1
unfolding sum
busy_counts = refl
