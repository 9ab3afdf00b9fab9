-- ===== src/Prober/Starved.antt =====
-- A request that comes when threads have exited and are not yet removed.
use polaris_gslb.Prelude.{
  ℕ, ◌≡◌, ◌<◌, ◌≤◌, refl, false, List, [], ◌∷◌, ◌++◌, arith, length, leb, sum, ◌+◌, ap, ◌∙◌,
}
use polaris_gslb.Prober.{Probe}
use polaris_gslb.Prober.Threads.{
  spinathread, ProberThread, waiting, taken, running, reported, exited, ProberProcess, put_request,
  pass_request, process_probe_request,
}
use polaris_gslb.Prober.Upkeep.{counts, lives, IsSound}

abbrev pub exits : ProberThread → ℕ
exits exited = 1
exits _ = 0

lives-exits : (l : List ProberThread) → sum lives l + sum exits l ≡ length l
unfolding sum
lives-exits [] = refl
lives-exits (waiting ∷ l) = omega (arith, lives-exits l)
lives-exits (taken p ∷ l) = omega (arith, lives-exits l)
lives-exits (running p ∷ l) = omega (arith, lives-exits l)
lives-exits (reported ∷ l) = omega (arith, lives-exits l)
lives-exits (exited ∷ l) = omega (arith, lives-exits l)

pass_request-starved :
    (s : ProberProcess) (l : List Probe)
    → leb (length s.threads) s.threads_busy ≡ false
    → (pass_request s l).threads ≡ s.threads
unfolding pass_request put_request
pass_request-starved s [] h = refl
pass_request-starved s (probe ∷ rest) h = rw h refl

-- If every thread that is alive is at a probe, and some thread has exited and is not yet removed,
-- then a request does not start a thread, though all are busy: those that have exited count as free.
pub process_probe_request-starved :
    (s : ProberProcess)
    → IsSound s
    → sum lives s.threads ≡ sum counts s.threads
    → 0 < sum exits s.threads
    → (process_probe_request s).threads ≡ s.threads
unfolding process_probe_request
process_probe_request-starved s h all_busy some_exited =
    let n = lives-exits s.threads in
    let free : s.threads_busy < length s.threads = omega (arith, h.counted) in
    pass_request-starved s s.prober_requests (ground arith)

pass_request-spins :
    (s : ProberProcess) (probe : Probe) (rest : List Probe)
    → length s.threads ≤ s.threads_busy
    → length s.threads < 500
    → (pass_request s (probe ∷ rest)).threads ≡ s.threads ++ waiting ∷ []
unfolding pass_request put_request spinathread
pass_request-spins s probe rest full room = ground arith

-- If no thread has exited, a request finds a free thread: when all are busy and there is room for one
-- more, a waiting thread is added.
process_probe_request-spins :
    (s : ProberProcess) (probe : Probe) (rest : List Probe)
    → IsSound s
    → s.prober_requests ≡ probe ∷ rest
    → sum counts s.threads ≡ length s.threads
    → length s.threads < 500
    → (process_probe_request s).threads ≡ s.threads ++ waiting ∷ []
unfolding process_probe_request
process_probe_request-spins s probe rest h request all_busy room =
    ap (λ l. (pass_request s l).threads) request
    ∙ pass_request-spins s probe rest (omega (arith, h.counted)) room
