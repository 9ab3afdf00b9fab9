-- ===== src/Prober/Upkeep.antt =====
-- What the prober process itself does, and what of the process it keeps.
use polaris_gslb.Prelude.{
  ℕ, zero, suc, ◌+◌, ◌-◌, ◌≤◌, ◌<◌, ◌≡◌, refl, sym, ◌∙◌, Bool, true, false, Option, none, some,
  List, [], ◌∷◌, arith, length, replicate, select, leb, leb→le, if◌then◌else◌, Bool-cases, inl, inr,
  length-append, sum, sum-append, sum-select,
}
use polaris_gslb.Prober.{Probe}
use polaris_gslb.Prober.Threads.{
  ProberThread, waiting, taken, running, reported, exited, ProberProcess, is_alive, spinathread,
  put_request, pass_request, pass_response, cleanup_threads,
}

-- A thread between the two updates of _THREADS_BUSY counts 1.
abbrev pub counts : ProberThread → ℕ
counts (running probe) = 1
counts reported = 1
counts _ = 0

abbrev pub lives : ProberThread → ℕ
lives exited = 0
lives _ = 1

abbrev pub is_pill : Option Probe → ℕ
is_pill none = 1
is_pill (some probe) = 0

-- The poison pills that no thread has taken.
abbrev pub pills : ProberProcess → ℕ
pills s = sum is_pill s.thread_requests

-- There are at most 500 threads, _THREADS_BUSY is the number of threads that are at a probe, and
-- more threads are alive than there are pills for.
pub record IsSound (s : ProberProcess) : Type 0 where
  pub bounded : length s.threads ≤ 500
  pub counted : s.threads_busy ≡ sum counts s.threads
  pub manned : pills s < sum lives s.threads

pub spinathread-IsSound : (s : ProberProcess) → IsSound s → IsSound (spinathread s)
unfolding spinathread
spinathread-IsSound s h = elim (Bool-cases (leb 500 (length s.threads))) [
  | inl full ↦ rw full h
  | inr room ↦
      let added = length-append s.threads (waiting ∷ []) in
      let c = sum-append counts s.threads (waiting ∷ []) in
      let l = sum-append lives s.threads (waiting ∷ []) in
      rw room (
        unfold sum in
        record {
          bounded = ground (arith, h.bounded);
          counted = omega (arith, h.counted);
          manned = omega (arith, h.manned);
        })
]

put_request-IsSound :
    (probe : Probe) (rest : List Probe) (s : ProberProcess)
    → IsSound s
    → IsSound (put_request probe rest s)
unfolding put_request
put_request-IsSound probe rest s h =
    let p = sum-append is_pill s.thread_requests (some probe ∷ []) in
    unfold sum in
    record { bounded = h.bounded; counted = h.counted; manned = omega (arith, h.manned) }

pub pass_request-IsSound :
    (s : ProberProcess) (l : List Probe) → IsSound s → IsSound (pass_request s l)
unfolding pass_request
pass_request-IsSound s [] h = h
pass_request-IsSound s (probe ∷ rest) h =
    put_request-IsSound probe rest
      (if leb (length s.threads) s.threads_busy then spinathread s else s)
      (elim (leb (length s.threads) s.threads_busy)
        as (λ b. IsSound (if b then spinathread s else s)) [
          | true ↦ spinathread-IsSound s h
          | false ↦ h
        ])

pub pass_response-IsSound :
    (s : ProberProcess) (l : List Probe) → IsSound s → IsSound (pass_response s l)
unfolding pass_response
pass_response-IsSound s [] h = h
pass_response-IsSound s (probe ∷ rest) h = record {
  bounded = h.bounded;
  counted = h.counted;
  manned = h.manned;
}

select-bound : (p : ProberThread → Bool) (l : List ProberThread) → length (select p l) ≤ length l
select-bound p [] = omega arith
select-bound p (t ∷ l) = ground (arith, select-bound p l)

living-length : (l : List ProberThread) → length (select is_alive l) ≡ sum lives l
unfolding sum
living-length [] = refl
living-length (waiting ∷ l) = omega (arith, living-length l)
living-length (taken p ∷ l) = omega (arith, living-length l)
living-length (running p ∷ l) = omega (arith, living-length l)
living-length (reported ∷ l) = omega (arith, living-length l)
living-length (exited ∷ l) = omega (arith, living-length l)

exited_idle : (t : ProberThread) → is_alive t ≡ false → (counts t ≡ 0) × (lives t ≡ 0)
exited_idle exited h = (refl, refl)
exited_idle waiting h = cc
exited_idle (taken p) h = cc
exited_idle (running p) h = cc
exited_idle reported h = cc

sum-pills : (n : ℕ) → sum is_pill (replicate n none) ≡ n
unfolding sum
sum-pills zero = refl
sum-pills (suc n) = omega (arith, sum-pills n)

pub cleanup_threads-IsSound :
    (s : ProberProcess) → pills s ≡ 0 → IsSound s → IsSound (cleanup_threads s)
unfolding cleanup_threads
cleanup_threads-IsSound s none_left h =
    let left = select is_alive s.threads in
    let kept = sum-select counts is_alive s.threads (λ t d. (exited_idle t d).0) in
    let alive = sum-select lives is_alive s.threads (λ t d. (exited_idle t d).1) in
    let n = length left - s.max_busy_threads - 1 in
    let p = sum-append is_pill s.thread_requests (replicate n none) in
    record {
      bounded = omega (arith, h.bounded, select-bound is_alive s.threads);
      counted = h.counted ∙ sym kept;
      manned = elim (Bool-cases (leb (25 + s.max_busy_threads) (length left))) [
        | inl excess ↦ rw excess (
            omega
              (arith, p, sum-pills n, alive, living-length s.threads, leb→le _ _ excess, none_left))
        | inr few ↦ rw few (omega (arith, alive, h.manned))
      ];
    }
