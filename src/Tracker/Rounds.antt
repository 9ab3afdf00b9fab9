-- ===== src/Tracker/Rounds.antt =====
-- The loop of the tracker, from the start of the state.
use polaris_gslb.Prelude.{
  ℕ, ◌+◌, ◌≤◌, ◌<◌, ◌≡◌, refl, sym, subst, String, true, Option, List, [], ◌∷◌, map, length,
  length-append, every, arith,
}
use polaris_gslb.Prelude.Dict.{Dict, map_values, values}
use polaris_gslb.Prelude.Result.{ok}
use polaris_gslb.Pool.{Member, Pool}
use polaris_gslb.GlobalName.{GlobalName}
use polaris_gslb.State.{all_members}
use polaris_gslb.State.Queue.{Item}
use polaris_gslb.State.Init.{with_retries, set_retries, push_members, push_pools, init}
use polaris_gslb.Prober.{Probe}
use polaris_gslb.Tracker.{Tracker, round}
use polaris_gslb.Tracker.Schedule.{
  IsSchedule, Round, run_rounds, receive-pq, round-IsSchedule, init-IsSchedule,
}
use polaris_gslb.Tracker.Remaining.{has_retries, every-append}
use polaris_gslb.Tracker.Progress.{
  Refers, push-Refers, IsRunning, IsKnown, receive-IsRunning, schedule-IsRunning,
}

items_some : (n : ℕ) (q : List Item) → 0 < n → IsSchedule n q → 0 < length q
items_some n [] some_member h = let none' = h.one_each 0 in absurd (ground arith)
items_some n (x ∷ q) some_member h = omega arith

-- The responses are to probes of members and pools that are there.
abbrev pub AllKnown : ℕ → ℕ → List Round → Type 0
AllKnown n pools [] = Unit
AllKnown n pools (r ∷ rs) = IsKnown n pools r.response × AllKnown n pools rs

module _ (n pools : ℕ) (some_member : 0 < n) where
  pub round_returns :
      (time checked now : ℕ) (response : Option Probe) (t : Tracker)
      → IsKnown n pools response
      → IsRunning n pools t
      → IsSchedule n t.state.pq
      → (t' : Tracker) × (round time checked now response t ≡ ok t') × IsRunning n pools t'
  unfolding round
  round_returns time checked now response t known h q =
      let (t1, received, h1) = receive-IsRunning n pools time response t known h in
      let some_item =
        items_some n t1.state.pq some_member
          (subst (IsSchedule n) (sym (receive-pq time response t t1 received)) q) in
      let (t2, scheduled, h2) =
        schedule-IsRunning n pools checked now t1.state.pq t1 refl some_item h1 in
      (t2, rw received scheduled, h2)

  run_rounds_return :
      (rs : List Round) (t : Tracker)
      → AllKnown n pools rs
      → IsRunning n pools t
      → IsSchedule n t.state.pq
      → (t' : Tracker) × (run_rounds rs t ≡ ok t') × IsSchedule n t'.state.pq
  run_rounds_return [] t known h q = (t, refl, q)
  run_rounds_return (r ∷ rs) t (known, all_known) h q =
      let (t1, returned, h1) = round_returns r.time r.checked r.now r.response t known h q in
      let q1 = round-IsSchedule n r.time r.checked r.now r.response t t1 q returned in
      let (t', rest, q') = run_rounds_return rs t1 all_known h1 q1 in (t', rw returned rest, q')

push_members-Refers :
    (at : ℕ → ℕ) (n pools pool_id first : ℕ) (ms : List Member) (q : List Item)
    → first + length ms ≤ n
    → pool_id < pools
    → Refers n pools q
    → Refers n pools (push_members at pool_id first ms q)
unfolding push_members
push_members-Refers at n pools pool_id first [] q a b h = h
push_members-Refers at n pools pool_id first (m ∷ ms) q a b h =
    push_members-Refers at n pools pool_id (first + 1) ms _ (omega (arith, a)) b
      (push-Refers n pools _ q (omega (arith, a)) b h)

push_pools-Refers :
    (at : ℕ → ℕ) (n count pool_id first : ℕ) (pools : Dict String Pool) (q : List Item)
    → first + length (all_members pools) ≤ n
    → pool_id + length (values pools) ≤ count
    → Refers n count q
    → Refers n count (push_pools at pool_id first pools q)
unfolding push_pools all_members
push_pools-Refers at n count pool_id first [] q a b h = h
push_pools-Refers at n count pool_id first ((name, p) ∷ pools) q a b h =
    let total = length-append p.members (all_members pools) in
    push_pools-Refers at n count (pool_id + 1) (first + length p.members) pools _
      (omega (arith, a, total)) (omega (arith, b))
      (push_members-Refers at n count pool_id first p.members q (omega (arith, a, total))
        (omega (arith, b)) h)

set_retries-has_retries :
    (retries : ℕ) (ms : List Member) → every has_retries (map (with_retries retries) ms) ≡ true
set_retries-has_retries retries [] = refl
set_retries-has_retries retries (m ∷ ms) = set_retries-has_retries retries ms

ready-has_retries :
    (pools : Dict String Pool)
    → every has_retries (all_members (map_values (λ name p. set_retries p) pools)) ≡ true
unfolding all_members map_values set_retries
ready-has_retries [] = refl
ready-has_retries ((name, p) ∷ pools) =
    every-append has_retries (map (with_retries p.monitor.retries) p.members) _
      (set_retries-has_retries p.monitor.retries p.members) (ready-has_retries pools)

abbrev pub started : (ℕ → ℕ) → Dict String Pool → Dict String GlobalName → ℕ → Tracker
started at pools names timestamp = record {
  state = init at pools names;
  timestamp = timestamp;
  requests = [];
}

abbrev pub member_count : Tracker → ℕ
member_count t = length (all_members t.state.pools)

abbrev pub pool_count : Tracker → ℕ
pool_count t = length (values t.state.pools)

pub started-IsRunning :
    (at : ℕ → ℕ) (pools : Dict String Pool) (names : Dict String GlobalName) (timestamp : ℕ)
    → let t = started at pools names timestamp in IsRunning (member_count t) (pool_count t) t
unfolding init
started-IsRunning at pools names timestamp =
    let ready = map_values (λ name p. set_retries p) pools in
    record {
      members = refl;
      pool_count = refl;
      retries = ready-has_retries pools;
      refers = push_pools-Refers at _ _ 0 0 ready [] (omega arith) (omega arith) tt;
    }

-- From the state that is built of some pools, rounds of the tracker raise no exception, whatever the
-- clocks show, if there is a member and the responses are to members and pools that are there. And then
-- the item at the top of the queue is the next one in time, and the queue holds exactly one item for
-- each member, so that no member's probes are lost or doubled.
run_rounds-IsSchedule :
    (at : ℕ → ℕ) (pools : Dict String Pool) (names : Dict String GlobalName) (timestamp : ℕ)
    (rs : List Round)
    → 0 < member_count (started at pools names timestamp)
    → AllKnown
        (member_count (started at pools names timestamp))
        (pool_count (started at pools names timestamp))
        rs
    → (t' : Tracker) × (run_rounds rs (started at pools names timestamp) ≡ ok t')
      × IsSchedule (member_count (started at pools names timestamp)) t'.state.pq
run_rounds-IsSchedule at pools names timestamp rs some_member known =
    let t = started at pools names timestamp in
    run_rounds_return (member_count t) (pool_count t) some_member rs t known
      (started-IsRunning at pools names timestamp) (init-IsSchedule at pools names)
