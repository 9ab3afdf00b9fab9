-- ===== src/Tracker.antt =====
-- polaris_health/tracker: probe responses and the schedule of probes. Times are in milliseconds.
pub mod Retries
pub mod Fit
pub mod Configured
pub mod Pusher
pub mod Pools
pub mod Responses
pub mod Schedule
pub mod Remaining
pub mod Progress
pub mod Rounds
pub mod Reachable
use polaris_gslb.Prelude.{
  ℕ, zero, suc, ◌+◌, String, Bool, true, false, Option, none, some, List, [], ◌∷◌, ◌++◌, leb,
  if◌then◌else◌,
}
use polaris_gslb.Prelude.Eq.{bool_beq}
use polaris_gslb.Prelude.Result.{Result, ok, raise, or_raise, index_error, type_error, ◌>>=◌}
use polaris_gslb.Prelude.Dict.{Dict}
use polaris_gslb.Monitors.{Monitor}
use polaris_gslb.Pool.{Member, Pool, is_up, pool_status}
use polaris_gslb.State.{State, pool_at, member_at, change_pool, change_member}
use polaris_gslb.State.Queue.{Item, replace}
use polaris_gslb.Prober.{Probe}

-- A probe that failed, for a member that is UP or new: one retry less, or DOWN.
unfoldable pub count_down : Member → Option ℕ → Result (Member × Bool)
count_down m none = raise type_error
count_down m (some zero) = ok (record m { status = some false }, true)
count_down m (some (suc n)) = ok (record m { retries_left = some n }, false)

-- A failed probe, on the member's status.
unfoldable pub on_failure : Member → Option Bool → Result (Member × Bool)
unfolding count_down
on_failure m (some false) = ok (m, false)
on_failure m (some true) = count_down m m.retries_left
on_failure m none = count_down m m.retries_left

-- A probe that succeeded, on the member's status.
unfoldable pub on_success : Member → Option Bool → Member × Bool
on_success m (some true) = (m, false)
on_success m _ = (record m { status = some true }, true)

-- What a response does to a member, and whether the status changed.
unfoldable pub respond : ℕ → Probe → Member → Result (Member × Bool)
unfolding on_failure on_success
respond retries probe m =
    let noted = record m { status_reason = probe.status_reason } in
    if is_up probe.status
    then ok (on_success (record noted { retries_left = some retries }) m.status)
    else on_failure noted m.status

-- pool.last_status != pool.status, and the assignment of the last lines
abbrev pub note_last : Option Bool → Bool → Option Bool
note_last none now = some now
note_last (some last) now = if bool_beq last now then some last else some now

unfoldable pub note_status : Pool → Pool
unfolding pool_status
note_status p = record p { last_status = note_last p.last_status (pool_status p) }

-- The tracker: STATE, STATE_TIMESTAMP, and the probes put on the requests queue.
pub record Tracker : Type 0 where
  pub state : State
  pub timestamp : ℕ
  pub requests : List Probe

-- The end of _process_probe_response: the member is stored, and a change is noted.
unfoldable pub store_response : ℕ → Probe → Member × Bool → Tracker → Tracker
unfolding note_status change_pool change_member
store_response now probe (m, changed) t =
    let pools = change_member probe.member_id (λ _. m) t.state.pools in
    if changed
    then record t {
      state = record t.state { pools = change_pool probe.pool_id note_status pools };
      timestamp = now;
    }
    else record t { state = record t.state { pools = pools } }

-- Tracker._process_probe_response, with the value of time.time()
unfoldable pub process_probe_response : ℕ → Probe → Tracker → Result Tracker
process_probe_response now probe t = do
  pool ← or_raise (pool_at t.state.pools probe.pool_id) index_error
  member ← or_raise (member_at t.state.pools probe.member_id) index_error
  result ← respond pool.monitor.retries probe member
  ok (store_response now probe result t)

-- Tracker._issue_probe_request
unfoldable pub issue_probe_request : Pool → Member → ℕ → ℕ → Probe
issue_probe_request pool member pool_id member_id = record {
  pool_id = pool_id;
  pool_name = pool.name;
  member_id = member_id;
  member_ip = member.ip;
  monitor = pool.monitor;
  monitor_ip = member.monitor_ip;
  status = none;
  status_reason = none;
}

-- The second half of the loop's body, for the item at the top of the queue: `checked` and `now`
-- are the two values of time.monotonic().
unfoldable pub schedule : ℕ → ℕ → List Item → Tracker → Result Tracker
schedule checked now [] t = raise index_error
schedule checked now (top ∷ rest) t =
    if leb top.time checked
    then (do
      pool ← or_raise (pool_at t.state.pools top.pool_id) index_error
      member ← or_raise (member_at t.state.pools top.member_id) index_error
      let next : Item = record {
        time = now + pool.monitor.interval;
        pool_id = top.pool_id;
        member_id = top.member_id;
      }
      ok (record t {
        state = record t.state { pq = replace next (top ∷ rest) };
        requests = t.requests ++ issue_probe_request pool member top.pool_id top.member_id ∷ [];
      }))
    else ok t

abbrev receive : ℕ → Option Probe → Tracker → Result Tracker
receive now none t = ok t
receive now (some probe) t = process_probe_response now probe t

-- One round of Tracker.run: the response that was on the queue, if any, and the clock's values.
unfoldable pub round : ℕ → ℕ → ℕ → Option Probe → Tracker → Result Tracker
unfolding process_probe_response schedule
round time checked now response t = do
  received ← receive time response t
  schedule checked now received.state.pq received
