-- ===== src/Examples/Rounds.antt =====
-- Some rounds of the tracker on the small site.
use mathlib.Core.List.{Memᴰ}
use polaris_gslb.Prelude.{ℕ, ◌<◌, ◌≡◌, refl, arith, String, none, some, [], ◌∷◌}
use polaris_gslb.Prelude.Dict.{Dict, map_values}
use polaris_gslb.Prelude.Result.{ok}
use polaris_gslb.Pool.{Pool}
use polaris_gslb.State.{all_members, pool_at, member_at}
use polaris_gslb.State.Init.{init}
use polaris_gslb.State.Queue.{replace}
use polaris_gslb.Prober.{Probe, passed, run}
use polaris_gslb.Tracker.{Tracker, round}
use polaris_gslb.Tracker.Schedule.{IsSchedule, Round}
use polaris_gslb.Tracker.Rounds.{member_count, started}
use polaris_gslb.Tracker.Reachable.{Reaches, here, after, Reaches-goes_on}
use polaris_gslb.Examples.{pool}

abbrev pools : Dict String Pool
pools = ("pool1", pool) ∷ []

abbrev first : Tracker
first = started (λ i. i) pools [] 0

-- a round at this time, without a response
abbrev at_time : ℕ → Round
at_time now = record { time = now; checked = now; now = now; response = none }

-- The tracker after its first round, and the probe that it has requested.
record FirstRound : Type 0 where
  pub tracker : Tracker
  pub request : Probe
  pub returned : round 5 5 5 none first ≡ ok tracker
  pub requested : Memᴰ request tracker.requests

first_round : FirstRound
unfolding round init all_members map_values pool_at member_at replace
first_round = record { tracker = _; request = _; returned = refl; requested = Memᴰ.head refl }

-- The probe comes back.
abbrev answered : Round
answered = record {
  time = 7;
  checked = 7;
  now = 7;
  response = some (run passed first_round.request);
}

reached : Reaches first first_round.tracker
reached = after first first_round.tracker (at_time 5) here tt first_round.returned

some_members : 0 < member_count first
unfolding init all_members map_values
some_members = omega arith

Reaches-goes_on_example :
    (t' : Tracker) × (round 7 7 7 answered.response first_round.tracker ≡ ok t')
    × Reaches first t'
    × IsSchedule (member_count first) t'.state.pq
Reaches-goes_on_example =
    Reaches-goes_on (λ i. i) pools [] 0 first_round.tracker answered some_members reached
      (first_round.request, passed, first_round.requested, refl)
