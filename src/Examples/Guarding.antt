-- ===== src/Examples/Guarding.antt =====
-- A guardian with a tracker that ends when it is told to, and a prober that does not.
use polaris_gslb.Prelude.Result.{ok, exception}
use polaris_gslb.Guardian.Start.{Runtime, Run, raised, start_run}
use polaris_gslb.Guardian.Whole.{Joins, IsLeft, start_run-IsLeft}
use polaris_gslb.Prelude.{
  ℕ, zero, suc, ◌+◌, ◌≤◌, ◌<◌, ◌≡◌, refl, arith, Bool, true, false, some, List, [], ◌∷◌, length,
}
use polaris_gslb.Guardian.{Os, World, terminated, killed, terminate_child_procs}
use polaris_gslb.Guardian.Ending.{
  StaysGone, terms, kills, IsAmong, IsEnded, terminate_child_procs-IsEnded,
}
use polaris_gslb.Guardian.Patience.{terminate_child_procs-patience}
use polaris_gslb.Guardian.Loop.{from, Tick, Guardian, start, control_loop, returned}
use polaris_gslb.Guardian.Shutdown.{AllEnded, control_loop-shuts_down}

-- whether the tracker and the prober are alive
abbrev Alive : Type 0
Alive = Bool × Bool

abbrev is_alive : ℕ → Alive → Bool
is_alive zero (tracker, prober) = tracker
is_alive (suc n) (tracker, prober) = prober

abbrev terminate : ℕ → Alive → Alive
terminate zero (tracker, prober) = (false, prober)
terminate (suc n) w = w

abbrev kill : ℕ → Alive → Alive
kill zero (tracker, prober) = (false, prober)
kill (suc n) (tracker, prober) = (tracker, false)

abbrev os : Os Alive
os = record {
  is_alive = is_alive;
  terminate = terminate;
  kill = kill;
  sleep = λ w. w;
  after = λ w. w;
}

terminate_gone : (p q : ℕ) (w : Alive) → is_alive p w ≡ false → is_alive p (terminate q w) ≡ false
terminate_gone zero zero w h = refl
terminate_gone (suc p) zero w h = h
terminate_gone p (suc q) w h = h

kill_gone : (p q : ℕ) (w : Alive) → is_alive p w ≡ false → is_alive p (kill q w) ≡ false
kill_gone zero zero w h = refl
kill_gone (suc p) zero w h = h
kill_gone zero (suc q) w h = h
kill_gone (suc p) (suc q) w h = refl

os-StaysGone : StaysGone os
os-StaysGone = record {
  terminate = terminate_gone;
  kill = kill_gone;
  sleep = λ p w h. h;
  after = λ p w h. h;
}

abbrev running : World Alive
running = record { system = (true, true); acts = [] }

abbrev both : List ℕ
both = 0 ∷ 1 ∷ []

-- The prober gets SIGTERM five times, and SIGKILL.
both_terminated :
    (terminate_child_procs os both running).acts
    ≡ killed 1
      ∷ terminated 1
      ∷ terminated 1
      ∷ terminated 1
      ∷ terminated 1
      ∷ terminated 1
      ∷ terminated 0
      ∷ []
unfolding terminate_child_procs
both_terminated = refl

terminate_child_procs-IsEnded_example : IsEnded os 1 (terminate_child_procs os both running)
terminate_child_procs-IsEnded_example =
    terminate_child_procs-IsEnded os 1 os-StaysGone both running refl

prober_killed : kills 1 running.acts < kills 1 (terminate_child_procs os both running).acts
unfolding terminate_child_procs
prober_killed = omega arith

terminate_child_procs-patience_example :
    terms 1 running.acts + 5 ≤ terms 1 (terminate_child_procs os both running).acts
terminate_child_procs-patience_example =
    terminate_child_procs-patience os os-StaysGone 1 both running refl prober_killed

-- The tracker has crashed, and someone asks for a ping.
abbrev half : Guardian Alive
half = start 1 0 (false, true)

abbrev ping : Tick
ping = record {
  sigterm = false;
  accepts = some (record { received = some "ping"; sends = true });
  now = 500;
}

half_started : length half.processes ≡ half.procs_started
unfolding start
half_started = refl

half-IsAmong : IsAmong 0 half.processes
unfolding start
half-IsAmong = refl

half_gone : is_alive 0 half.world.system ≡ false
unfolding start
half_gone = refl

control_loop-shuts_down_example :
    (w' : World Alive) × (control_loop os (ping ∷ []) half ≡ returned w')
    × AllEnded os half.processes w'
control_loop-shuts_down_example =
    control_loop-shuts_down os 0 ping [] half os-StaysGone half_started half-IsAmong half_gone

-- The tracker starts, and the fork of the prober fails.
abbrev spawns : ℕ → Bool
spawns zero = true
spawns (suc n) = false

abbrev spawn : ℕ → Alive → Alive
spawn zero (tracker, prober) = (true, prober)
spawn (suc n) (tracker, prober) = (tracker, true)

abbrev runtime : Runtime Alive
runtime = record {
  logging = ok tt;
  tracker = ok tt;
  unlinks_old_socket = true;
  binds = true;
  writes_pid = true;
  spawns = spawns;
  spawn = spawn;
  join = kill;
  unlinks_socket = true;
  removes_pid = true;
}

join_ends : (p : ℕ) (w : Alive) → is_alive p (kill p w) ≡ false
join_ends zero w = refl
join_ends (suc p) w = refl

runtime-Joins : Joins os runtime
runtime-Joins = record { ends = join_ends; stays = kill_gone }

abbrev idle : Run Alive
idle = record {
  world = record { system = (false, false); acts = [] };
  socket_file = true;
  pid_file = false;
  socket_open = false;
}

start_run-IsLeft_example :
    IsLeft os runtime (from 0 2) idle (start_run os runtime 1 0 (ping ∷ []) idle)
start_run-IsLeft_example = start_run-IsLeft os runtime 1 0 (ping ∷ []) idle runtime-Joins

-- The tracker is left running.
tracker_left :
    start_run os runtime 1 0 (ping ∷ []) idle
    ≡ raised exception (record {
      world = record { system = (true, false); acts = [] };
      socket_file = true;
      pid_file = true;
      socket_open = true;
    })
unfolding start_run from
tracker_left = refl
