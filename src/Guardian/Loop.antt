-- ===== src/Guardian/Loop.antt =====
-- polaris_health/guardian/__init__.py: the control socket, the control loop and the start of the
-- child processes. What a pass of the loop meets is a Tick; times are in milliseconds.
use polaris_gslb.Prelude.{
  ℕ, zero, suc, ◌+◌, ◌-◌, String, Bool, true, false, not, Option, none, some, List, [], ◌∷◌, length,
  eqb, leb, if◌then◌else◌,
}
use polaris_gslb.Prelude.Eq.{◌==◌, string_eq}
use polaris_gslb.Guardian.{
  Os, replied, pushed_heartbeat, World, do_act, looked, terminate_child_procs,
}

-- A connection on the control socket: the text of what recv returns, or none if it raises, and whether
-- sendall returns.
pub record Connection : Type 0 where
  pub received : Option String
  pub sends : Bool

-- One pass of the loop: SIGTERM may come while it waits in accept; then accept returns a connection
-- or raises, and `now` is read from the clock. That the shared memory does not take a heartbeat is
-- only logged.
pub record Tick : Type 0 where
  pub sigterm : Bool
  pub accepts : Option Connection
  pub now : ℕ

-- _processes, with the number of those that were started. `t_due` is t_last + HEARTBEAT_INTERVAL.
pub record Guardian {ℓ} (W : Type ℓ) : Type ℓ where
  pub processes : List ℕ
  pub procs_started : ℕ
  pub t_due : ℕ
  pub world : World W

-- HEARTBEAT_INTERVAL
abbrev pub heartbeat_interval : ℕ
heartbeat_interval = 1000

-- the positions from `i` on
unfoldable pub from : ℕ → ℕ → List ℕ
from i zero = []
from i (suc n) = i ∷ from (i + 1) n

-- start: the tracker and the probers are started, and t_last is set at the entry of the loop
unfoldable pub start {ℓ} : {W : Type ℓ} → ℕ → ℕ → W → Guardian W
unfolding from
start num_probers now w = record {
  processes = from 0 (suc num_probers);
  procs_started = length (from 0 (suc num_probers));
  t_due = now - 1000;
  world = record { system = w; acts = [] };
}

module _ {ℓ} {W : Type ℓ} (os : Os W) where
  -- an exception of sendall leaves the handler, and the loop goes on
  unfoldable pub run_command : List ℕ → String → Bool → World W → World W
  run_command ps cmd sends w =
      if cmd == "ping"
      then if sends then do_act (replied "pong") (λ s. s) w else w
      else if cmd == "stop"
      then if sends then terminate_child_procs os ps (do_act (replied "ok") (λ s. s) w) else w
      else w

  -- accept and _process_control_connection
  unfoldable pub process_control_connection : List ℕ → Option Connection → World W → World W
  unfolding run_command
  process_control_connection ps none w = w
  process_control_connection ps (some c) w = elim c.received [
    | none ↦ w
    | some cmd ↦ run_command ps cmd c.sends w
  ]

  -- the number of processes that are found alive
  unfoldable pub count_alive : List ℕ → World W → ℕ × World W
  count_alive [] w = (0, w)
  count_alive (p ∷ ps) w =
      let (n, w') = count_alive ps (looked os w) in
      (if os.is_alive p w.system then suc n else n, w')

  unfoldable pub push_heartbeat : ℕ → Guardian W → Guardian W
  push_heartbeat now g =
      if leb g.t_due now
      then record g {
        world = do_act (pushed_heartbeat now) (λ s. s) g.world;
        t_due = now + heartbeat_interval;
      }
      else g

  -- _sigterm_handler
  unfoldable pub on_sigterm : Bool → List ℕ → World W → World W
  unfolding terminate_child_procs
  on_sigterm true ps w = terminate_child_procs os ps w
  on_sigterm false ps w = w

  -- the end of the loop: a world when it returns, or the guardian that goes on
  pub data Step : Type ℓ where
    returned : World W → Step
    goes_on : Guardian W → Step

  -- what the loop does with the number of processes that are alive
  unfoldable pub health_check : ℕ → Guardian W → ℕ × World W → Step
  unfolding terminate_child_procs push_heartbeat
  health_check now g (alive, w) =
      if eqb alive 0
      then returned w
      else if not (eqb alive g.procs_started)
      then returned (terminate_child_procs os g.processes w)
      else goes_on (push_heartbeat now (record g { world = w }))

  -- one pass of _control_loop
  unfoldable pub control_pass : Tick → Guardian W → Step
  unfolding process_control_connection on_sigterm count_alive health_check
  control_pass tick g =
      let w = on_sigterm tick.sigterm g.processes g.world in
      let w' = process_control_connection g.processes tick.accepts w in
      health_check tick.now g (count_alive g.processes w')

  abbrev pub and_on : Step → (Guardian W → Step) → Step
  and_on (returned w) next = returned w
  and_on (goes_on g) next = next g

  -- _control_loop, on the passes to come
  unfoldable pub control_loop : List Tick → Guardian W → Step
  unfolding control_pass
  control_loop [] g = goes_on g
  control_loop (tick ∷ ticks) g = and_on (control_pass tick g) (control_loop ticks)
