-- ===== src/Guardian.antt =====
-- polaris_health/guardian/__init__.py: how the guardian ends its child processes. The operating
-- system with the processes is a parameter; a process is its position in `_processes`.
pub mod Ending
pub mod Patience
pub mod Loop
pub mod Counted
pub mod Shutdown
pub mod Start
pub mod Whole
use polaris_gslb.Prelude.{
  ℕ, zero, suc, String, Bool, true, false, List, [], ◌∷◌, ◌++◌, if◌then◌else◌,
}

-- `after` is what happens while the guardian looks at one process and goes on to the next.
pub record Os {ℓ} (W : Type ℓ) : Type ℓ where
  pub is_alive : ℕ → W → Bool
  pub terminate : ℕ → W → W
  pub kill : ℕ → W → W
  pub sleep : W → W
  pub after : W → W

-- What the guardian does to others.
pub data Act : Type 0 where
  terminated killed : (process : ℕ) → Act
  replied : String → Act
  pushed_heartbeat : (timestamp : ℕ) → Act

pub record World {ℓ} (W : Type ℓ) : Type ℓ where
  pub system : W
  pub acts : List Act

abbrev pub do_act {ℓ} : {W : Type ℓ} → Act → (W → W) → World W → World W
do_act act change w = record { system = change w.system; acts = act ∷ w.acts }

-- MAX_TERMINATE_ATTEMPTS
abbrev pub max_attempts : ℕ
max_attempts = 5

module _ {ℓ} {W : Type ℓ} (os : Os W) where
  -- p.is_alive(), and what happens until the next call
  abbrev pub looked : World W → World W
  looked w = record w { system = os.after w.system }

  -- for p in self._processes: if p.is_alive(): p.terminate()
  unfoldable pub terminate_alive : List ℕ → World W → World W
  terminate_alive [] w = w
  terminate_alive (p ∷ ps) w =
      let next =
        if os.is_alive p w.system
        then do_act (terminated p) (os.terminate p) (looked w)
        else looked w in
      terminate_alive ps next

  -- whether the loop over the processes breaks, as one of them is alive
  unfoldable pub find_alive : List ℕ → World W → Bool × World W
  find_alive [] w = (false, w)
  find_alive (p ∷ ps) w =
      let rest = find_alive ps (looked w) in
      if os.is_alive p w.system then (true, looked w) else rest

  -- the processes that are alive get SIGKILL; an OSError is passed over
  unfoldable pub kill_alive : List ℕ → World W → World W
  kill_alive [] w = w
  kill_alive (p ∷ ps) w =
      let next =
        if os.is_alive p w.system then do_act (killed p) (os.kill p) (looked w) else looked w in
      kill_alive ps next

  abbrev pub slept : World W → World W
  slept w = record w { system = os.sleep w.system }

  abbrev pub one_attempt : List ℕ → World W → Bool × World W
  one_attempt ps w = find_alive ps (slept (terminate_alive ps w))

  -- the loop, with so many attempts left
  unfoldable pub attempt : ℕ → List ℕ → World W → World W
  unfolding terminate_alive find_alive kill_alive
  attempt zero ps w = kill_alive ps w
  attempt (suc n) ps w =
      let (runs, w') = one_attempt ps w in let again = attempt n ps w' in if runs then again else w'

  -- _terminate_child_procs
  unfoldable pub terminate_child_procs : List ℕ → World W → World W
  unfolding attempt
  terminate_child_procs ps w = attempt max_attempts ps w
