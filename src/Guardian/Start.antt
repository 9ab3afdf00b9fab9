-- ===== src/Guardian/Start.antt =====
-- polaris_health/guardian/__init__.py: start, with the control socket's file and the PID file. What
-- the operating system makes of each operation is a parameter: it is done, or raises OSError.
use polaris_gslb.Prelude.{ℕ, suc, Bool, true, false, not, ◌&&◌, List, [], ◌∷◌, if◌then◌else◌}
use polaris_gslb.Prelude.Result.{Result, Exception, ok, raise, error, exception}
use polaris_gslb.Guardian.{Os, World}
use polaris_gslb.Guardian.Loop.{Guardian, Tick, Step, returned, goes_on, start, from, control_loop}

-- How the set-up of logging and the instantiation of the tracker end, and what else start does to the
-- processes and the files.
pub record Runtime {ℓ} (W : Type ℓ) : Type ℓ where
  pub logging : Result (Unit {0})
  pub tracker : Result (Unit {0})
  pub unlinks_old_socket : Bool
  pub binds : Bool
  pub writes_pid : Bool
  pub spawns : ℕ → Bool
  pub spawn : ℕ → W → W
  pub join : ℕ → W → W
  pub unlinks_socket : Bool
  pub removes_pid : Bool

-- the guardian's files, and whether its control socket is open
pub record Run {ℓ} (W : Type ℓ) : Type ℓ where
  pub world : World W
  pub socket_file : Bool
  pub pid_file : Bool
  pub socket_open : Bool

-- How start ends: with an exception, or at its last line; or its control loop goes on.
pub data Finish {ℓ} (W : Type ℓ) : Type ℓ where
  raised : Exception → Run W → Finish W
  finished : Run W → Finish W
  in_loop : Guardian W → Finish W

-- a method that returns or raises, and what start does next
infixl 5 ◌then◌
abbrev pub ◌then◌ {ℓ} : {W : Type ℓ} → Result (Unit {0}) × Run W → (Run W → Finish W) → Finish W
(raise e, r) then next = raised e r
(ok u, r) then next = next r

-- _delete_control_socket_file, which only logs what fails
unfoldable pub delete_control_socket_file {ℓ} : {W : Type ℓ} → Bool → Run W → Run W
delete_control_socket_file unlinks r = record r { socket_file = r.socket_file && not unlinks }

-- bind, which fails if the file is there
abbrev pub bind {ℓ} : {W : Type ℓ} → Bool → Run W → Result (Unit {0}) × Run W
bind binds r =
    if not r.socket_file && binds
    then (ok tt, record r { socket_file = true })
    else (raise error, r)

-- _init_control_socket
unfoldable pub init_control_socket {ℓ} :
    {W : Type ℓ} → Runtime W → Run W → Result (Unit {0}) × Run W
unfolding delete_control_socket_file
init_control_socket rt r =
    bind rt.binds
      (record (delete_control_socket_file rt.unlinks_old_socket r) { socket_open = true })

-- _write_pid_file
unfoldable pub write_pid_file {ℓ} : {W : Type ℓ} → Bool → Run W → Result (Unit {0}) × Run W
write_pid_file writes r = if writes then (ok tt, record r { pid_file = true }) else (raise error, r)

-- _delete_pid_file, which fails if the file is not there
unfoldable pub delete_pid_file {ℓ} : {W : Type ℓ} → Bool → Run W → Result (Unit {0}) × Run W
delete_pid_file removes r =
    if r.pid_file && removes then (ok tt, record r { pid_file = false }) else (raise error, r)

abbrev pub on_system {ℓ} : {W : Type ℓ} → (W → W) → Run W → Run W
on_system f r = record r { world = record r.world { system = f r.world.system } }

-- for p in self._processes: p.start()
unfoldable pub start_processes {ℓ} :
    {W : Type ℓ} → Runtime W → List ℕ → Run W → Result (Unit {0}) × Run W
start_processes rt [] r = (ok tt, r)
start_processes rt (p ∷ ps) r =
    let rest = start_processes rt ps (on_system (rt.spawn p) r) in
    if rt.spawns p then rest else (raise exception, r)

-- for p in self._processes: p.join()
unfoldable pub join_processes {ℓ} : {W : Type ℓ} → Runtime W → List ℕ → Run W → Run W
join_processes rt [] r = r
join_processes rt (p ∷ ps) r = join_processes rt ps (on_system (rt.join p) r)

module _ {ℓ} {W : Type ℓ} (os : Os W) (rt : Runtime W) where
  -- after the control loop has returned
  unfoldable pub clean_up : List ℕ → Run W → Finish W
  unfolding join_processes delete_control_socket_file delete_pid_file
  clean_up ps r =
      let joined = join_processes rt ps r in
      delete_pid_file rt.removes_pid
        (delete_control_socket_file rt.unlinks_socket (record joined { socket_open = false }))
      then (λ r'. finished r')

  -- the loop has returned, or goes on
  abbrev pub after_loop : List ℕ → Run W → Step os → Finish W
  after_loop ps r (returned w) = clean_up ps (record r { world = w })
  after_loop ps r (goes_on g) = in_loop g

  -- from the start of the child processes on
  unfoldable pub run_children : ℕ → ℕ → List Tick → Run W → Finish W
  unfolding start_processes clean_up control_loop start
  run_children num_probers now ticks r = start_processes rt (from 0 (suc num_probers)) r then (λ r'.
      after_loop (from 0 (suc num_probers)) r' (
        control_loop os ticks
          (record (start num_probers now r'.world.system) { world = r'.world })))

  -- Guardian.start, with NUM_PROBERS, the clock at the entry of the control loop, and its passes
  unfoldable pub start_run : ℕ → ℕ → List Tick → Run W → Finish W
  unfolding init_control_socket write_pid_file run_children
  start_run num_probers now ticks r = (rt.logging, r) then (λ r. (rt.tracker, r) then (λ r.
      init_control_socket rt r
      then (λ r. write_pid_file rt.writes_pid r then (λ r. run_children num_probers now ticks r))))
