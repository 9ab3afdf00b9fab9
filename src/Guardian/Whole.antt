-- ===== src/Guardian/Whole.antt =====
-- How a run of the guardian ends.
use polaris_gslb.Prelude.{
  ℕ, suc, ◌≡◌, refl, sym, ap, ◌∙◌, ◌⊎◌, inl, inr, Bool, true, false, not, ◌&&◌, List, [], ◌∷◌, ◌++◌,
  arith, if◌then◌else◌, Bool-cases,
}
use polaris_gslb.Prelude.Result.{Result, Exception, ok, raise}
use polaris_gslb.Guardian.{Os}
use polaris_gslb.Guardian.Loop.{Tick, Step, returned, goes_on, from}
use polaris_gslb.Guardian.Start.{
  Runtime, Run, Finish, raised, finished, in_loop, ◌then◌, delete_control_socket_file, bind,
  init_control_socket, write_pid_file, delete_pid_file, on_system, start_processes, join_processes,
  clean_up, after_loop, run_children, start_run,
}

-- A process that was joined has ended, and one that has ended does not come back by a join.
pub record Joins {ℓ} {W : Type ℓ} (os : Os W) (rt : Runtime W) : Type ℓ where
  pub ends : (p : ℕ) (w : W) → os.is_alive p (rt.join p w) ≡ false
  pub stays : (p q : ℕ) (w : W) → os.is_alive p w ≡ false → os.is_alive p (rt.join q w) ≡ false

abbrev pub AllGone {ℓ} : {W : Type ℓ} → Os W → List ℕ → Run W → Type 0
AllGone os [] r = Unit
AllGone os (p ∷ ps) r = (os.is_alive p r.world.system ≡ false) × AllGone os ps r

-- What the system is after these processes were started, one after the other.
abbrev pub spawned {ℓ} : {W : Type ℓ} → Runtime W → List ℕ → W → W
spawned rt [] w = w
spawned rt (p ∷ ps) w = spawned rt ps (rt.spawn p w)

abbrev pub AllStart {ℓ} : {W : Type ℓ} → Runtime W → List ℕ → Type 0
AllStart rt [] = Unit
AllStart rt (p ∷ ps) = (rt.spawns p ≡ true) × AllStart rt ps

-- The start of one of the processes raised. Those before it were started, and nothing else was done
-- to the system; in particular no signal was sent.
pub record IsAbandoned {ℓ} {W : Type ℓ} (rt : Runtime W) (ps : List ℕ) (r r' : Run W) : Type ℓ where
  pub before : List ℕ
  pub remaining : List ℕ
  pub failed : ℕ
  pub is_split : ps ≡ before ++ failed ∷ remaining
  pub starts : AllStart rt before
  pub fails : rt.spawns failed ≡ false
  pub system : r'.world.system ≡ spawned rt before r.world.system
  pub acts : r'.world.acts ≡ r.world.acts

module _ {W : Type 0} where
  then-raised :
      (m : Result (Unit {0}) × Run W) (next : Run W → Finish W) {e : Exception} {r' : Run W}
      → (m then next) ≡ raised e r'
      → (m ≡ (raise e, r')) ⊎ ((r1 : Run W) × (m ≡ (ok tt, r1)) × (next r1 ≡ raised e r'))
  then-raised (raise e', r1) next h = inl (cc h)
  then-raised (ok u, r1) next h = inr (r1, refl, h)

  then-finished :
      (m : Result (Unit {0}) × Run W) (next : Run W → Finish W) {r' : Run W}
      → (m then next) ≡ finished r'
      → (r1 : Run W) × (m ≡ (ok tt, r1)) × (next r1 ≡ finished r')
  then-finished (raise e', r1) next h = cc
  then-finished (ok u, r1) next h = (r1, refl, h)

  module _ (os : Os W) (rt : Runtime W) where
    join_processes-gone :
        (p : ℕ) (ps : List ℕ) (r : Run W)
        → Joins os rt
        → os.is_alive p r.world.system ≡ false
        → os.is_alive p (join_processes rt ps r).world.system ≡ false
    unfolding join_processes
    join_processes-gone p [] r j h = h
    join_processes-gone p (q ∷ ps) r j h =
        join_processes-gone p ps (on_system (rt.join q) r) j (j.stays p q r.world.system h)

    join_processes-AllGone :
        (ps : List ℕ) (r : Run W) → Joins os rt → AllGone os ps (join_processes rt ps r)
    unfolding join_processes
    join_processes-AllGone [] r j = tt
    join_processes-AllGone (p ∷ ps) r j =
        let r1 = on_system (rt.join p) r in
        (join_processes-gone p ps r1 j (j.ends p r.world.system), join_processes-AllGone ps r1 j)

    AllGone-same :
        (ps : List ℕ) (r r' : Run W) → r'.world ≡ r.world → AllGone os ps r → AllGone os ps r'
    AllGone-same [] r r' e h = tt
    AllGone-same (p ∷ ps) r r' e (gone, h) =
        (ap (λ w. os.is_alive p w.system) e ∙ gone, AllGone-same ps r r' e h)

    delete_pid_file-world :
        (b : Bool) (r r1 : Run W) {m : Result (Unit {0})}
        → delete_pid_file b r ≡ (m, r1)
        → r1.world ≡ r.world
    unfolding delete_pid_file
    delete_pid_file-world b r r1 h = elim (Bool-cases (r.pid_file && b)) [
      | inl yes' ↦ let h' = rw yes' at h in ap (λ q. q.1.world) (sym h')
      | inr no' ↦ let h' = rw no' at h in ap (λ q. q.1.world) (sym h')
    ]

    delete_pid_file-gone :
        (b : Bool) (r r1 : Run W)
        → delete_pid_file b r ≡ (ok tt, r1)
        → (r1.pid_file ≡ false)
          × (r1.socket_open ≡ r.socket_open)
          × (r1.socket_file ≡ r.socket_file)
    unfolding delete_pid_file
    delete_pid_file-gone b r r1 h = elim (Bool-cases (r.pid_file && b)) [
      | inl yes' ↦
          let h' = rw yes' at h in
          (
            ap (λ q. q.1.pid_file) (sym h'),
            ap (λ q. q.1.socket_open) (sym h'),
            ap (λ q. q.1.socket_file) (sym h'),
          )
      | inr no' ↦ let h' = rw no' at h in cc
    ]

    write_pid_file-world :
        (b : Bool) (r r1 : Run W) {m : Result (Unit {0})}
        → write_pid_file b r ≡ (m, r1)
        → r1.world ≡ r.world
    unfolding write_pid_file
    write_pid_file-world true r r1 h = ap (λ q. q.1.world) (sym h)
    write_pid_file-world false r r1 h = ap (λ q. q.1.world) (sym h)

    bind-world :
        (b : Bool) (r r1 : Run W) {m : Result (Unit {0})} → bind b r ≡ (m, r1) → r1.world ≡ r.world
    bind-world b r r1 h = elim (Bool-cases (not r.socket_file && b)) [
      | inl yes' ↦ let h' = rw yes' at h in ap (λ q. q.1.world) (sym h')
      | inr no' ↦ let h' = rw no' at h in ap (λ q. q.1.world) (sym h')
    ]

    start_processes-IsAbandoned :
        (ps : List ℕ) (r r1 : Run W) {e : Exception}
        → start_processes rt ps r ≡ (raise e, r1)
        → IsAbandoned rt ps r r1
    unfolding start_processes
    start_processes-IsAbandoned [] r r1 h = cc
    start_processes-IsAbandoned (p ∷ ps) r r1 h = elim (Bool-cases (rt.spawns p)) [
      | inl started ↦
          let rest =
            start_processes-IsAbandoned ps (on_system (rt.spawn p) r) r1 (rw started at h) in
          record {
            before = p ∷ rest.before;
            remaining = rest.remaining;
            failed = rest.failed;
            is_split = ap (λ l. p ∷ l) rest.is_split;
            starts = (started, rest.starts);
            fails = rest.fails;
            system = rest.system;
            acts = rest.acts;
          }
      | inr failed ↦
          let h' = rw failed at h in
          record {
            before = [];
            remaining = ps;
            failed = p;
            is_split = refl;
            starts = tt;
            fails = failed;
            system = ap (λ q. q.1.world.system) (sym h');
            acts = ap (λ q. q.1.world.acts) (sym h');
          }
    ]

    -- The PID file is gone, the control socket is closed, and its file is gone if it can be removed.
    abbrev pub AreRemoved : Run W → Type 0
    AreRemoved r =
        (r.pid_file ≡ false)
        × (r.socket_open ≡ false)
        × ((rt.unlinks_socket && r.socket_file) ≡ false)

    abbrev IsCleanedUp : List ℕ → Finish W → Type 0
    IsCleanedUp ps (raised e r) = AllGone os ps r
    IsCleanedUp ps (finished r) = AllGone os ps r × AreRemoved r
    IsCleanedUp ps (in_loop g) = Unit

    closed : List ℕ → Run W → Run W
    unfolding delete_control_socket_file
    closed ps r =
        delete_control_socket_file rt.unlinks_socket
          (record (join_processes rt ps r) { socket_open = false })

    removed-IsCleanedUp :
        (ps : List ℕ) (r : Run W) (m : Result (Unit {0}) × Run W)
        → AllGone os ps r
        → r.socket_open ≡ false
        → (rt.unlinks_socket && r.socket_file) ≡ false
        → delete_pid_file rt.removes_pid r ≡ m
        → IsCleanedUp ps (m then (λ r'. finished r'))
    removed-IsCleanedUp ps r (raise e, r1) gone closed' unlinked h =
        AllGone-same ps r r1 (delete_pid_file-world rt.removes_pid r r1 h) gone
    removed-IsCleanedUp ps r (ok u, r1) gone closed' unlinked h =
        let (no_pid, same, same_file) = delete_pid_file-gone rt.removes_pid r r1 h in
        (
          AllGone-same ps r r1 (delete_pid_file-world rt.removes_pid r r1 h) gone,
          (no_pid, same ∙ closed', ap (λ b. rt.unlinks_socket && b) same_file ∙ unlinked),
        )

    clean_up-IsCleanedUp :
        (ps : List ℕ) (r : Run W) → Joins os rt → IsCleanedUp ps (clean_up os rt ps r)
    unfolding clean_up closed
    clean_up-IsCleanedUp ps r j =
        let joined = join_processes-AllGone ps r j in
        removed-IsCleanedUp ps (closed ps r) _
          (AllGone-same ps (join_processes rt ps r) (closed ps r) refl joined) refl (ground arith)
          refl

    -- What is left when start ends: nothing was started; or a process could not be started; or all
    -- processes have ended. If it returns, they have, and its files are gone.
    abbrev pub IsLeft : List ℕ → Run W → Finish W → Type 0
    IsLeft ps r (raised e r') = (r'.world ≡ r.world) ⊎ (IsAbandoned rt ps r r' ⊎ AllGone os ps r')
    IsLeft ps r (finished r') = AllGone os ps r' × AreRemoved r'
    IsLeft ps r (in_loop g) = Unit

    cleaned-IsLeft : (ps : List ℕ) (r : Run W) (f : Finish W) → IsCleanedUp ps f → IsLeft ps r f
    cleaned-IsLeft ps r (raised e r') h = inr (inr h)
    cleaned-IsLeft ps r (finished r') h = h
    cleaned-IsLeft ps r (in_loop g) h = tt

    after_loop-IsLeft :
        (ps : List ℕ) (r r1 : Run W) (s : Step os)
        → Joins os rt
        → IsLeft ps r (after_loop os rt ps r1 s)
    after_loop-IsLeft ps r r1 (returned w) j =
        cleaned-IsLeft ps r _ (clean_up-IsCleanedUp ps (record r1 { world = w }) j)
    after_loop-IsLeft ps r r1 (goes_on g) j = tt

    started-IsLeft :
        (ps : List ℕ) (r : Run W) (next : Run W → Step os) (m : Result (Unit {0}) × Run W)
        → Joins os rt
        → start_processes rt ps r ≡ m
        → IsLeft ps r (m then (λ r1. after_loop os rt ps r1 (next r1)))
    started-IsLeft ps r next (raise e, r1) j h = inr (inl (start_processes-IsAbandoned ps r r1 h))
    started-IsLeft ps r next (ok u, r1) j h = after_loop-IsLeft ps r r1 (next r1) j

    same_world-IsLeft :
        (ps : List ℕ) (r r1 : Run W) (f : Finish W)
        → r1.world ≡ r.world
        → IsLeft ps r1 f
        → IsLeft ps r f
    same_world-IsLeft ps r r1 (raised e r') same (inl h) = inl (h ∙ same)
    same_world-IsLeft ps r r1 (raised e r') same (inr (inl failed)) = inr (
        inl (record {
          before = failed.before;
          remaining = failed.remaining;
          failed = failed.failed;
          is_split = failed.is_split;
          starts = failed.starts;
          fails = failed.fails;
          system = failed.system ∙ ap (λ w. spawned rt failed.before w.system) same;
          acts = failed.acts ∙ ap (λ w. w.acts) same;
        }))
    same_world-IsLeft ps r r1 (raised e r') same (inr (inr h)) = inr (inr h)
    same_world-IsLeft ps r r1 (finished r') same h = h
    same_world-IsLeft ps r r1 (in_loop g) same h = tt

    -- A step that starts no process, and what comes after it.
    step-IsLeft :
        (ps : List ℕ) (r : Run W) (m : Result (Unit {0}) × Run W) (next : Run W → Finish W)
        → m.1.world ≡ r.world
        → ((r1 : Run W) → IsLeft ps r1 (next r1))
        → IsLeft ps r (m then next)
    step-IsLeft ps r (raise e, r1) next same h = inl same
    step-IsLeft ps r (ok u, r1) next same h = same_world-IsLeft ps r r1 (next r1) same (h r1)

    run_children-IsLeft :
        (num_probers now : ℕ) (ticks : List Tick) (r : Run W)
        → Joins os rt
        → IsLeft (from 0 (suc num_probers)) r (run_children os rt num_probers now ticks r)
    unfolding run_children
    run_children-IsLeft num_probers now ticks r j =
        started-IsLeft (from 0 (suc num_probers)) r _ _ j refl

    init_control_socket-world : (r : Run W) → (init_control_socket rt r).1.world ≡ r.world
    unfolding init_control_socket delete_control_socket_file
    init_control_socket-world r = bind-world rt.binds _ _ refl

    -- However start ends, if a join leaves its process ended and brings no ended process back: if it
    -- raises, then no child process was started; or the start of one raised, those before it were
    -- started, and nothing else was done to any process; or all have ended. If it returns, all have
    -- ended, the PID file is gone, and the control socket is closed, its file gone if it could be
    -- removed.
    pub start_run-IsLeft :
        (num_probers now : ℕ) (ticks : List Tick) (r : Run W)
        → Joins os rt
        → IsLeft (from 0 (suc num_probers)) r (start_run os rt num_probers now ticks r)
    unfolding start_run
    start_run-IsLeft num_probers now ticks r j =
        let ps = from 0 (suc num_probers) in
        step-IsLeft ps r (rt.logging, r) _ refl
          (λ r1.
            step-IsLeft ps r1 (rt.tracker, r1) _ refl
              (λ r2.
                step-IsLeft ps r2 (init_control_socket rt r2) _ (init_control_socket-world r2)
                  (λ r3.
                    step-IsLeft ps r3 (write_pid_file rt.writes_pid r3) _
                      (write_pid_file-world rt.writes_pid r3 _ refl)
                      (λ r4. run_children-IsLeft num_probers now ticks r4 j))))
