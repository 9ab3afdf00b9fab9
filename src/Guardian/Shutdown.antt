-- ===== src/Guardian/Shutdown.antt =====
-- When the control loop returns, and in what state of the processes.
use polaris_gslb.Prelude.{
  ℕ, ◌<◌, ◌≡◌, refl, sym, ap, ◌∙◌, subst, inl, inr, arith, false, List, [], ◌∷◌, eqb, leb, length,
  Bool-cases,
}
use polaris_gslb.Prelude.Eq.{string_eq}
use polaris_gslb.Guardian.{Os, World, terminate_child_procs}
use polaris_gslb.Guardian.Ending.{
  StaysGone, IsAmong, Later-trans, IsGone, IsEnded, terminate_child_procs-IsEnded,
}
use polaris_gslb.Guardian.Loop.{
  Tick, Guardian, process_control_connection, push_heartbeat, on_sigterm, Step, returned, goes_on,
  health_check, control_pass, and_on, control_loop,
}
use polaris_gslb.Guardian.Counted.{
  process_control_connection-Later, on_sigterm-Later, count_alive-IsGone, count_alive-below,
}

module _ {ℓ} {W : Type ℓ} (os : Os W) (stays : StaysGone os) (p : ℕ) where
  health_check-IsEnded :
      (now : ℕ) (g : Guardian W) (alive : ℕ) (w w' : World W)
      → IsAmong p g.processes
      → (alive ≡ 0 → IsGone os p w)
      → health_check os now g (alive, w) ≡ returned w'
      → IsEnded os p w'
  unfolding health_check
  health_check-IsEnded now g alive w w' among none_alive h = elim (Bool-cases (eqb alive 0)) [
    | inl none' ↦
        let same : returned w ≡ returned w' = rw none' at h in
        let same' : w ≡ w' = cc same in inl (subst (IsGone os p) same' (none_alive (ground arith)))
    | inr some' ↦ elim (Bool-cases (eqb alive g.procs_started)) [
      | inl all ↦ let h' = rw (some', all) at h in cc
      | inr few ↦
          let same : returned (terminate_child_procs os g.processes w) ≡ returned w' =
            rw (some', few) at h in
          let same' : terminate_child_procs os g.processes w ≡ w' = cc same in
          subst (IsEnded os p) same' (terminate_child_procs-IsEnded os p stays g.processes w among)
    ]
  ]

  -- What the loop does before it counts.
  abbrev before_check : Tick → Guardian W → World W
  before_check tick g =
      process_control_connection os g.processes tick.accepts
        (on_sigterm os tick.sigterm g.processes g.world)

  control_pass-IsEnded :
      (tick : Tick) (g : Guardian W) (w' : World W)
      → IsAmong p g.processes
      → control_pass os tick g ≡ returned w'
      → IsEnded os p w'
  unfolding control_pass
  control_pass-IsEnded tick g w' among h =
      health_check-IsEnded tick.now g _ _ w' among
        (λ none'. count_alive-IsGone os stays p g.processes (before_check tick g) none' among) h

  push_heartbeat-processes :
      (now : ℕ) (g : Guardian W) → (push_heartbeat os now g).processes ≡ g.processes
  unfolding push_heartbeat
  push_heartbeat-processes now g = elim (Bool-cases (leb g.t_due now)) [
    | inl due ↦ rw due refl
    | inr early ↦ rw early refl
  ]

  health_check-processes :
      (now : ℕ) (g g' : Guardian W) (alive : ℕ) (w : World W)
      → health_check os now g (alive, w) ≡ goes_on g'
      → g'.processes ≡ g.processes
  unfolding health_check
  health_check-processes now g g' alive w h = elim (Bool-cases (eqb alive 0)) [
    | inl none' ↦ let h' = rw none' at h in cc
    | inr some' ↦ elim (Bool-cases (eqb alive g.procs_started)) [
      | inl all ↦
          let next : Guardian W = record g { world = w } in
          let same : goes_on (push_heartbeat os now next) ≡ goes_on g' = rw (some', all) at h in
          let same' : push_heartbeat os now next ≡ g' = cc same in
          ap (λ x. x.processes) (sym same') ∙ push_heartbeat-processes now next
      | inr few ↦ let h' = rw (some', few) at h in cc
    ]
  ]

  control_loop-step :
      (tick : Tick) (ticks : List Tick) (g : Guardian W) (w' : World W) (r : Step os)
      → control_pass os tick g ≡ r
      → IsAmong p g.processes
      → ((g' : Guardian W)
          → IsAmong p g'.processes
          → control_loop os ticks g' ≡ returned w'
          → IsEnded os p w')
      → and_on os r (control_loop os ticks) ≡ returned w'
      → IsEnded os p w'
  unfolding control_pass
  control_loop-step tick ticks g w' (returned w) pass among ih h =
      control_pass-IsEnded tick g w' among (pass ∙ h)
  control_loop-step tick ticks g w' (goes_on g') pass among ih h =
      let same = health_check-processes tick.now g g' _ _ pass in
      ih g' (subst (IsAmong p) (sym same) among) h

  -- When the control loop returns, each process has ended or was sent SIGKILL.
  pub control_loop-IsEnded :
      (ticks : List Tick) (g : Guardian W) (w' : World W)
      → IsAmong p g.processes
      → control_loop os ticks g ≡ returned w'
      → IsEnded os p w'
  unfolding control_loop
  control_loop-IsEnded [] g w' among h = cc
  control_loop-IsEnded (tick ∷ ticks) g w' among h =
      control_loop-step tick ticks g w' (control_pass os tick g) refl among
        (λ g' among' h'. control_loop-IsEnded ticks g' w' among' h') h

  health_check-returns :
      (now : ℕ) (g : Guardian W) (alive : ℕ) (w : World W)
      → alive < g.procs_started
      → (w' : World W) × (health_check os now g (alive, w) ≡ returned w')
  unfolding health_check
  health_check-returns now g alive w few = elim (Bool-cases (eqb alive 0)) [
    | inl none' ↦ (w, rw none' refl)
    | inr some' ↦
        let few' : eqb alive g.procs_started ≡ false = ground arith in
        (terminate_child_procs os g.processes w, rw (some', few') refl)
  ]

  -- A pass in which a process has ended is the last one.
  control_pass-returns :
      (tick : Tick) (g : Guardian W)
      → length g.processes ≡ g.procs_started
      → IsAmong p g.processes
      → IsGone os p g.world
      → (w' : World W) × (control_pass os tick g ≡ returned w')
  unfolding control_pass
  control_pass-returns tick g all_started among gone =
      let later =
        Later-trans os p (on_sigterm-Later os stays p tick.sigterm g.processes g.world)
          (process_control_connection-Later os stays p g.processes tick.accepts _) in
      let few =
        count_alive-below os stays p g.processes (before_check tick g) among (later.gone gone) in
      health_check-returns tick.now g _ _ (omega (arith, all_started, few))

abbrev pub AllEnded {ℓ} : {W : Type ℓ} → Os W → List ℕ → World W → Type 0
AllEnded os [] w = Unit
AllEnded os (p ∷ ps) w = IsEnded os p w × AllEnded os ps w

AllEnded-every {ℓ} :
    {W : Type ℓ} (os : Os W) (ps : List ℕ) (w : World W)
    → ((q : ℕ) → IsAmong q ps → IsEnded os q w)
    → AllEnded os ps w
AllEnded-every os [] w h = tt
AllEnded-every os (p ∷ ps) w h =
    (h p (ground arith), AllEnded-every os ps w (λ q among. h q (ground arith)))

-- Once a child process has ended, the control loop returns in its next pass, whatever recv on the
-- control socket returns or raises, and each process has then ended or was sent SIGKILL; if all processes were started
-- and one that has ended does not come back.
pub control_loop-shuts_down {ℓ} :
    {W : Type ℓ} (os : Os W) (p : ℕ) (tick : Tick) (ticks : List Tick) (g : Guardian W)
    → StaysGone os
    → length g.processes ≡ g.procs_started
    → IsAmong p g.processes
    → IsGone os p g.world
    → (w' : World W) × (control_loop os (tick ∷ ticks) g ≡ returned w') × AllEnded os g.processes w'
unfolding control_loop
control_loop-shuts_down os p tick ticks g stays all_started among gone =
    let (w', h) = control_pass-returns os stays p tick g all_started among gone in
    (
      w',
      rw h refl,
      AllEnded-every os g.processes w'
          (λ q among'. control_pass-IsEnded os stays q tick g w' among' h),
    )
