-- ===== src/Guardian/Counted.antt =====
-- What a pass of the control loop does before its health check, and what the count of it says.
use polaris_gslb.Prelude.{
  ℕ, ◌≤◌, ◌<◌, ◌≡◌, inl, inr, arith, Bool, true, false, Option, none, some, List, [], ◌∷◌, eqb,
  length, String, Bool-cases,
}
use polaris_gslb.Prelude.Eq.{◌==◌, string_eq}
use polaris_gslb.Guardian.{Os, replied, World, do_act, looked}
use polaris_gslb.Guardian.Ending.{
  StaysGone, IsAmong, Later, Later-refl, Later-trans, IsGone, looked-Later,
  terminate_child_procs-Later,
}
use polaris_gslb.Guardian.Loop.{
  Connection, run_command, process_control_connection, count_alive, on_sigterm,
}

module _ {ℓ} {W : Type ℓ} (os : Os W) (stays : StaysGone os) (p : ℕ) where
  replied-Later : (text : String) (w : World W) → Later os p w (do_act (replied text) (λ s. s) w)
  replied-Later text w = record {
    gone = λ h. h;
    more_kills = omega arith;
    more_terms = omega arith;
  }

  run_command-Later :
      (ps : List ℕ) (cmd : String) (sends : Bool) (w : World W)
      → Later os p w (run_command os ps cmd sends w)
  unfolding run_command
  run_command-Later ps cmd true w = elim (Bool-cases (cmd == "ping")) [
    | inl ping ↦ rw ping (replied-Later "pong" w)
    | inr other ↦ elim (Bool-cases (cmd == "stop")) [
      | inl stop ↦
          rw (other, stop)
            (Later-trans os p (replied-Later "ok" w) (terminate_child_procs-Later os p stays ps _))
      | inr unknown ↦ rw (other, unknown) (Later-refl os p w)
    ]
  ]
  run_command-Later ps cmd false w = elim (Bool-cases (cmd == "ping")) [
    | inl ping ↦ rw ping (Later-refl os p w)
    | inr other ↦ elim (Bool-cases (cmd == "stop")) [
      | inl stop ↦ rw (other, stop) (Later-refl os p w)
      | inr unknown ↦ rw (other, unknown) (Later-refl os p w)
    ]
  ]

  received-Later :
      (ps : List ℕ) (sends : Bool) (received : Option String) (w : World W)
      → Later os p w (
          process_control_connection os ps (some (record { received = received; sends = sends })) w)
  unfolding process_control_connection
  received-Later ps sends none w = Later-refl os p w
  received-Later ps sends (some cmd) w = run_command-Later ps cmd sends w

  pub process_control_connection-Later :
      (ps : List ℕ) (c : Option Connection) (w : World W)
      → Later os p w (process_control_connection os ps c w)
  unfolding process_control_connection
  process_control_connection-Later ps none w = Later-refl os p w
  process_control_connection-Later ps (some c) w = received-Later ps c.sends c.received w

  pub on_sigterm-Later :
      (b : Bool) (ps : List ℕ) (w : World W) → Later os p w (on_sigterm os b ps w)
  unfolding on_sigterm
  on_sigterm-Later true ps w = terminate_child_procs-Later os p stays ps w
  on_sigterm-Later false ps w = Later-refl os p w

  count_alive-Later : (ps : List ℕ) (w : World W) → Later os p w (count_alive os ps w).1
  unfolding count_alive
  count_alive-Later [] w = Later-refl os p w
  count_alive-Later (q ∷ ps) w =
      Later-trans os p (looked-Later os p stays w) (count_alive-Later ps (looked os w))

  -- If none is counted, each has ended.
  pub count_alive-IsGone :
      (ps : List ℕ) (w : World W)
      → (count_alive os ps w).0 ≡ 0
      → IsAmong p ps
      → IsGone os p (count_alive os ps w).1
  unfolding count_alive
  count_alive-IsGone [] w none' among = cc
  count_alive-IsGone (q ∷ ps) w none' among = elim (Bool-cases (os.is_alive q w.system)) [
    | inl alive ↦ absurd (omega (arith, rw alive at none'))
    | inr gone ↦ elim (Bool-cases (eqb p q)) [
      | inl same ↦
          let p_is_q : p ≡ q = ground arith in (count_alive-Later (q ∷ ps) w).gone (rw p_is_q gone)
      | inr other ↦ count_alive-IsGone ps (looked os w) (rw gone at none') (rw other at among)
    ]
  ]

  count_alive-length : (ps : List ℕ) (w : World W) → (count_alive os ps w).0 ≤ length ps
  unfolding count_alive
  count_alive-length [] w = omega arith
  count_alive-length (q ∷ ps) w = ground (arith, count_alive-length ps (looked os w))

  -- A process that has ended is not counted.
  pub count_alive-below :
      (ps : List ℕ) (w : World W)
      → IsAmong p ps
      → IsGone os p w
      → (count_alive os ps w).0 < length ps
  unfolding count_alive
  count_alive-below [] w among gone = cc
  count_alive-below (q ∷ ps) w among gone = elim (Bool-cases (eqb p q)) [
    | inl same ↦
        let p_is_q : p ≡ q = ground arith in
        let gone' : os.is_alive q w.system ≡ false = rw p_is_q at gone in
        rw gone' (omega (arith, count_alive-length ps (looked os w)))
    | inr other ↦
        let rest =
          count_alive-below ps (looked os w) (rw other at among)
            ((looked-Later os p stays w).gone gone) in
        ground (arith, rest)
  ]
