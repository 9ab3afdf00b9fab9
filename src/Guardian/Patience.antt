-- ===== src/Guardian/Patience.antt =====
-- SIGKILL is the last resort.
use polaris_gslb.Prelude.{
  ℕ, zero, suc, ◌+◌, ◌≤◌, ◌<◌, ◌≡◌, refl, inl, inr, arith, ap, ◌∙◌, true, false, List, [], ◌∷◌, eqb,
  Bool-cases,
}
use polaris_gslb.Guardian.{
  Os, terminated, killed, World, do_act, max_attempts, looked, terminate_alive, find_alive,
  kill_alive, slept, one_attempt, attempt, terminate_child_procs,
}
use polaris_gslb.Guardian.Ending.{
  StaysGone, terms, kills, IsAmong, Later, Later-trans, looked-Later, slept-Later,
  terminate_alive-Later, find_alive-Later, killed-Later, kill_alive-Later,
}

module _ {ℓ} {W : Type ℓ} (os : Os W) (stays : StaysGone os) (p : ℕ) where
  abbrev IsAlive : World W → Type 0
  IsAlive w = os.is_alive p w.system ≡ true

  IsAlive-Later : {w w' : World W} → Later os p w w' → IsAlive w' → IsAlive w
  IsAlive-Later {w} h alive = elim (Bool-cases (os.is_alive p w.system)) [
    | inl now ↦ now
    | inr gone ↦ let gone' = h.gone gone in cc
  ]

  terms_other :
      (q : ℕ) (ps : List ℕ) (w : World W)
      → eqb p q ≡ false
      → ((w' : World W)
          → IsAmong p ps
          → IsAlive (terminate_alive os ps w')
          → terms p w'.acts < terms p (terminate_alive os ps w').acts)
      → IsAmong p ps
      → IsAlive (terminate_alive os (q ∷ ps) w)
      → terms p w.acts < terms p (terminate_alive os (q ∷ ps) w).acts
  unfolding terminate_alive
  terms_other q ps w other ih among alive = elim (Bool-cases (os.is_alive q w.system)) [
    | inl first ↦
        let next = do_act (terminated q) (os.terminate q) (looked os w) in
        let more = ih next among (rw (first, terminate_alive) at alive) in
        rw (first, terminate_alive) (omega (arith, rw other at more))
    | inr first ↦
        rw (first, terminate_alive) (ih (looked os w) among (rw (first, terminate_alive) at alive))
  ]

  -- A process that is still alive after a round of terminate() got one.
  terminate_alive-terms :
      (ps : List ℕ) (w : World W)
      → IsAmong p ps
      → IsAlive (terminate_alive os ps w)
      → terms p w.acts < terms p (terminate_alive os ps w).acts
  unfolding terminate_alive
  terminate_alive-terms [] w among alive = cc
  terminate_alive-terms (q ∷ ps) w among alive = elim (Bool-cases (eqb p q)) [
    | inl same ↦
        let p_is_q : p ≡ q = ground arith in
        let first = IsAlive-Later (terminate_alive-Later os p stays (q ∷ ps) w) alive in
        let first' : os.is_alive q w.system ≡ true = rw p_is_q at first in
        let next = do_act (terminated q) (os.terminate q) (looked os w) in
        let later = (terminate_alive-Later os p stays ps next).more_terms in
        rw (first', terminate_alive) (omega (arith, rw same at later))
    | inr other ↦ terms_other q ps w other (terminate_alive-terms ps) (rw other at among) alive
  ]

  find_alive-acts : (ps : List ℕ) (w : World W) → (find_alive os ps w).1.acts ≡ w.acts
  unfolding find_alive
  find_alive-acts [] w = refl
  find_alive-acts (q ∷ ps) w = elim (Bool-cases (os.is_alive q w.system)) [
    | inl alive ↦ rw alive refl
    | inr gone ↦ rw gone (find_alive-acts ps (looked os w))
  ]

  terminate_alive-kills :
      (ps : List ℕ) (w : World W) → kills p (terminate_alive os ps w).acts ≡ kills p w.acts
  unfolding terminate_alive
  terminate_alive-kills [] w = refl
  terminate_alive-kills (q ∷ ps) w = elim (Bool-cases (os.is_alive q w.system)) [
    | inl alive ↦ rw (alive, terminate_alive) (terminate_alive-kills ps _)
    | inr gone ↦ rw (gone, terminate_alive) (terminate_alive-kills ps (looked os w))
  ]

  kill_alive-IsAlive :
      (ps : List ℕ) (w : World W) → kills p w.acts < kills p (kill_alive os ps w).acts → IsAlive w
  unfolding kill_alive
  kill_alive-IsAlive [] w more = absurd (omega arith)
  kill_alive-IsAlive (q ∷ ps) w more = elim (Bool-cases (os.is_alive q w.system)) [
    | inl alive ↦ elim (Bool-cases (eqb p q)) [
      | inl same ↦ let p_is_q : p ≡ q = ground arith in rw p_is_q alive
      | inr other ↦
          let next = do_act (killed q) (os.kill q) (looked os w) in
          let same_kills : kills p next.acts ≡ kills p w.acts = rw other (omega arith) in
          IsAlive-Later
            (Later-trans os p (looked-Later os p stays w) (killed-Later os p stays q (looked os w)))
            (kill_alive-IsAlive ps next (omega (arith, same_kills, rw (alive, kill_alive) at more)))
    ]
    | inr gone ↦
        IsAlive-Later (looked-Later os p stays w)
          (kill_alive-IsAlive ps (looked os w) (rw (gone, kill_alive) at more))
  ]

  one_attempt-kills :
      (ps : List ℕ) (w : World W) → kills p (one_attempt os ps w).1.acts ≡ kills p w.acts
  one_attempt-kills ps w =
      ap (kills p) (find_alive-acts ps (slept os (terminate_alive os ps w)))
      ∙ terminate_alive-kills ps w

  -- A process that is alive after an attempt was alive before, and got a terminate().
  one_attempt-terms :
      (ps : List ℕ) (w : World W)
      → IsAmong p ps
      → IsAlive (one_attempt os ps w).1
      → IsAlive w × (terms p w.acts < terms p (one_attempt os ps w).1.acts)
  one_attempt-terms ps w among alive =
      let w' = terminate_alive os ps w in
      let rest =
        Later-trans os p (slept-Later os p stays w')
          (find_alive-Later os p stays ps (slept os w')) in
      let alive' = IsAlive-Later rest alive in
      (
        IsAlive-Later (terminate_alive-Later os p stays ps w) alive',
        omega (arith, terminate_alive-terms ps w among alive', rest.more_terms),
      )

  attempt-patience :
      (n : ℕ) (ps : List ℕ) (w : World W)
      → IsAmong p ps
      → kills p w.acts < kills p (attempt os n ps w).acts
      → IsAlive w × (terms p w.acts + n ≤ terms p (attempt os n ps w).acts)
  unfolding attempt
  attempt-patience zero ps w among more =
      (kill_alive-IsAlive ps w more, omega (arith, (kill_alive-Later os p stays ps w).more_terms))
  attempt-patience (suc n) ps w among more = elim (Bool-cases (one_attempt os ps w).0) [
    | inl runs ↦
        let w' = (one_attempt os ps w).1 in
        let (alive, sent) =
          attempt-patience n ps w' among
            (omega (arith, one_attempt-kills ps w, rw (runs, attempt) at more)) in
        let (alive', sent') = one_attempt-terms ps w among alive in
        (alive', rw (runs, attempt) (omega (arith, sent, sent')))
    | inr over ↦ absurd (omega (arith, one_attempt-kills ps w, rw (over, attempt) at more))
  ]

  -- A process that is sent SIGKILL was sent SIGTERM in each of the five attempts before, if a process
  -- that has ended does not come back.
  pub terminate_child_procs-patience :
      (ps : List ℕ) (w : World W)
      → IsAmong p ps
      → kills p w.acts < kills p (terminate_child_procs os ps w).acts
      → terms p w.acts + 5 ≤ terms p (terminate_child_procs os ps w).acts
  unfolding terminate_child_procs
  terminate_child_procs-patience ps w among more = (attempt-patience max_attempts ps w among more).1
