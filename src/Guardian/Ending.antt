-- ===== src/Guardian/Ending.antt =====
-- How the child processes end.
use polaris_gslb.Prelude.{
  ℕ, zero, suc, ◌+◌, ◌≤◌, ◌<◌, ◌≡◌, ◌⊎◌, inl, inr, arith, Bool, true, false, List, [], ◌∷◌, exists,
  eqb, Bool-cases,
}
use polaris_gslb.Guardian.{
  Os, Act, terminated, killed, World, do_act, max_attempts, looked, terminate_alive, find_alive,
  kill_alive, slept, one_attempt, attempt, terminate_child_procs,
}

-- A process that has ended does not come back.
pub record StaysGone {ℓ} {W : Type ℓ} (os : Os W) : Type ℓ where
  pub terminate :
      (p q : ℕ) (w : W) → os.is_alive p w ≡ false → os.is_alive p (os.terminate q w) ≡ false
  pub kill : (p q : ℕ) (w : W) → os.is_alive p w ≡ false → os.is_alive p (os.kill q w) ≡ false
  pub sleep : (p : ℕ) (w : W) → os.is_alive p w ≡ false → os.is_alive p (os.sleep w) ≡ false
  pub after : (p : ℕ) (w : W) → os.is_alive p w ≡ false → os.is_alive p (os.after w) ≡ false

abbrev pub one_when : Bool → ℕ
one_when true = 1
one_when false = 0

-- How often a process got SIGTERM, and SIGKILL.
abbrev pub terms : ℕ → List Act → ℕ
terms p [] = 0
terms p (terminated q ∷ acts) = one_when (eqb p q) + terms p acts
terms p (act ∷ acts) = terms p acts

abbrev pub kills : ℕ → List Act → ℕ
kills p [] = 0
kills p (killed q ∷ acts) = one_when (eqb p q) + kills p acts
kills p (act ∷ acts) = kills p acts

abbrev pub IsAmong : ℕ → List ℕ → Type 0
IsAmong p ps = exists (λ q. eqb p q) ps ≡ true

module _ {ℓ} {W : Type ℓ} (os : Os W) (p : ℕ) where
  abbrev pub IsGone : World W → Type 0
  IsGone w = os.is_alive p w.system ≡ false

  -- It has ended, or was sent SIGKILL.
  abbrev pub IsEnded : World W → Type 0
  IsEnded w = IsGone w ⊎ (0 < kills p w.acts)

  -- From `w` to a later `w'`: a process that has ended has ended, and signals were only added.
  pub record Later (w w' : World W) : Type 0 where
    pub gone : IsGone w → IsGone w'
    pub more_kills : kills p w.acts ≤ kills p w'.acts
    pub more_terms : terms p w.acts ≤ terms p w'.acts

  pub Later-refl : (w : World W) → Later w w
  Later-refl w = record { gone = λ h. h; more_kills = omega arith; more_terms = omega arith }

  pub Later-trans : {w w' w'' : World W} → Later w w' → Later w' w'' → Later w w''
  Later-trans a b = record {
    gone = λ h. b.gone (a.gone h);
    more_kills = omega (arith, a.more_kills, b.more_kills);
    more_terms = omega (arith, a.more_terms, b.more_terms);
  }

  pub IsEnded-Later : {w w' : World W} → Later w w' → IsEnded w → IsEnded w'
  IsEnded-Later h (inl gone) = inl (h.gone gone)
  IsEnded-Later h (inr was_killed) = inr (omega (arith, was_killed, h.more_kills))

  module _ (stays : StaysGone os) where
    pub looked-Later : (w : World W) → Later w (looked os w)
    looked-Later w = record {
      gone = stays.after p w.system;
      more_kills = omega arith;
      more_terms = omega arith;
    }

    pub slept-Later : (w : World W) → Later w (slept os w)
    slept-Later w = record {
      gone = stays.sleep p w.system;
      more_kills = omega arith;
      more_terms = omega arith;
    }

    pub terminated-Later :
        (q : ℕ) (w : World W) → Later w (do_act (terminated q) (os.terminate q) w)
    terminated-Later q w = record {
      gone = stays.terminate p q w.system;
      more_kills = omega arith;
      more_terms = omega arith;
    }

    pub killed-Later : (q : ℕ) (w : World W) → Later w (do_act (killed q) (os.kill q) w)
    killed-Later q w = record {
      gone = stays.kill p q w.system;
      more_kills = omega arith;
      more_terms = omega arith;
    }

    pub terminate_alive-Later : (ps : List ℕ) (w : World W) → Later w (terminate_alive os ps w)
    unfolding terminate_alive
    terminate_alive-Later [] w = Later-refl w
    terminate_alive-Later (q ∷ ps) w = elim (Bool-cases (os.is_alive q w.system)) [
      | inl alive ↦ rw alive (
          Later-trans (looked-Later w)
            (Later-trans (terminated-Later q (looked os w)) (terminate_alive-Later ps _)))
      | inr gone ↦ rw gone (Later-trans (looked-Later w) (terminate_alive-Later ps (looked os w)))
    ]

    pub kill_alive-Later : (ps : List ℕ) (w : World W) → Later w (kill_alive os ps w)
    unfolding kill_alive
    kill_alive-Later [] w = Later-refl w
    kill_alive-Later (q ∷ ps) w = elim (Bool-cases (os.is_alive q w.system)) [
      | inl alive ↦ rw alive (
          Later-trans (looked-Later w)
            (Later-trans (killed-Later q (looked os w)) (kill_alive-Later ps _)))
      | inr gone ↦ rw gone (Later-trans (looked-Later w) (kill_alive-Later ps (looked os w)))
    ]

    pub find_alive-Later : (ps : List ℕ) (w : World W) → Later w (find_alive os ps w).1
    unfolding find_alive
    find_alive-Later [] w = Later-refl w
    find_alive-Later (q ∷ ps) w = elim (Bool-cases (os.is_alive q w.system)) [
      | inl alive ↦ rw alive (looked-Later w)
      | inr gone ↦ rw gone (Later-trans (looked-Later w) (find_alive-Later ps (looked os w)))
    ]

    pub one_attempt-Later : (ps : List ℕ) (w : World W) → Later w (one_attempt os ps w).1
    one_attempt-Later ps w =
        Later-trans (terminate_alive-Later ps w)
          (Later-trans (slept-Later (terminate_alive os ps w)) (find_alive-Later ps _))

    pub attempt-Later : (n : ℕ) (ps : List ℕ) (w : World W) → Later w (attempt os n ps w)
    unfolding attempt
    attempt-Later zero ps w = kill_alive-Later ps w
    attempt-Later (suc n) ps w =
        let (runs, w') = one_attempt os ps w in
        elim (Bool-cases (one_attempt os ps w).0) [
          | inl runs ↦ rw runs (Later-trans (one_attempt-Later ps w) (attempt-Later n ps _))
          | inr over ↦ rw over (one_attempt-Later ps w)
        ]

    pub terminate_child_procs-Later :
        (ps : List ℕ) (w : World W) → Later w (terminate_child_procs os ps w)
    unfolding terminate_child_procs
    terminate_child_procs-Later ps w = attempt-Later max_attempts ps w

    -- When no process was found alive, all have ended.
    find_alive-IsGone :
        (ps : List ℕ) (w : World W)
        → (find_alive os ps w).0 ≡ false
        → IsAmong p ps
        → IsGone (find_alive os ps w).1
    unfolding find_alive
    find_alive-IsGone [] w none' among = cc
    find_alive-IsGone (q ∷ ps) w none' among = elim (Bool-cases (os.is_alive q w.system)) [
      | inl alive ↦ let h = rw alive at none' in cc
      | inr gone ↦
          let none'' = rw gone at none' in
          elim (Bool-cases (eqb p q)) [
            | inl same ↦
                let p_is_q : p ≡ q = ground arith in
                rw gone (
                  (Later-trans (looked-Later w) (find_alive-Later ps (looked os w))).gone
                    (rw p_is_q gone))
            | inr other ↦ rw gone (find_alive-IsGone ps (looked os w) none'' (rw other at among))
          ]
    ]

    kill_alive-IsEnded : (ps : List ℕ) (w : World W) → IsAmong p ps → IsEnded (kill_alive os ps w)
    unfolding kill_alive
    kill_alive-IsEnded [] w among = cc
    kill_alive-IsEnded (q ∷ ps) w among = elim (Bool-cases (eqb p q)) [
      | inl same ↦
          let p_is_q : p ≡ q = ground arith in
          elim (Bool-cases (os.is_alive q w.system)) [
            | inl alive ↦
                rw (alive, kill_alive)
                  (IsEnded-Later (kill_alive-Later ps (do_act (killed q) (os.kill q) (looked os w)))
                    (inr (rw same (omega arith))))
            | inr gone ↦
                rw (gone, kill_alive)
                  (IsEnded-Later (kill_alive-Later ps (looked os w))
                    (inl ((looked-Later w).gone (rw p_is_q gone))))
          ]
      | inr other ↦ kill_alive-IsEnded ps _ (rw other at among)
    ]

    attempt-IsEnded :
        (n : ℕ) (ps : List ℕ) (w : World W) → IsAmong p ps → IsEnded (attempt os n ps w)
    unfolding attempt
    attempt-IsEnded zero ps w among = kill_alive-IsEnded ps w among
    attempt-IsEnded (suc n) ps w among = elim (Bool-cases (one_attempt os ps w).0) [
      | inl runs ↦ rw runs (attempt-IsEnded n ps _ among)
      | inr over ↦
          rw over (inl (find_alive-IsGone ps (slept os (terminate_alive os ps w)) over among))
    ]

    -- When the guardian has terminated its child processes, each of them has ended or was sent SIGKILL,
    -- if a process that has ended does not come back.
    pub terminate_child_procs-IsEnded :
        (ps : List ℕ) (w : World W) → IsAmong p ps → IsEnded (terminate_child_procs os ps w)
    unfolding terminate_child_procs
    terminate_child_procs-IsEnded ps w among = attempt-IsEnded max_attempts ps w among
