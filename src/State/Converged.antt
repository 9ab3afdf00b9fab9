-- ===== src/State/Converged.antt =====
-- What `health_converged` reports, and which members it forgets.
use polaris_gslb.Prelude.{
  ℕ, ◌≡◌, refl, sym, ap, ◌∙◌, String, Bool, true, false, ◌&&◌, Option, none, some, List, [], ◌∷◌,
  ◌++◌, arith, every, if◌then◌else◌, Bool-cases, inl, inr, subst,
}
use polaris_gslb.Prelude.Dict.{Dict, is_some}
use polaris_gslb.Pool.{Member, Pool}
use polaris_gslb.State.{State, member_at, drop_determined, is_nil, health_converged}

abbrev status_known : Option Member → Bool
status_known none = false
status_known (some m) = is_some m.status

-- The member at a position has a status.
abbrev pub is_determined : Dict String Pool → ℕ → Bool
is_determined pools i = status_known (member_at pools i)

-- What a list splits into: members that have a status, and a rest that is empty or starts with one
-- that has none.
pub record IsSplit (known : ℕ → Bool) (all rest : List ℕ) : Type 0 where
  pub dropped : List ℕ
  pub split : all ≡ dropped ++ rest
  pub dropped_known : every known dropped ≡ true
  pub stops : is_nil rest ≡ every known rest

drop_determined-cons :
    (pools : Dict String Pool) (i : ℕ) (l : List ℕ)
    → drop_determined pools (i ∷ l)
      ≡ (if is_determined pools i then drop_determined pools l else i ∷ l)
unfolding drop_determined
drop_determined-cons pools i l = ground arith

drop_determined-IsSplit :
    (pools : Dict String Pool) (l : List ℕ)
    → IsSplit (is_determined pools) l (drop_determined pools l)
unfolding drop_determined
drop_determined-IsSplit pools [] = record {
  dropped = [];
  split = refl;
  dropped_known = refl;
  stops = refl;
}
drop_determined-IsSplit pools (i ∷ l) =
    let ih = drop_determined-IsSplit pools l in
    elim (Bool-cases (is_determined pools i)) [
      | inl known ↦
          subst (IsSplit (is_determined pools) (i ∷ l))
            (sym (drop_determined-cons pools i l ∙ rw known refl))
            (record {
              dropped = i ∷ ih.dropped;
              split = ap (λ m. i ∷ m) ih.split;
              dropped_known = ground (arith, known, ih.dropped_known);
              stops = ih.stops;
            })
      | inr unknown ↦
          subst (IsSplit (is_determined pools) (i ∷ l))
            (sym (drop_determined-cons pools i l ∙ rw unknown refl))
            (record {
              dropped = [];
              split = refl;
              dropped_known = refl;
              stops = ground (arith, unknown);
            })
    ]

every-append : (q : ℕ → Bool) (xs ys : List ℕ) → every q (xs ++ ys) ≡ every q xs && every q ys
every-append q [] ys = refl
every-append q (x ∷ xs) ys = ground (arith, every-append q xs ys)

-- `health_converged` is True exactly if every member on the list of the undetermined has a status.
-- What it takes from the list is members in front that have one, and it changes nothing else.
pub health_converged-every :
    (s : State)
    → ((health_converged s).1 ≡ every (is_determined s.pools) s.status_undetermined)
      × IsSplit
          (is_determined s.pools)
          s.status_undetermined
          (health_converged s).0.status_undetermined
      × ((health_converged s).0.pools ≡ s.pools)
      × ((health_converged s).0.globalnames ≡ s.globalnames)
      × ((health_converged s).0.pq ≡ s.pq)
unfolding health_converged
health_converged-every s =
    let i = drop_determined-IsSplit s.pools s.status_undetermined in
    let known = is_determined s.pools in
    (
      i.stops
          ∙ sym (
              ap (every known) i.split
              ∙ (every-append known i.dropped _
                  ∙ ap (λ b. b && every known (drop_determined s.pools s.status_undetermined))
                      i.dropped_known)),
      i,
      refl,
      refl,
      refl,
    )
