-- ===== src/Tracker/Remaining.antt =====
-- The retries of the members stay set.
use polaris_gslb.Prelude.{
  ℕ, zero, suc, ◌≡◌, refl, Bool, true, false, Option, none, some, List, [], ◌∷◌, ◌++◌, get_elem?,
  change_at, every, arith, Bool-cases, inl, inr,
}
use polaris_gslb.Prelude.Dict.{is_some}
use polaris_gslb.Prelude.Result.{Result, ok, raise}
use polaris_gslb.Pool.{Member, is_up}
use polaris_gslb.Prober.{Probe}
use polaris_gslb.Tracker.{count_down, on_failure, on_success, respond}

abbrev pub has_retries : Member → Bool
has_retries m = is_some m.retries_left

pub every-get_elem? {ℓ} :
    {A : Type ℓ} (p : A → Bool) (l : List A) (k : ℕ) {x : A}
    → every p l ≡ true
    → get_elem? l k ≡ some x
    → p x ≡ true
every-get_elem? p [] k h e = cc
every-get_elem? p (y ∷ l) zero h e = ground (arith, h, e)
every-get_elem? p (y ∷ l) (suc k) h e = every-get_elem? p l k (ground (arith, h)) e

pub every-change_at {ℓ} :
    {A : Type ℓ} (p : A → Bool) (i : ℕ) (x : A) (l : List A)
    → p x ≡ true
    → every p l ≡ true
    → every p (change_at i (λ _. x) l) ≡ true
unfolding change_at
every-change_at p i x [] px h = refl
every-change_at p zero x (y ∷ l) px h = ground (arith, px, h)
every-change_at p (suc i) x (y ∷ l) px h =
    let rest = every-change_at p i x l px (ground (arith, h)) in ground (arith, rest, h)

pub every-append {ℓ} :
    {A : Type ℓ} (p : A → Bool) (l r : List A)
    → every p l ≡ true
    → every p r ≡ true
    → every p (l ++ r) ≡ true
every-append p [] r h k = k
every-append p (x ∷ l) r h k =
    let rest = every-append p l r (ground (arith, h)) k in ground (arith, rest, h)

-- A response leaves the retries of its member set.
abbrev pub RetriesIn : Result (Member × Bool) → Type 0
RetriesIn (raise e) = Unit
RetriesIn (ok (m, changed)) = has_retries m ≡ true

count_down-RetriesIn :
    (m : Member) (left : Option ℕ) → m.retries_left ≡ left → RetriesIn (count_down m left)
unfolding count_down
count_down-RetriesIn m none e = tt
count_down-RetriesIn m (some zero) e = rw e refl
count_down-RetriesIn m (some (suc n)) e = refl

on_failure-RetriesIn :
    (m : Member) (status : Option Bool) → has_retries m ≡ true → RetriesIn (on_failure m status)
unfolding on_failure
on_failure-RetriesIn m (some false) h = h
on_failure-RetriesIn m (some true) h = count_down-RetriesIn m m.retries_left refl
on_failure-RetriesIn m none h = count_down-RetriesIn m m.retries_left refl

on_success-has_retries :
    (m : Member) (status : Option Bool)
    → has_retries m ≡ true
    → has_retries (on_success m status).0 ≡ true
unfolding on_success
on_success-has_retries m (some true) h = h
on_success-has_retries m (some false) h = h
on_success-has_retries m none h = h

pub respond-RetriesIn :
    (retries : ℕ) (probe : Probe) (m : Member)
    → has_retries m ≡ true
    → RetriesIn (respond retries probe m)
unfolding respond
respond-RetriesIn retries probe m h = elim (Bool-cases (is_up probe.status)) [
  | inl up ↦ rw up (
      on_success-has_retries
        (record m { status_reason = probe.status_reason; retries_left = some retries }) m.status
        refl)
  | inr down ↦
      rw down (on_failure-RetriesIn (record m { status_reason = probe.status_reason }) m.status h)
]
