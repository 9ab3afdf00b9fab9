-- ===== src/Tracker/Retries.antt =====
-- When a member goes UP and DOWN: the code's countdown against a description of its whole history.
use polaris_gslb.Prelude.{
  ℕ, zero, suc, ◌-◌, ◌≡◌, ◌≢◌, not, Bool-cases, inl, inr, refl, Bool, true, false, Option, none,
  some, List, [], ◌∷◌, arith, ltb, if◌then◌else◌, exists,
}
use polaris_gslb.Prelude.Eq.{◌==◌, bool_eq, option_eq}
use polaris_gslb.Prelude.Result.{Result, ok, ◌>>=◌}
use polaris_gslb.Pool.{Member, is_up}
use polaris_gslb.Prober.{Probe}
use polaris_gslb.Tracker.{respond, on_success, on_failure, count_down}

-- A member after its responses, the oldest first.
unfoldable pub respond_all : ℕ → List Probe → Member → Result Member
respond_all retries [] m = ok m
respond_all retries (p ∷ ps) m = do result ← respond retries p m; respond_all retries ps result.0

-- The number of failures since the last success, over a history with its newest probe first.
abbrev pub failures_since : List Probe → ℕ
failures_since [] = 0
failures_since (p ∷ ps) = if is_up p.status then 0 else suc (failures_since ps)

abbrev pub any_success : List Probe → Bool
any_success ps = exists (λ p. is_up p.status) ps

-- DOWN after more failures in a row than there are retries; before that, UP or new.
abbrev pub status_after : ℕ → List Probe → Option Bool
status_after retries ps =
    if ltb retries (failures_since ps)
    then some false
    else if any_success ps
    then some true
    else none

-- What a member's fields say after a history with its newest probe first.
record Follows (retries : ℕ) (ps : List Probe) (m : Member) : Type 0 where
  status : m.status ≡ status_after retries ps
  retries_left : m.retries_left ≡ some (retries - failures_since ps)

on_success-Follows :
    (retries : ℕ) (p : Probe) (ps : List Probe) (n : Member) (st : Option Bool)
    → n.status ≡ st
    → n.retries_left ≡ some retries
    → is_up p.status ≡ true
    → Follows retries (p ∷ ps) (on_success n st).0
unfolding on_success
on_success-Follows retries p ps n (some true) e left up = record {
  status = ground arith;
  retries_left = ground arith;
}
on_success-Follows retries p ps n (some false) e left up = record {
  status = ground arith;
  retries_left = ground arith;
}
on_success-Follows retries p ps n none e left up = record {
  status = ground arith;
  retries_left = ground arith;
}

-- The next status after one more failure.
abbrev Failed : ℕ → Probe → List Probe → Result (Member × Bool) → Type 0
Failed retries p ps r =
    (m : Member) × (changed : Bool) × (r ≡ ok (m, changed)) × Follows retries (p ∷ ps) m

count_down-Follows :
    (retries : ℕ) (p : Probe) (ps : List Probe) (n : Member) (left : Option ℕ)
    → n.retries_left ≡ left
    → n.status ≢ some false
    → Follows retries ps n
    → is_up p.status ≡ false
    → Failed retries p ps (count_down n left)
unfolding count_down
count_down-Follows retries p ps n none e alive f down = absurd (cc (f.retries_left))
count_down-Follows retries p ps n (some zero) e alive f down = (
  record n { status = some false },
  true,
  refl,
  record {
    status = ground (arith, f.status, f.retries_left);
    retries_left = ground (arith, f.status, f.retries_left);
  },
)
count_down-Follows retries p ps n (some (suc k)) e alive f down = (
  record n { retries_left = some k },
  false,
  refl,
  record {
    status = ground (arith, f.status, f.retries_left);
    retries_left = ground (arith, f.status, f.retries_left);
  },
)

on_failure-Follows :
    (retries : ℕ) (p : Probe) (ps : List Probe) (n : Member) (st : Option Bool)
    → n.status ≡ st
    → Follows retries ps n
    → is_up p.status ≡ false
    → Failed retries p ps (on_failure n st)
unfolding on_failure
on_failure-Follows retries p ps n (some false) e f down = (
  n,
  false,
  refl,
  record {
    status = ground (arith, f.status, f.retries_left);
    retries_left = ground (arith, f.status, f.retries_left);
  },
)
on_failure-Follows retries p ps n (some true) e f down =
    count_down-Follows retries p ps n n.retries_left refl (λ h. cc) f down
on_failure-Follows retries p ps n none e f down =
    count_down-Follows retries p ps n n.retries_left refl (λ h. cc) f down

-- One response keeps a member in step with its history.
respond-Follows :
    (retries : ℕ) (p : Probe) (ps : List Probe) (m : Member)
    → Follows retries ps m
    → (m' : Member) × (changed : Bool) × (respond retries p m ≡ ok (m', changed))
      × Follows retries (p ∷ ps) m'
unfolding respond
respond-Follows retries p ps m f =
    let noted : Member = record m { status_reason = p.status_reason } in
    elim (Bool-cases (is_up p.status)) [
      | inl up ↦
          let reset : Member = record noted { retries_left = some retries } in
          (
            (on_success reset m.status).0,
            (on_success reset m.status).1,
            rw up refl,
            on_success-Follows retries p ps reset m.status refl refl up,
          )
      | inr down ↦
          let (m', changed, e, f') =
            on_failure-Follows retries p ps noted m.status refl
              (record { status = f.status; retries_left = f.retries_left }) down in
          (m', changed, rw down e, f')
    ]

-- The probes that came in the order of the list, the newest first, in front of those before.
abbrev pub newest_first : List Probe → List Probe → List Probe
newest_first [] before = before
newest_first (p ∷ ps) before = newest_first ps (p ∷ before)

respond_all-Follows :
    (retries : ℕ) (ps before : List Probe) (m : Member)
    → Follows retries before m
    → (m' : Member) × (respond_all retries ps m ≡ ok m')
      × Follows retries (newest_first ps before) m'
unfolding respond_all
respond_all-Follows retries [] before m f = (m, refl, f)
respond_all-Follows retries (p ∷ ps) before m f =
    let (m₁, changed, e₁, f₁) = respond-Follows retries p before m f in
    let (m₂, e₂, f₂) = respond_all-Follows retries ps (p ∷ before) m₁ f₁ in (m₂, rw e₁ e₂, f₂)

-- A new member whose retries are the monitor's takes any responses without an exception. Then it is
-- DOWN exactly if more probes than there are retries have failed since the last success; otherwise
-- it is UP if some probe succeeded, and still new if none did. The retries that are left are those
-- of the monitor less these failures.
pub respond_all-status :
    (retries : ℕ) (ps : List Probe) (m : Member)
    → m.status ≡ none
    → m.retries_left ≡ some retries
    → (m' : Member) × (respond_all retries ps m ≡ ok m')
      × (m'.status ≡ status_after retries (newest_first ps []))
      × (m'.retries_left ≡ some (retries - failures_since (newest_first ps [])))
respond_all-status retries ps m new full =
    let (m', e, f) =
      respond_all-Follows retries ps [] m
        (record { status = ground arith; retries_left = ground arith }) in
    (m', e, f.status, f.retries_left)

-- A response reports a change exactly if it changed the member's status, and it changes nothing but
-- the status, its reason and the retries.
pub respond-changed :
    (retries : ℕ) (p : Probe) (m m' : Member) (changed : Bool)
    → respond retries p m ≡ ok (m', changed)
    → (changed ≡ not (m'.status == m.status))
      × (m'.ip ≡ m.ip)
      × (m'.name ≡ m.name)
      × (m'.weight ≡ m.weight)
      × (m'.region ≡ m.region)
      × (m'.monitor_ip ≡ m.monitor_ip)
unfolding respond on_success on_failure count_down
respond-changed retries p m m' changed e = ground arith
