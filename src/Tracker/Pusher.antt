-- ===== src/Tracker/Pusher.antt =====
-- StatePusher: the pushes of the state into shared memory. The pusher holds the lock only while it
-- builds the forms; it reads STATE_TIMESTAMP later, and once for each use.
use polaris_gslb.Prelude.{
  ℕ, ◌+◌, ◌≡◌, ◌≢◌, refl, ap, ◌∙◌, String, Bool, true, false, Option, some, arith, eqb,
  if◌then◌else◌, Bool-cases, inl, inr, ◌⊎◌,
}
use polaris_gslb.Util.{Obj, instance_to_dict}
use polaris_gslb.Published.{DistState}
use polaris_gslb.Pool.Dist.{Rng}
use polaris_gslb.State.{State, health_converged, to_dist_dict}

-- What memcache holds under the three keys: the distribution form, the generic form with its
-- timestamp, and the timestamp.
pub record Memory : Type 0 where
  pub dist : Option DistState
  pub generic : Option (Obj × ℕ)
  pub timestamp : Option ℕ

-- MemcacheClient.set: it returns True, or it does not, and then the value may be stored all the same.
pub data Setting : Type 0 where
  done : Setting
  stored : Setting
  lost : Setting

-- what a key holds after a set
abbrev pub after {ℓ} : {A : Type ℓ} → Setting → A → Option A → Option A
after lost new old = old
after _ new old = some new

-- val is True
abbrev pub is_done : Setting → Bool
is_done done = true
is_done _ = false

-- One push: what the distribution form draws, how the state is laid out as an object with its
-- attributes, how the three sets end, and the value of STATE_TIMESTAMP at the three places that read
-- it: as the generic form gets it, as it is set, and as it is noted in `state_ts`.
pub record Push : Type 0 where
  pub now : ℕ
  pub rng : String → Rng
  pub objects : State → Obj
  pub set_dist : Setting
  pub set_generic : Setting
  pub set_timestamp : Setting
  pub generic_ts : ℕ
  pub pushed_ts : ℕ
  pub noted_ts : ℕ

-- the pusher's state_ts, and shared memory
pub record Pusher : Type 0 where
  pub state_ts : ℕ
  pub memory : Memory

abbrev count_true : Bool → ℕ
count_true true = 1
count_true false = 0

-- push_states after the lock is released, on the state that the forms were built from
unfoldable pub push_forms : Push → State → Pusher → Pusher
unfolding instance_to_dict
push_forms p s pusher =
    let memory = pusher.memory in
    let pushes_ok =
      count_true (is_done p.set_dist)
      + count_true (is_done p.set_generic)
      + count_true (is_done p.set_timestamp) in
    record {
      state_ts = if eqb pushes_ok 3 then p.noted_ts else pusher.state_ts;
      memory = record {
        dist = after p.set_dist (to_dist_dict p.now p.rng s) memory.dist;
        generic =
            after p.set_generic (instance_to_dict true (p.objects s), p.generic_ts) memory.generic;
        timestamp = after p.set_timestamp p.pushed_ts memory.timestamp;
      };
    }

-- StatePusher.push_states, on STATE when the lock is taken
unfoldable pub push_states : Push → State → Pusher → State × Pusher
unfolding push_forms health_converged
push_states p s pusher =
    let (s', converged) = health_converged s in
    (s', if converged then push_forms p s' pusher else pusher)

-- one round of StatePusher.run, at a value of STATE_TIMESTAMP
unfoldable pub push_round : ℕ → Push → State → Pusher → State × Pusher
unfolding push_states
push_round timestamp p s pusher =
    if eqb timestamp pusher.state_ts then (s, pusher) else push_states p s pusher

-- Every use of STATE_TIMESTAMP in a push reads the same value.
pub record IsSteady (timestamp : ℕ) (p : Push) : Type 0 where
  pub generic : p.generic_ts ≡ timestamp
  pub pushed : p.pushed_ts ≡ timestamp
  pub noted : p.noted_ts ≡ timestamp

-- Shared memory holds a form of the state `s`, under the timestamp.
pub record IsPushed (ts : ℕ) (p : Push) (s : State) (memory : Memory) : Type 0 where
  pub dist : memory.dist ≡ some (to_dist_dict p.now p.rng s)
  pub generic : memory.generic ≡ some (instance_to_dict true (p.objects s), ts)
  pub timestamp : memory.timestamp ≡ some ts

all_done :
    (a b c : Setting)
    → eqb (count_true (is_done a) + count_true (is_done b) + count_true (is_done c)) 3 ≡ true
    → (a ≡ done) × (b ≡ done) × (c ≡ done)
all_done a b c h = ground arith

-- A push that fails in part leaves `state_ts`, so that it is tried again; one that succeeds notes it.
pub push_forms-cases :
    (p : Push) (s : State) (pusher : Pusher)
    → (((push_forms p s pusher).state_ts ≡ pusher.state_ts)
        ⊎ (((p.set_dist ≡ done) × (p.set_generic ≡ done) × (p.set_timestamp ≡ done))
            × ((push_forms p s pusher).state_ts ≡ p.noted_ts)))
unfolding push_forms
push_forms-cases p s pusher =
    elim (Bool-cases (
      eqb
        (count_true (is_done p.set_dist)
          + count_true (is_done p.set_generic)
          + count_true (is_done p.set_timestamp))
        3)) [
          | inl all ↦ inr (all_done p.set_dist p.set_generic p.set_timestamp all, rw all refl)
          | inr some_failed ↦ inl (rw some_failed refl)
        ]

-- All three sets of a push return True.
pub record Succeeds (p : Push) : Type 0 where
  pub set_dist : p.set_dist ≡ done
  pub set_generic : p.set_generic ≡ done
  pub set_timestamp : p.set_timestamp ≡ done

not_all :
    (p : Push)
    → Succeeds p
    → eqb
        (count_true (is_done p.set_dist)
          + count_true (is_done p.set_generic)
          + count_true (is_done p.set_timestamp))
        3
      ≡ false
    → ⊥
not_all p k h = let h' = rw (k.set_dist, k.set_generic, k.set_timestamp) at h in cc

-- A push that succeeds is noted, and then shared memory holds all of it; another one is not noted.
abbrev pub IsNoted : ℕ → Push → State → Pusher → Pusher → Type 0
IsNoted ts p s pusher pusher' =
    (Succeeds p × (pusher'.state_ts ≡ ts) × IsPushed ts p s pusher'.memory)
    ⊎ ((¬ Succeeds p) × (pusher'.state_ts ≡ pusher.state_ts))

push_forms-IsNoted :
    (ts : ℕ) (p : Push) (s : State) (pusher : Pusher)
    → IsSteady ts p
    → IsNoted ts p s pusher (push_forms p s pusher)
unfolding push_forms
push_forms-IsNoted ts p s pusher steady =
    elim (Bool-cases (
      eqb
        (count_true (is_done p.set_dist)
          + count_true (is_done p.set_generic)
          + count_true (is_done p.set_timestamp))
        3)) [
          | inl all ↦
              let (d, g, t) = all_done p.set_dist p.set_generic p.set_timestamp all in
              inl (
                record { set_dist = d; set_generic = g; set_timestamp = t },
                rw all steady.noted,
                record {
                  dist = rw d refl;
                  generic = rw (g, steady.generic) refl;
                  timestamp = rw (t, steady.pushed) refl;
                },
              )
          | inr some_failed ↦ inr (λ k. not_all p k some_failed, rw some_failed refl)
        ]

-- All that one round can do, if STATE_TIMESTAMP keeps its value. If that value was noted, or if some
-- member's status is undetermined, the pusher and shared memory stay as they are. Else, if all three
-- sets return True, the value is noted and shared memory holds the state's forms under it; and if one
-- does not, the value is not noted, so that the next round pushes again.
pub push_round-cases :
    (ts : ℕ) (p : Push) (s : State) (pusher : Pusher)
    → IsSteady ts p
    → (((ts ≡ pusher.state_ts) ⊎ ((health_converged s).1 ≡ false))
        × ((push_round ts p s pusher).1 ≡ pusher))
      ⊎ ((ts ≢ pusher.state_ts)
          × ((health_converged s).1 ≡ true)
          × IsNoted ts p (health_converged s).0 pusher (push_round ts p s pusher).1)
unfolding push_round push_states
push_round-cases ts p s pusher steady = elim (Bool-cases (eqb ts pusher.state_ts)) [
  | inl same ↦ inl (inl (ground arith), rw same refl)
  | inr fresh ↦
      let stale : ts ≢ pusher.state_ts = ground arith in
      elim (Bool-cases (health_converged s).1) [
        | inr undetermined ↦ inl (inr undetermined, rw (fresh, undetermined) refl)
        | inl converged ↦ inr (
          stale,
          converged,
          rw (fresh, converged) (push_forms-IsNoted ts p (health_converged s).0 pusher steady),
        )
      ]
]

-- What a push whose three sets return True leaves.
abbrev pub pushed : ℕ → Push → State → Pusher
pushed ts p s = record {
  state_ts = ts;
  memory = record {
    dist = some (to_dist_dict p.now p.rng s);
    generic = some (instance_to_dict true (p.objects s), ts);
    timestamp = some ts;
  };
}

pub push_forms-done :
    (ts : ℕ) (p : Push) (s : State) (pusher : Pusher)
    → p.set_dist ≡ done
    → p.set_generic ≡ done
    → p.set_timestamp ≡ done
    → IsSteady ts p
    → push_forms p s pusher ≡ pushed ts p s
unfolding push_forms
push_forms-done ts p s pusher d g t steady =
    rw (d, g, t, steady.generic, steady.pushed, steady.noted) refl

pub push_round-push :
    (ts : ℕ) (p : Push) (s : State) (pusher : Pusher)
    → eqb ts pusher.state_ts ≡ false
    → (health_converged s).1 ≡ true
    → (push_round ts p s pusher).1 ≡ push_forms p (health_converged s).0 pusher
unfolding push_round push_states
push_round-push ts p s pusher stale converged = rw (stale, converged) refl

push_round-same :
    (ts : ℕ) (q : Push) (s : State) (pusher : Pusher)
    → pusher.state_ts ≡ ts
    → push_round ts q s pusher ≡ (s, pusher)
unfolding push_round
push_round-same ts q s pusher same =
    let equal : eqb ts pusher.state_ts ≡ true = ground arith in rw equal refl

-- A status that changes after the forms are built and before STATE_TIMESTAMP is read is lost until
-- the next change: shared memory gets the old state under the new timestamp, and the rounds after
-- that push nothing, whatever the state is.
pub push_round-lost :
    (ts ts' : ℕ) (p q : Push) (s s' : State) (pusher : Pusher)
    → eqb ts pusher.state_ts ≡ false
    → (health_converged s).1 ≡ true
    → p.set_dist ≡ done
    → p.set_generic ≡ done
    → p.set_timestamp ≡ done
    → IsSteady ts' p
    → ((push_round ts p s pusher).1.memory.dist
        ≡ some (to_dist_dict p.now p.rng (health_converged s).0))
      × ((push_round ts p s pusher).1.memory.timestamp ≡ some ts')
      × (push_round ts' q s' (push_round ts p s pusher).1 ≡ (s', (push_round ts p s pusher).1))
push_round-lost ts ts' p q s s' pusher stale converged d g t steady =
    let e : (push_round ts p s pusher).1 ≡ pushed ts' p (health_converged s).0 =
      push_round-push ts p s pusher stale converged
      ∙ push_forms-done ts' p (health_converged s).0 pusher d g t steady in
    (
      ap (λ r. r.memory.dist) e,
      ap (λ r. r.memory.timestamp) e,
      push_round-same ts' q s' _ (ap (λ r. r.state_ts) e),
    )
