-- ===== src/Tracker/Progress.antt =====
-- The rounds of the tracker raise no exception.
use polaris_gslb.Prelude.{
  ℕ, zero, suc, ◌+◌, ◌-◌, ◌<◌, ◌≡◌, refl, sym, ap, ◌∙◌, subst, String, Bool, true, false, Option,
  none, some, List, [], ◌∷◌, ◌++◌, length, get_elem?-some_of_lt, change_at, length-change_at, every,
  arith, leb, ltb, Bool-cases, inl, inr,
}
use polaris_gslb.Prelude.Dict.{Dict, values, is_some}
use polaris_gslb.Prelude.Result.{ok}
use polaris_gslb.Pool.{Member, Pool}
use polaris_gslb.State.{all_members, pool_at, member_at, change_pool, change_member}
use polaris_gslb.State.Queue.{Item, precedes, push, replace}
use polaris_gslb.Prober.{Probe}
use polaris_gslb.Tracker.{
  Tracker, note_status, store_response, process_probe_response, schedule, receive,
  issue_probe_request,
}
use polaris_gslb.Tracker.Responses.{
  respond-Returns, all_members-change_member, all_members-note_status,
}
use polaris_gslb.Tracker.Schedule.{store_response-pq}
use polaris_gslb.Tracker.Remaining.{
  has_retries, every-get_elem?, every-change_at, RetriesIn, respond-RetriesIn,
}

-- the items are for members and pools that are there
abbrev pub Refers : ℕ → ℕ → List Item → Type 0
Refers n pools [] = Unit
Refers n pools (x ∷ q) = (x.member_id < n) × ((x.pool_id < pools) × Refers n pools q)

pub push-Refers :
    (n pools : ℕ) (x : Item) (q : List Item)
    → x.member_id < n
    → x.pool_id < pools
    → Refers n pools q
    → Refers n pools (push x q)
unfolding push
push-Refers n pools x [] a b h = (a, (b, tt))
push-Refers n pools x (y ∷ q) a b (c, (d, h)) = elim (Bool-cases (precedes x y)) [
  | inl first ↦ rw first (a, (b, (c, (d, h))))
  | inr later ↦ rw later (c, (d, push-Refers n pools x q a b h))
]

change_member-length :
    (i : ℕ) (f : Member → Member) (pools : Dict String Pool)
    → length (values (change_member i f pools)) ≡ length (values pools)
unfolding change_member
change_member-length i f [] = refl
change_member-length i f ((name, p) ∷ pools) = elim (Bool-cases (ltb i (length p.members))) [
  | inl inside ↦ rw inside refl
  | inr beyond ↦ rw beyond (ap suc (change_member-length (i - length p.members) f pools))
]

change_pool-length :
    (i : ℕ) (f : Pool → Pool) (pools : Dict String Pool)
    → length (values (change_pool i f pools)) ≡ length (values pools)
unfolding change_pool
change_pool-length i f [] = refl
change_pool-length zero f ((name, p) ∷ pools) = refl
change_pool-length (suc i) f ((name, p) ∷ pools) = ap suc (change_pool-length i f pools)

-- The tracker has so many members and pools, all members' retries are set, and the items of its queue
-- are for members and pools that are there.
pub record IsRunning (n pools : ℕ) (t : Tracker) : Type 0 where
  pub members : length (all_members t.state.pools) ≡ n
  pub pool_count : length (values t.state.pools) ≡ pools
  pub retries : every has_retries (all_members t.state.pools) ≡ true
  pub refers : Refers n pools t.state.pq

store_response-all_members :
    (now : ℕ) (probe : Probe) (m : Member) (changed : Bool) (t : Tracker)
    → all_members (store_response now probe (m, changed) t).state.pools
      ≡ change_at probe.member_id (λ _. m) (all_members t.state.pools)
unfolding store_response
store_response-all_members now probe m true t =
    all_members-note_status probe.pool_id (change_member probe.member_id (λ _. m) t.state.pools)
    ∙ all_members-change_member probe.member_id (λ _. m) t.state.pools
store_response-all_members now probe m false t =
    all_members-change_member probe.member_id (λ _. m) t.state.pools

store_response-length :
    (now : ℕ) (probe : Probe) (m : Member) (changed : Bool) (t : Tracker)
    → length (values (store_response now probe (m, changed) t).state.pools)
      ≡ length (values t.state.pools)
unfolding store_response
store_response-length now probe m true t =
    change_pool-length probe.pool_id note_status
      (change_member probe.member_id (λ _. m) t.state.pools)
    ∙ change_member-length probe.member_id (λ _. m) t.state.pools
store_response-length now probe m false t =
    change_member-length probe.member_id (λ _. m) t.state.pools

some_of {ℓ} : {A : Type ℓ} (o : Option A) → is_some o ≡ true → (a : A) × (o ≡ some a)
some_of none h = cc
some_of (some a) h = (a, refl)

-- A response that is for a member and a pool that are there, or none.
abbrev pub IsKnown : ℕ → ℕ → Option Probe → Type 0
IsKnown n pools none = Unit
IsKnown n pools (some probe) = (probe.member_id < n) × (probe.pool_id < pools)

module _ (n pools : ℕ) where
  store_response-IsRunning :
      (now : ℕ) (probe : Probe) (m : Member) (changed : Bool) (t : Tracker)
      → has_retries m ≡ true
      → IsRunning n pools t
      → IsRunning n pools (store_response now probe (m, changed) t)
  store_response-IsRunning now probe m changed t left h =
      let same = store_response-all_members now probe m changed t in
      let ms = all_members t.state.pools in
      record {
        members = ap length same ∙ length-change_at probe.member_id (λ _. m) ms ∙ h.members;
        pool_count = store_response-length now probe m changed t ∙ h.pool_count;
        retries =
            ap (every has_retries) same
            ∙ every-change_at has_retries probe.member_id m ms left h.retries;
        refers = subst (Refers n pools) (sym (store_response-pq now probe (m, changed) t)) h.refers;
      }

  pool_there :
      (t : Tracker) (i : ℕ)
      → IsRunning n pools t
      → i < pools
      → (p : Pool) × (pool_at t.state.pools i ≡ some p)
  unfolding pool_at
  pool_there t i h below =
      get_elem?-some_of_lt (values t.state.pools) i (omega (arith, h.pool_count))

  member_there :
      (t : Tracker) (i : ℕ)
      → IsRunning n pools t
      → i < n
      → (m : Member) × (member_at t.state.pools i ≡ some m) × (has_retries m ≡ true)
  unfolding member_at
  member_there t i h below =
      let ms = all_members t.state.pools in
      let (m, found) = get_elem?-some_of_lt ms i (omega (arith, h.members)) in
      (m, found, every-get_elem? has_retries ms i h.retries found)

  pub receive-IsRunning :
      (now : ℕ) (response : Option Probe) (t : Tracker)
      → IsKnown n pools response
      → IsRunning n pools t
      → (t' : Tracker) × (receive now response t ≡ ok t') × IsRunning n pools t'
  unfolding process_probe_response
  receive-IsRunning now none t known h = (t, refl, h)
  receive-IsRunning now (some probe) t (known, known_pool) h =
      let (pool, in_pool) = pool_there t probe.pool_id h known_pool in
      let (old, found, left) = member_there t probe.member_id h known in
      let (n', left') = some_of old.retries_left left in
      let (m, changed, e) = respond-Returns pool.monitor.retries probe old left' in
      let kept = subst RetriesIn e (respond-RetriesIn pool.monitor.retries probe old left) in
      (
        store_response now probe (m, changed) t,
        rw (in_pool, found, e) refl,
        store_response-IsRunning now probe m changed t kept h,
      )

  pub schedule-IsRunning :
      (checked now : ℕ) (q : List Item) (t : Tracker)
      → t.state.pq ≡ q
      → 0 < length q
      → IsRunning n pools t
      → (t' : Tracker) × (schedule checked now q t ≡ ok t') × IsRunning n pools t'
  unfolding schedule replace
  schedule-IsRunning checked now [] t e some_item h = absurd (omega arith)
  schedule-IsRunning checked now (top ∷ rest) t e some_item h =
      elim (Bool-cases (leb top.time checked)) [
        | inl due ↦
            let (known, (known_pool, refers)) = subst (Refers n pools) e h.refers in
            let (pool, in_pool) = pool_there t top.pool_id h known_pool in
            let (member, found, _) = member_there t top.member_id h known in
            let next : Item = record {
              time = now + pool.monitor.interval;
              pool_id = top.pool_id;
              member_id = top.member_id;
            } in
            let t' : Tracker = record t {
              state = record t.state { pq = replace next (top ∷ rest) };
              requests =
                  t.requests ++ issue_probe_request pool member top.pool_id top.member_id ∷ [];
            } in
            (
              t',
              rw (due, in_pool, found) refl,
              record {
                members = h.members;
                pool_count = h.pool_count;
                retries = h.retries;
                refers = push-Refers n pools next rest known known_pool refers;
              },
            )
        | inr early ↦ (t, rw early refl, h)
      ]
