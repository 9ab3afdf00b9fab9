-- ===== src/Tracker/Responses.antt =====
-- What a probe response changes of the whole state.
use polaris_gslb.Prelude.{
  change_at, get_elem?-change_at, change_at-append, ℕ, zero, suc, ◌-◌, ◌≡◌, refl, sym, ap, ◌∙◌,
  String, Bool, true, false, Option, none, some, [], ◌∷◌, ◌++◌, arith, length, get_elem?, ltb, eqb,
  if◌then◌else◌, Bool-cases, inl, inr, not,
}
use polaris_gslb.Prelude.Dict.{Dict, map_option}
use polaris_gslb.Prelude.Result.{Result, ok}
use polaris_gslb.Prelude.Eq.{◌==◌, bool_eq, option_eq}
use polaris_gslb.Pool.{Member, Pool, is_up}
use polaris_gslb.Prober.{Probe}
use polaris_gslb.State.{all_members, pool_at, member_at, change_pool, change_member}
use polaris_gslb.Tracker.Pools.{ArePoolsLeft, store_response-ArePoolsLeft}
use polaris_gslb.Tracker.Retries.{respond-changed}
use polaris_gslb.Tracker.{
  count_down, on_failure, Tracker, note_status, respond, store_response, process_probe_response,
}

pub all_members-change_member :
    (i : ℕ) (f : Member → Member) (pools : Dict String Pool)
    → all_members (change_member i f pools) ≡ change_at i f (all_members pools)
unfolding all_members change_member
all_members-change_member i f [] = unfold change_at in refl
all_members-change_member i f ((name, p) ∷ pools) = elim (Bool-cases (ltb i (length p.members))) [
  | inl inside ↦
      rw inside (sym (change_at-append i f p.members (all_members pools) ∙ rw inside refl))
  | inr beyond ↦ rw beyond (
      ap (λ l. p.members ++ l) (all_members-change_member (i - length p.members) f pools)
      ∙ sym (change_at-append i f p.members (all_members pools) ∙ rw beyond refl))
]

pub all_members-note_status :
    (i : ℕ) (pools : Dict String Pool)
    → all_members (change_pool i note_status pools) ≡ all_members pools
unfolding all_members change_pool note_status
all_members-note_status i [] = refl
all_members-note_status zero ((name, p) ∷ pools) = refl
all_members-note_status (suc i) ((name, p) ∷ pools) =
    ap (λ l. p.members ++ l) (all_members-note_status i pools)

-- What a response to the probe of a member leaves: that member is as `respond` says, and every other
-- member is as it was; the timestamp is that of the response exactly if the status changed, and then
-- the last status of the probe's pool is its status now. All else is as it was.
pub record Processed (now : ℕ) (probe : Probe) (m : Member) (changed : Bool) (t t' : Tracker)
    : Type 0 where
  pub member : member_at t'.state.pools probe.member_id ≡ some m
  pub others :
      (j : ℕ)
      → eqb probe.member_id j ≡ false
      → member_at t'.state.pools j ≡ member_at t.state.pools j
  pub timestamp : t'.timestamp ≡ (if changed then now else t.timestamp)
  pub requests : t'.requests ≡ t.requests
  pub queue : t'.state.pq ≡ t.state.pq
  pub globalnames : t'.state.globalnames ≡ t.state.globalnames
  pub undetermined : t'.state.status_undetermined ≡ t.state.status_undetermined
  pub pools : ArePoolsLeft probe.pool_id changed t.state.pools t'.state.pools

changed_member :
    (i j : ℕ) (m : Member) (pools : Dict String Pool)
    → member_at (change_member i (λ _. m) pools) j
      ≡ (if eqb i j then map_option (λ _. m) (member_at pools j) else member_at pools j)
unfolding member_at
changed_member i j m pools =
    ap (λ l. get_elem? l j) (all_members-change_member i (λ _. m) pools)
    ∙ get_elem?-change_at i j (λ _. m) (all_members pools)

stored_member :
    (now : ℕ) (probe : Probe) (m : Member) (changed : Bool) (t : Tracker) (j : ℕ)
    → member_at (store_response now probe (m, changed) t).state.pools j
      ≡ member_at (change_member probe.member_id (λ _. m) t.state.pools) j
unfolding store_response member_at
stored_member now probe m true t j =
    ap (λ l. get_elem? l j)
      (all_members-note_status probe.pool_id (change_member probe.member_id (λ _. m) t.state.pools))
stored_member now probe m false t j = refl

store_response-Processed :
    (now : ℕ) (probe : Probe) (m old : Member) (changed : Bool) (t : Tracker)
    → member_at t.state.pools probe.member_id ≡ some old
    → Processed now probe m changed t (store_response now probe (m, changed) t)
unfolding store_response
store_response-Processed now probe m old changed t found = record {
  member =
      stored_member now probe m changed t probe.member_id
      ∙ (changed_member probe.member_id probe.member_id m t.state.pools ∙ ground (arith, found));
  others = λ j other.
      stored_member now probe m changed t j
      ∙ (changed_member probe.member_id j m t.state.pools ∙ ground (arith, other));
  timestamp = ground arith;
  requests = ground arith;
  queue = ground arith;
  globalnames = ground arith;
  undetermined = ground arith;
  pools = store_response-ArePoolsLeft now probe m changed t;
}

-- A step on a member that returns.
abbrev Returns : Result (Member × Bool) → Type 0
Returns r = (m : Member) × (changed : Bool) × (r ≡ ok (m, changed))

count_down-Returns :
    (m : Member) (left : Option ℕ) {n : ℕ} → left ≡ some n → Returns (count_down m left)
unfolding count_down
count_down-Returns m none h = cc
count_down-Returns m (some zero) h = (_, true, refl)
count_down-Returns m (some (suc n)) h = (_, false, refl)

on_failure-Returns :
    (m : Member) (status : Option Bool) {n : ℕ}
    → m.retries_left ≡ some n
    → Returns (on_failure m status)
unfolding on_failure
on_failure-Returns m (some false) h = (m, false, refl)
on_failure-Returns m (some true) h = count_down-Returns m m.retries_left h
on_failure-Returns m none h = count_down-Returns m m.retries_left h

pub respond-Returns :
    (retries : ℕ) (probe : Probe) (m : Member) {n : ℕ}
    → m.retries_left ≡ some n
    → Returns (respond retries probe m)
unfolding respond
respond-Returns retries probe m h = elim (Bool-cases (is_up probe.status)) [
  | inl up ↦ rw up (_, _, refl)
  | inr down ↦
      rw down (on_failure-Returns (record m { status_reason = probe.status_reason }) m.status h)
]

-- The response to a probe of a member that is there, of a pool that is there, raises no exception if
-- the member's retries are set. That member becomes what `respond` makes of it, and every other
-- member stays as it was. Exactly if the member's status changed, the timestamp becomes that of the
-- response, and the last status of the probe's pool becomes what the pool's status is now. No probe is
-- requested, and the queue, the names, the list of undetermined members and all else of the pools stay
-- as they were.
pub process_probe_response-Processed :
    (now : ℕ) (probe : Probe) (t : Tracker) (pool : Pool) (old : Member) (n : ℕ)
    → pool_at t.state.pools probe.pool_id ≡ some pool
    → member_at t.state.pools probe.member_id ≡ some old
    → old.retries_left ≡ some n
    → (m : Member) × (changed : Bool) × (t' : Tracker) × (process_probe_response now probe t
        ≡ ok t')
      × (respond pool.monitor.retries probe old ≡ ok (m, changed))
      × (changed ≡ not (m.status == old.status))
      × Processed now probe m changed t t'
unfolding process_probe_response
process_probe_response-Processed now probe t pool old n in_pool found left =
    let (m, changed, e) = respond-Returns pool.monitor.retries probe old left in
    (
      m,
      changed,
      store_response now probe (m, changed) t,
      rw (in_pool, found, e) refl,
      e,
      (respond-changed pool.monitor.retries probe old m changed e).0,
      store_response-Processed now probe m old changed t found,
    )
