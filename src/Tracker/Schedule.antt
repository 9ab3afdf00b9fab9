-- ===== src/Tracker/Schedule.antt =====
-- The queue of the tracker, from the start of the state and over the rounds of the loop.
use polaris_gslb.Prelude.{
  ℕ, suc, ◌+◌, ◌≤◌, ◌≡◌, refl, sym, ap, ◌∙◌, subst, String, Bool, true, false, Option, none, some,
  List, [], ◌∷◌, length, length-append, arith, leb, ltb, eqb, if◌then◌else◌, Bool-cases, inl, inr,
  ◌&&◌,
}
use polaris_gslb.Prelude.Dict.{Dict, map_values}
use polaris_gslb.Prelude.Result.{Result, ok, or_raise, index_error, ◌>>=◌, >>=-eq-ok, ok_injective}
use polaris_gslb.Pool.{Member, Pool}
use polaris_gslb.GlobalName.{GlobalName}
use polaris_gslb.State.{all_members, pool_at, member_at}
use polaris_gslb.State.Queue.{Item, precedes, push, replace}
use polaris_gslb.State.Init.{set_retries, push_members, push_pools, init}
use polaris_gslb.Prober.{Probe}
use polaris_gslb.Tracker.{
  Tracker, respond, store_response, process_probe_response, schedule, round, receive,
}

-- how many items of a queue are for the member at position `k`
abbrev pub items : ℕ → List Item → ℕ
items k [] = 0
items k (x ∷ q) = if eqb x.member_id k then suc (items k q) else items k q

-- whether the first item, if there is one, is not before `time`
abbrev pub Leads : ℕ → List Item → Type 0
Leads time [] = Unit
Leads time (x ∷ q) = time ≤ x.time

abbrev pub IsOrdered : List Item → Type 0
IsOrdered [] = Unit
IsOrdered (x ∷ q) = Leads x.time q × IsOrdered q

-- The first item is the next in time, and each of `n` members has one item.
pub record IsSchedule (n : ℕ) (q : List Item) : Type 0 where
  pub ordered : IsOrdered q
  pub one_each : (k : ℕ) → items k q ≡ (if ltb k n then 1 else 0)

push-items :
    (k : ℕ) (x : Item) (q : List Item)
    → items k (push x q) ≡ (if eqb x.member_id k then suc (items k q) else items k q)
unfolding push
push-items k x [] = refl
push-items k x (y ∷ q) = ground (arith, push-items k x q)

push-Leads :
    (time : ℕ) (x : Item) (q : List Item) → time ≤ x.time → Leads time q → Leads time (push x q)
unfolding push
push-Leads time x [] below leads = below
push-Leads time x (y ∷ q) below leads = elim (Bool-cases (precedes x y)) [
  | inl first ↦ rw first below
  | inr later ↦ rw later leads
]

precedes_lem : (x y : Item) → precedes x y ≡ true → x.time ≤ y.time
unfolding precedes
precedes_lem x y h = ground (arith, h)

precedes-not : (x y : Item) → precedes x y ≡ false → y.time ≤ x.time
unfolding precedes
precedes-not x y h = ground (arith, h)

pub push-IsOrdered : (x : Item) (q : List Item) → IsOrdered q → IsOrdered (push x q)
unfolding push
push-IsOrdered x [] h = (tt, tt)
push-IsOrdered x (y ∷ q) (leads, h) = elim (Bool-cases (precedes x y)) [
  | inl first ↦ rw first (precedes_lem x y first, (leads, h))
  | inr later ↦
      rw later (push-Leads y.time x q (precedes-not x y later) leads, push-IsOrdered x q h)
]

-- In the place of the first item comes another one of the same member.
replace-IsSchedule :
    (n : ℕ) (x y : Item) (q : List Item)
    → x.member_id ≡ y.member_id
    → IsSchedule n (y ∷ q)
    → IsSchedule n (replace x (y ∷ q))
unfolding replace
replace-IsSchedule n x y q same h = record {
  ordered = push-IsOrdered x q h.ordered.1;
  one_each = λ k. push-items k x q ∙ rw same (h.one_each k);
}

pub schedule-IsSchedule :
    (n checked now : ℕ) (q : List Item) (t t' : Tracker)
    → t.state.pq ≡ q
    → IsSchedule n q
    → schedule checked now q t ≡ ok t'
    → IsSchedule n t'.state.pq
unfolding schedule
schedule-IsSchedule n checked now [] t t' e h returned = cc
schedule-IsSchedule n checked now (top ∷ rest) t t' e h returned =
    elim (Bool-cases (leb top.time checked)) [
      | inl due ↦
          let (pool, _, h1) =
            >>=-eq-ok (or_raise (pool_at t.state.pools top.pool_id) index_error) _
              (rw due at returned) in
          let (member, _, h2) =
            >>=-eq-ok (or_raise (member_at t.state.pools top.member_id) index_error) _ h1 in
          let next : Item = record {
            time = now + pool.monitor.interval;
            pool_id = top.pool_id;
            member_id = top.member_id;
          } in
          subst (λ x. IsSchedule n x.state.pq) (ok_injective _ t' h2)
            (replace-IsSchedule n next top rest refl h)
      | inr early ↦
          let same : ok t ≡ ok t' = rw early at returned in
          subst (λ x. IsSchedule n x.state.pq) (ok_injective t t' same) (rw e h)
    ]

pub store_response-pq :
    (now : ℕ) (probe : Probe) (r : Member × Bool) (t : Tracker)
    → (store_response now probe r t).state.pq ≡ t.state.pq
unfolding store_response
store_response-pq now probe (m, true) t = refl
store_response-pq now probe (m, false) t = refl

-- What the store of a response keeps, the reception of a response keeps.
pub receive_kept {ℓ} :
    {A : Type ℓ} (f : Tracker → A) (now : ℕ) (response : Option Probe) (t t' : Tracker)
    → ((probe : Probe) (r : Member × Bool) → f (store_response now probe r t) ≡ f t)
    → receive now response t ≡ ok t'
    → f t' ≡ f t
unfolding process_probe_response
receive_kept f now none t t' kept h = ap f (sym (ok_injective t t' h))
receive_kept f now (some probe) t t' kept h =
    let (pool, _, h1) =
      >>=-eq-ok (or_raise (pool_at t.state.pools probe.pool_id) index_error) _ h in
    let (member, _, h2) =
      >>=-eq-ok (or_raise (member_at t.state.pools probe.member_id) index_error) _ h1 in
    let (r, _, h3) = >>=-eq-ok (respond pool.monitor.retries probe member) _ h2 in
    ap f (sym (ok_injective (store_response now probe r t) t' h3)) ∙ kept probe r

pub receive-pq :
    (now : ℕ) (response : Option Probe) (t t' : Tracker)
    → receive now response t ≡ ok t'
    → t'.state.pq ≡ t.state.pq
receive-pq now response t t' =
    receive_kept (λ x. x.state.pq) now response t t' (λ probe r. store_response-pq now probe r t)

pub round-IsSchedule :
    (n time checked now : ℕ) (response : Option Probe) (t t' : Tracker)
    → IsSchedule n t.state.pq
    → round time checked now response t ≡ ok t'
    → IsSchedule n t'.state.pq
unfolding round
round-IsSchedule n time checked now response t t' h returned =
    let (received, is_received, rest) = >>=-eq-ok (receive time response t) _ returned in
    schedule-IsSchedule n checked now received.state.pq received t' refl
      (subst (IsSchedule n) (sym (receive-pq time response t received is_received)) h) rest

-- what a round of the loop meets: a response, and the values of the clocks
pub record Round : Type 0 where
  pub time : ℕ
  pub checked : ℕ
  pub now : ℕ
  pub response : Option Probe

abbrev pub run_rounds : List Round → Tracker → Result Tracker
run_rounds [] t = ok t
run_rounds (r ∷ rs) t = round r.time r.checked r.now r.response t >>= (λ t'. run_rounds rs t')

-- whether `k` is one of the `n` positions from `first` on
abbrev inside : ℕ → ℕ → ℕ → ℕ
inside k first n = if leb first k && ltb k (first + n) then 1 else 0

push_members-items :
    (at : ℕ → ℕ) (k pool_id first : ℕ) (ms : List Member) (q : List Item)
    → items k (push_members at pool_id first ms q) ≡ items k q + inside k first (length ms)
unfolding push_members
push_members-items at k pool_id first [] q = ground arith
push_members-items at k pool_id first (m ∷ ms) q =
    let x : Item = record { time = at first; pool_id = pool_id; member_id = first } in
    let rest = push_members-items at k pool_id (first + 1) ms (push x q) in
    let one = push-items k x q in ground (arith, rest, one)

push_members-IsOrdered :
    (at : ℕ → ℕ) (pool_id first : ℕ) (ms : List Member) (q : List Item)
    → IsOrdered q
    → IsOrdered (push_members at pool_id first ms q)
unfolding push_members
push_members-IsOrdered at pool_id first [] q h = h
push_members-IsOrdered at pool_id first (m ∷ ms) q h =
    push_members-IsOrdered at pool_id (first + 1) ms _ (push-IsOrdered _ q h)

push_pools-IsOrdered :
    (at : ℕ → ℕ) (pool_id first : ℕ) (pools : Dict String Pool) (q : List Item)
    → IsOrdered q
    → IsOrdered (push_pools at pool_id first pools q)
unfolding push_pools
push_pools-IsOrdered at pool_id first [] q h = h
push_pools-IsOrdered at pool_id first ((name, p) ∷ pools) q h =
    push_pools-IsOrdered at (pool_id + 1) (first + length p.members) pools _
      (push_members-IsOrdered at pool_id first p.members q h)

inside-split :
    (k first n m : ℕ) → inside k first n + inside k (first + n) m ≡ inside k first (n + m)
inside-split k first n m = ground arith

push_pools-items :
    (at : ℕ → ℕ) (k pool_id first : ℕ) (pools : Dict String Pool) (q : List Item)
    → items k (push_pools at pool_id first pools q)
      ≡ items k q + inside k first (length (all_members pools))
unfolding push_pools all_members
push_pools-items at k pool_id first [] q = ground arith
push_pools-items at k pool_id first ((name, p) ∷ pools) q =
    let rest =
      push_pools-items at k (pool_id + 1) (first + length p.members) pools
        (push_members at pool_id first p.members q) in
    let here = push_members-items at k pool_id first p.members q in
    let both = length-append p.members (all_members pools) in
    let split = inside-split k first (length p.members) (length (all_members pools)) in
    rw both (omega (arith, rest, here, split))

pub init-IsSchedule :
    (at : ℕ → ℕ) (pools : Dict String Pool) (names : Dict String GlobalName)
    → IsSchedule (length (all_members (init at pools names).pools)) (init at pools names).pq
unfolding init
init-IsSchedule at pools names =
    let ready = map_values (λ name p. set_retries p) pools in
    record {
      ordered = push_pools-IsOrdered at 0 0 ready [] tt;
      one_each = λ k. let total = push_pools-items at k 0 0 ready [] in total ∙ ground arith;
    }
