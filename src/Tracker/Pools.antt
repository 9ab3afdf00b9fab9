-- ===== src/Tracker/Pools.antt =====
-- What a changed member, and a noted status, leave of the pools.
use polaris_gslb.Prelude.{
  change_at, get_elem?-change_at, length-change_at, ℕ, zero, suc, ◌-◌, ◌≡◌, refl, ap, ◌∙◌, String,
  Bool, true, false, Option, none, some, [], ◌∷◌, length, get_elem?, ltb, eqb, if◌then◌else◌,
  Bool-cases, inl, inr, ◌&&◌,
}
use polaris_gslb.Prelude.Dict.{Dict, map_option, map_values, values}
use polaris_gslb.Pool.{Member, Pool, pool_status}
use polaris_gslb.State.{pool_at, change_pool, change_member}
use polaris_gslb.Prober.{Probe}
use polaris_gslb.Tracker.{note_last, note_status, Tracker, store_response}

-- A pool without its members and its last status, and how many members it has.
abbrev pub settings : Pool → Pool × ℕ
settings p = (record p { members = []; last_status = none }, length p.members)

note_last-now : (o : Option Bool) (b : Bool) → note_last o b ≡ some b
note_last-now none b = refl
note_last-now (some true) true = refl
note_last-now (some true) false = refl
note_last-now (some false) true = refl
note_last-now (some false) false = refl

pub settings-note_status :
    (i : ℕ) (pools : Dict String Pool)
    → map_values (λ _ p. settings p) (change_pool i note_status pools)
      ≡ map_values (λ _ p. settings p) pools
unfolding change_pool note_status map_values
settings-note_status i [] = refl
settings-note_status zero ((name, p) ∷ pools) = refl
settings-note_status (suc i) ((name, p) ∷ pools) =
    ap (λ l. (name, settings p) ∷ l) (settings-note_status i pools)

pub settings-change_member :
    (i : ℕ) (f : Member → Member) (pools : Dict String Pool)
    → map_values (λ _ p. settings p) (change_member i f pools)
      ≡ map_values (λ _ p. settings p) pools
unfolding change_member map_values
settings-change_member i f [] = refl
settings-change_member i f ((name, p) ∷ pools) = elim (Bool-cases (ltb i (length p.members))) [
  | inl inside ↦ rw inside (
      ap
        (λ n.
          (name, (record p { members = []; last_status = none }, n))
          ∷ map_values (λ _ q. settings q) pools)
        (length-change_at i f p.members))
  | inr beyond ↦
      rw beyond
        (ap (λ l. (name, settings p) ∷ l) (settings-change_member (i - length p.members) f pools))
]

values-change_pool :
    (i : ℕ) (f : Pool → Pool) (pools : Dict String Pool)
    → values (change_pool i f pools) ≡ change_at i f (values pools)
unfolding change_pool change_at
values-change_pool i f [] = refl
values-change_pool zero f ((name, p) ∷ pools) = refl
values-change_pool (suc i) f ((name, p) ∷ pools) = ap (λ l. p ∷ l) (values-change_pool i f pools)

-- The last statuses are not touched by a change of a member.
last-change_member :
    (i j : ℕ) (f : Member → Member) (pools : Dict String Pool)
    → map_option (λ p. p.last_status) (pool_at (change_member i f pools) j)
      ≡ map_option (λ p. p.last_status) (pool_at pools j)
unfolding change_member pool_at
last-change_member i j f [] = refl
last-change_member i zero f ((name, p) ∷ pools) = elim (Bool-cases (ltb i (length p.members))) [
  | inl inside ↦ rw inside refl
  | inr beyond ↦ rw beyond refl
]
last-change_member i (suc j) f ((name, p) ∷ pools) = elim (Bool-cases (ltb i (length p.members))) [
  | inl inside ↦ rw inside refl
  | inr beyond ↦ rw beyond (last-change_member (i - length p.members) j f pools)
]

noted :
    (o : Option Pool)
    → map_option (λ p. p.last_status) (map_option note_status o)
      ≡ map_option (λ p. some (pool_status p)) (map_option note_status o)
unfolding note_status pool_status
noted none = refl
noted (some p) = ap some (note_last-now p.last_status (pool_status p))

-- Only the last status of the pool is changed, to the status of the pool as it is now.
last-note_status :
    (i j : ℕ) (pools : Dict String Pool)
    → map_option (λ p. p.last_status) (pool_at (change_pool i note_status pools) j) ≡ (
        if eqb i j
        then map_option (λ p. some (pool_status p)) (pool_at (change_pool i note_status pools) j)
        else map_option (λ p. p.last_status) (pool_at pools j))
unfolding pool_at
last-note_status i j pools =
    let found =
      ap (λ l. get_elem? l j) (values-change_pool i note_status pools)
      ∙ get_elem?-change_at i j note_status (values pools) in
    elim (Bool-cases (eqb i j)) [
      | inl same ↦
          let found' = rw same at found in rw (same, found') (noted (get_elem? (values pools) j))
      | inr other ↦ let found' = rw other at found in rw (other, found') refl
    ]

-- What is left of the pools: they are those that were there, but for the members and the last
-- status, and the last status is new, that of the pool as it is now, exactly for the i-th pool if the
-- status of the member changed.
pub record ArePoolsLeft (i : ℕ) (changed : Bool) (pools pools' : Dict String Pool) : Type 0 where
  pub same_settings : map_values (λ _ p. settings p) pools' ≡ map_values (λ _ p. settings p) pools
  pub last_status :
      (j : ℕ)
      → map_option (λ p. p.last_status) (pool_at pools' j) ≡ (
          if changed && eqb i j
          then map_option (λ p. some (pool_status p)) (pool_at pools' j)
          else map_option (λ p. p.last_status) (pool_at pools j))

changed-ArePoolsLeft :
    (i k : ℕ) (f : Member → Member) (pools : Dict String Pool)
    → ArePoolsLeft i true pools (change_pool i note_status (change_member k f pools))
changed-ArePoolsLeft i k f pools = record {
  same_settings =
      settings-note_status i (change_member k f pools) ∙ settings-change_member k f pools;
  last_status = λ j.
      last-note_status i j (change_member k f pools)
      ∙ ap
          (λ o.
            if eqb i j
            then map_option (λ p. some (pool_status p))
                (pool_at (change_pool i note_status (change_member k f pools)) j)
            else o)
          (last-change_member k j f pools);
}

unchanged-ArePoolsLeft :
    (i k : ℕ) (f : Member → Member) (pools : Dict String Pool)
    → ArePoolsLeft i false pools (change_member k f pools)
unchanged-ArePoolsLeft i k f pools = record {
  same_settings = settings-change_member k f pools;
  last_status = λ j. last-change_member k j f pools;
}

pub store_response-ArePoolsLeft :
    (now : ℕ) (probe : Probe) (m : Member) (changed : Bool) (t : Tracker)
    → ArePoolsLeft probe.pool_id changed t.state.pools
        (store_response now probe (m, changed) t).state.pools
unfolding store_response
store_response-ArePoolsLeft now probe m true t =
    changed-ArePoolsLeft probe.pool_id probe.member_id (λ _. m) t.state.pools
store_response-ArePoolsLeft now probe m false t =
    unchanged-ArePoolsLeft probe.pool_id probe.member_id (λ _. m) t.state.pools
