-- ===== src/Tracker/Fit.antt =====
-- Pools that a client can be served from, and what the stores of the tracker do to them.
use polaris_gslb.Prelude.{
  ℕ, zero, suc, ◌-◌, ◌<◌, ◌≡◌, refl, subst, ap, ◌∙◌, String, true, false, some, List, [], ◌∷◌, ◌++◌,
  get_elem?, change_at, ltb, All, All-map, length, Bool-cases, inl, inr,
}
use polaris_gslb.Prelude.Eq.{◌==◌, string_eq, option_eq}
use polaris_gslb.Prelude.Dict.{Dict, contains, AllValues, AllValues-mono}
use polaris_gslb.Prelude.{if◌then◌else◌}
use polaris_gslb.Topology.{TopologyMap}
use polaris_gslb.Topology.Apart.{HasNoDefault, IsInMap-other}
use polaris_gslb.Pool.{Member, Pool}
use polaris_gslb.Pool.Dist.{default_name}
use polaris_gslb.Pool.Distribution.{HasRegionsApart}
use polaris_gslb.Pool.Checked.{IsNewMember, IsNewPool}
use polaris_gslb.GlobalName.{GlobalName}
use polaris_gslb.State.{all_members, change_member, change_pool}
use polaris_gslb.Tracker.{note_status}

-- A pool that returns some address, and none of whose members has the region `_default`.
pub record IsFit (p : Pool) : Type 0 where
  pub apart : HasRegionsApart p
  pub returns_some : 0 < p.max_addrs_returned

abbrev pub IsApart : Member → Type 0
IsApart m = (m.region == default_name) ≡ false

-- New pools are fit, if no network of the topology map has the region `_default`.
pub IsNewPool-IsFit :
    (topology : TopologyMap) (pools : Dict String Pool)
    → HasNoDefault topology
    → AllValues (IsNewPool topology) pools
    → AllValues IsFit pools
IsNewPool-IsFit topology [] other h = tt
IsNewPool-IsFit topology ((name, p) ∷ pools) other (one, rest) = (
  record {
    apart =
        All-map (IsNewMember topology) IsApart p.members
          (λ m new. (IsInMap-other topology m.region other new.regional).0) one.members_new;
    returns_some = one.returns_some;
  },
  IsNewPool-IsFit topology pools other rest,
)

All-append : (l r : List Member) → All IsApart l → All IsApart r → All IsApart (l ++ r)
All-append [] r h k = k
All-append (m ∷ l) r h k = (h.0, All-append l r h.1 k)

pub All-get_elem? :
    (l : List Member) (i : ℕ) {m : Member} → All IsApart l → get_elem? l i ≡ some m → IsApart m
All-get_elem? [] i h e = cc
All-get_elem? (x ∷ l) zero {m} h e = let same : x ≡ m = cc e in subst IsApart same h.0
All-get_elem? (x ∷ l) (suc i) h e = All-get_elem? l i h.1 e

All-change_at :
    (i : ℕ) (m : Member) (l : List Member)
    → IsApart m
    → All IsApart l
    → All IsApart (change_at i (λ _. m) l)
unfolding change_at
All-change_at i m [] one h = tt
All-change_at zero m (x ∷ l) one h = (one, h.1)
All-change_at (suc i) m (x ∷ l) one h = (h.0, All-change_at i m l one h.1)

pub all_members-IsApart :
    (pools : Dict String Pool) → AllValues IsFit pools → All IsApart (all_members pools)
unfolding all_members
all_members-IsApart [] h = tt
all_members-IsApart ((name, p) ∷ pools) h =
    All-append p.members (all_members pools) h.0.apart (all_members-IsApart pools h.1)

pub change_member-IsFit :
    (i : ℕ) (m : Member) (pools : Dict String Pool)
    → IsApart m
    → AllValues IsFit pools
    → AllValues IsFit (change_member i (λ _. m) pools)
unfolding change_member
change_member-IsFit i m [] one h = tt
change_member-IsFit i m ((name, p) ∷ pools) one (fit, h) =
    elim (Bool-cases (ltb i (length p.members))) [
      | inl inside ↦ rw inside (
        record {
          apart = All-change_at i m p.members one fit.apart;
          returns_some = fit.returns_some;
        },
        h,
      )
      | inr beyond ↦ rw beyond (fit, change_member-IsFit (i - length p.members) m pools one h)
    ]

pub change_pool-IsFit :
    (i : ℕ) (pools : Dict String Pool)
    → AllValues IsFit pools
    → AllValues IsFit (change_pool i note_status pools)
unfolding change_pool note_status
change_pool-IsFit i [] h = tt
change_pool-IsFit zero ((name, p) ∷ pools) (fit, h) =
    (record { apart = fit.apart; returns_some = fit.returns_some }, h)
change_pool-IsFit (suc i) ((name, p) ∷ pools) (fit, h) = (fit, change_pool-IsFit i pools h)

pub contains-change_member :
    (i : ℕ) (f : Member → Member) (k : String) (pools : Dict String Pool)
    → contains k (change_member i f pools) ≡ contains k pools
unfolding change_member contains
contains-change_member i f k [] = refl
contains-change_member i f k ((name, p) ∷ pools) = elim (Bool-cases (ltb i (length p.members))) [
  | inl inside ↦ rw inside refl
  | inr beyond ↦ rw beyond (
      ap (λ b. if name == k then true else b)
        (contains-change_member (i - length p.members) f k pools))
]

pub contains-change_pool :
    (i : ℕ) (f : Pool → Pool) (k : String) (pools : Dict String Pool)
    → contains k (change_pool i f pools) ≡ contains k pools
unfolding change_pool contains
contains-change_pool i f k [] = refl
contains-change_pool zero f k ((name, p) ∷ pools) = refl
contains-change_pool (suc i) f k ((name, p) ∷ pools) =
    ap (λ b. if name == k then true else b) (contains-change_pool i f k pools)

-- Global names keep their pools when the pools keep their names.
pub known_kept :
    (names : Dict String GlobalName) (pools pools' : Dict String Pool)
    → ((k : String) → contains k pools' ≡ contains k pools)
    → AllValues (λ g. contains g.pool_name pools ≡ true) names
    → AllValues (λ g. contains g.pool_name pools' ≡ true) names
known_kept names pools pools' same h =
    AllValues-mono (λ g. contains g.pool_name pools ≡ true)
      (λ g. contains g.pool_name pools' ≡ true) names (λ g k. same g.pool_name ∙ k) h
