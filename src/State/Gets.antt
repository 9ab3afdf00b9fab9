-- ===== src/State/Gets.antt =====
-- What a client of polaris_pdns gets, from a table that serves members of a pool.
use polaris_gslb.Prelude.{
  ℕ, zero, suc, ◌<◌, ◌≡◌, refl, ap, ◌∙◌, String, Bool, true, false, ◌&&◌, not, Option, List, [],
  ◌∷◌, map, arith, length, get_elem?-some_of_lt, leb, if◌then◌else◌, Bool-cases, inl, inr, every,
  every-perm, every-get_elem?, every_mono, every-replicate_append, exists,
}
use polaris_gslb.Prelude.Eq.{◌==◌, string_eq, option_eq, eq_refl}
use polaris_gslb.Pool.{Member, Pool, pool_status, Fallback, any, refuse}
use polaris_gslb.Pool.Dist.{is_any, TableName, default_name, Table, DistPool, Rng}
use polaris_gslb.Pool.Dist
use polaris_gslb.Pool.Served.{served, weighted}
use polaris_gslb.Pool.Distribution.{served_in, Serves, ServesOrAbsent, to_dist_dict-region}
use polaris_gslb.GlobalName.{GlobalName}
use polaris_gslb.Pdns.{Answer, records}
use polaris_gslb.Pdns.Answers.{Params, advance, table_or, is_twrr, is_refuse, num_records_return}
use polaris_gslb.Pdns.Rotation.{addresses-suc, IsInside, addresses, a_record, advance-IsInside}
use polaris_gslb.Pdns.Queries.{table_for, is_refusing}

-- the address of one of the members
abbrev pub is_address_of : List Member → String → Bool
is_address_of ms ip = exists (λ m. m.ip == ip) ms

weighted-every : (ms : List Member) → every (is_address_of ms) (weighted ms) ≡ true
unfolding weighted
weighted-every [] = refl
weighted-every (m ∷ ms) =
    every-replicate_append (is_address_of (m ∷ ms)) m.weight m.ip (weighted ms)
      (rw (eq_refl m.ip) refl)
      (every_mono (is_address_of ms) (is_address_of (m ∷ ms)) (weighted ms) (λ ip h. ground arith)
        (weighted-every ms))

pub addresses-every :
    (q : String → Bool) (n : ℕ) (t : Table)
    → IsInside t
    → every q t.rotation ≡ true
    → (length (addresses n t) ≡ n) × (every q (addresses n t) ≡ true)
unfolding addresses advance
addresses-every q zero t inside h = (refl, refl)
addresses-every q (suc n) t inside h =
    let (ip, at) = get_elem?-some_of_lt t.rotation t.index inside in
    let (count, rest) = addresses-every q n (advance t) (advance-IsInside t inside) h in
    let one : q ip ≡ true = every-get_elem? q t.rotation t.index at h in
    let split : addresses (suc n) t ≡ ip ∷ addresses n (advance t) = addresses-suc n t ip at in
    (ap length split ∙ ap suc count, ap (every q) split ∙ ground arith)

-- The members that a pool serves to a client of a region: those of the region if the pool uses
-- twrr and any of them serves, and else those that it serves by default.
abbrev pub or_else : List Member → List Member → List Member
or_else [] others = others
or_else (m ∷ ms) others = m ∷ ms

abbrev pub served_to : Pool → TableName → List Member
served_to p region =
    if pool_status p && is_twrr p.lb_method
    then or_else (served_in p region) (served p)
    else served p

table_or-Serves :
    (region : TableName) (ms others : List Member) (o : Option Table) (default : Table)
    → ServesOrAbsent ms o
    → Serves others default
    → Serves (or_else ms others) (table_or region o default).1
table_or-Serves region [] others o default h d = rw h d
table_or-Serves region (m ∷ ms) others o default (t, e, s) d = rw e s

pub table_for-Serves :
    (rng : Rng) (p : Pool) (region : TableName) (default : Table)
    → (default_name == region) ≡ false
    → Serves (served p) default
    → Serves (served_to p region) (table_for (Dist.to_dist_dict rng p) region default).1
unfolding Dist.to_dist_dict
table_for-Serves rng p region default other d =
    elim (Bool-cases (pool_status p && is_twrr p.lb_method)) [
      | inl up ↦ rw up (
          table_or-Serves region (served_in p region) (served p) _ default
            (to_dist_dict-region rng p region other) d)
      | inr down ↦ rw down d
    ]

-- What a client gets: as many addresses of members that are served to its region as the pool allows.
pub record Gets (params : Params) (g : GlobalName) (p : Pool) (region : TableName) (answer : Answer)
    : Type 0 where
  pub ips : List String
  pub returned : answer ≡ records (map (a_record params.qname g.ttl) ips)
  pub counted : length ips ≡ (
      if leb (length (served_to p region)) p.max_addrs_returned
      then length (served_to p region)
      else p.max_addrs_returned)
  pub served_only : every (is_address_of (served_to p region)) ips ≡ true

refusing_lem :
    (up : Bool) (fb : Fallback) (ms ns : List Member)
    → 0 < length (if up then ms else if is_any fb then ns else [])
    → (not up && is_refuse fb) ≡ false
refusing_lem true fb ms ns h = refl
refusing_lem false any ms ns h = refl
refusing_lem false refuse ms ns h = absurd (omega arith)

pub willing_lem :
    (rng : Rng) (p : Pool) → 0 < length (served p) → is_refusing (Dist.to_dist_dict rng p) ≡ false
unfolding served Dist.to_dist_dict
willing_lem rng p pos = refusing_lem (pool_status p) p.fallback _ _ pos

pub or_else-pos :
    (b : Bool) (ms others : List Member)
    → 0 < length others
    → 0 < length (if b then or_else ms others else others)
or_else-pos true [] others h = h
or_else-pos true (m ∷ ms) others h = omega arith
or_else-pos false ms others h = h

pub num_records_lem :
    (t : Table) (pool : DistPool) (p : Pool) (ms : List Member)
    → t.num_unique_addrs ≡ length ms
    → pool.max_addrs_returned ≡ p.max_addrs_returned
    → num_records_return t pool
      ≡ (if leb (length ms) p.max_addrs_returned then length ms else p.max_addrs_returned)
unfolding num_records_return
num_records_lem t pool p ms counts most = ground arith

pub min-pos : (n a b : ℕ) → n ≡ (if leb a b then a else b) → 0 < a → 0 < b → 0 < n
min-pos n a b e h k = ground arith

pub every-Serves :
    (t : Table) (ms : List Member) → Serves ms t → every (is_address_of ms) t.rotation ≡ true
every-Serves t ms s = every-perm (is_address_of ms) s.rotates ∙ weighted-every ms
