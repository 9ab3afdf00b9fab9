-- ===== src/Pool/Served.antt =====
-- A description of what a pool serves that does not mention distribution tables: which members,
-- and how often the address of each stands in a rotation.
use polaris_gslb.Prelude.{
  ◌<◌, ◌≤◌, ◌≡◌, refl, String, Bool, true, false, ◌&&◌, List, [], ◌∷◌, ◌++◌, arith, length,
  length-append, length-replicate, replicate, take, select, ltb, if◌then◌else◌, All,
}
use polaris_gslb.Pool.{Member, LbMethod, Fallback, Pool, is_up, any_member_up, pool_status}
use polaris_gslb.Pool.Dist.{is_fogroup, is_any}

-- enabled and UP
abbrev pub is_serving : Member → Bool
is_serving m = ltb 0 m.weight && is_up m.status

abbrev pub is_enabled : Member → Bool
is_enabled m = ltb 0 m.weight

-- the members that a pool with an UP member serves: a failover group serves the first of them
abbrev pub served_up : LbMethod → List Member → List Member
served_up lb ms = if is_fogroup lb then take 1 (select is_serving ms) else select is_serving ms

-- the members that a pool with no UP member serves
abbrev pub served_down : Fallback → List Member → List Member
served_down fb ms = if is_any fb then select is_enabled ms else []

unfoldable pub served : Pool → List Member
unfolding pool_status
served p =
    if pool_status p then served_up p.lb_method p.members else served_down p.fallback p.members

-- each address as often as its member's weight says
unfoldable pub weighted : List Member → List String
weighted [] = []
weighted (m ∷ ms) = replicate m.weight m.ip ++ weighted ms

-- A pool is UP exactly when it has a serving member.
pub any_member_up-nil : (ms : List Member) → any_member_up ms ≡ false → select is_serving ms ≡ []
unfolding any_member_up
any_member_up-nil [] h = refl
any_member_up-nil (m ∷ ms) h = ground (arith, any_member_up-nil ms)

pub any_member_up-cons :
    (ms : List Member) → any_member_up ms ≡ true → 0 < length (select is_serving ms)
unfolding any_member_up
any_member_up-cons [] h = cc
any_member_up-cons (m ∷ ms) h = ground (arith, any_member_up-cons ms)

-- Members of a weight above 0 fill at least one place each.
pub length-le-weighted :
    (ms : List Member) → All (λ m. 0 < m.weight) ms → length ms ≤ length (weighted ms)
unfolding weighted
length-le-weighted [] h = omega arith
length-le-weighted (m ∷ ms) h = omega (
  arith,
  length-append (replicate m.weight m.ip) (weighted ms),
  length-replicate m.weight m.ip,
  length-le-weighted ms h.1,
)
