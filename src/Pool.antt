-- ===== src/Pool.antt =====
-- polaris_health/state/pool.py: pool members and pools, and the health status of a pool.
pub mod Config
pub mod Checked
pub mod Dist
pub mod Served
pub mod Tables
pub mod Distribution
pub mod Servable
use polaris_gslb.Prelude.{
  ℕ, String, Bool, true, false, ◌&&◌, Option, none, some, List, [], ◌∷◌, ltb, if◌then◌else◌,
}
use polaris_gslb.Monitors.{Monitor}

-- A backend server. A status of `none` is new, `some true` is UP and `some false` is DOWN. The
-- attribute `_id` of members and pools is their position (State.antt).
pub record Member : Type 0 where
  pub ip : String
  pub name : String
  pub weight : ℕ
  pub region : Option String
  pub monitor_ip : String
  pub status : Option Bool
  pub status_reason : Option String
  pub retries_left : Option ℕ

-- Pool.LB_METHOD_OPTIONS
pub data LbMethod : Type 0 where
  wrr twrr fogroup : LbMethod

-- Pool.FALLBACK_OPTIONS
pub data Fallback : Type 0 where
  any refuse : Fallback

pub record Pool : Type 0 where
  pub name : String
  pub monitor : Monitor
  pub members : List Member
  pub lb_method : LbMethod
  pub fallback : Fallback
  pub max_addrs_returned : ℕ
  pub last_status : Option Bool

-- the truth of a member's status: UP, and neither DOWN nor new
abbrev pub is_up : Option Bool → Bool
is_up none = false
is_up (some b) = b

-- the loop of `status`
unfoldable pub any_member_up : List Member → Bool
any_member_up [] = false
any_member_up (m ∷ ms) = if ltb 0 m.weight && is_up m.status then true else any_member_up ms

-- the property `Pool.status`
unfoldable pub pool_status : Pool → Bool
unfolding any_member_up
pool_status p = any_member_up p.members
