-- ===== src/Published.antt =====
-- The distribution state: the dictionary that State.to_dist_dict builds, and that travels through
-- shared memory to the PowerDNS backend. Timestamps are in milliseconds.
use polaris_gslb.Prelude.{ℕ, String}
use polaris_gslb.Prelude.Dict.{Dict}
use polaris_gslb.Pool.Dist.{DistPool}

-- the distribution form of a global name
pub record DistName : Type 0 where
  pub pool_name : String
  pub ttl : ℕ

pub record DistState : Type 0 where
  pub timestamp : ℕ
  pub pools : Dict String DistPool
  pub globalnames : Dict String DistName
