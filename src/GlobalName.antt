-- ===== src/GlobalName.antt =====
-- polaris_health/state/globalname.py: a load-balanced name.
use polaris_gslb.Prelude.{
  ℕ, String, Bool, false, not, Option, none, some, count, leb, eqb, lower, if◌then◌else◌,
}
use polaris_gslb.Prelude.Int.{ℤ, pos, negsuc}
use polaris_gslb.Prelude.Result.{Result, ok, raise_if, or_raise, error, ◌>>=◌, ◌>>◌}
use polaris_gslb.Config.{Value, NameConfig, as_int, str_at_most}
use polaris_gslb.Published.{DistName}

pub record GlobalName : Type 0 where
  pub name : String
  pub pool_name : String
  pub ttl : ℕ

-- A non-empty text of at most 256 characters.
abbrev pub is_sized : String → Bool
is_sized s = if eqb (count s) 0 then false else leb (count s) 256

abbrev pub sized : Option String → Option String
sized none = none
sized (some s) = if is_sized s then some s else none

-- an int of at least MIN_TTL
abbrev pub at_least_1 : Option ℤ → Option ℕ
at_least_1 none = none
at_least_1 (some (pos n)) = if leb 1 n then some n else none
at_least_1 (some (negsuc n)) = none

-- GlobalName.__init__
unfoldable pub init : String → Value → Value → Result GlobalName
init name pool_name ttl = do
  raise_if (not (is_sized name)) error
  pool_name' ← or_raise (sized (str_at_most 256 pool_name)) error
  ttl' ← or_raise (at_least_1 (as_int ttl)) error
  ok (record { name = lower name; pool_name = pool_name'; ttl = ttl' })

-- GlobalName.from_config_dict
unfoldable pub from_config_dict : String → NameConfig → Result GlobalName
unfolding init
from_config_dict name obj = do
  pool ← or_raise obj.pool error
  ttl ← or_raise obj.ttl error
  init name pool ttl

unfoldable pub to_dist_dict : GlobalName → DistName
to_dist_dict g = record { pool_name = g.pool_name; ttl = g.ttl }
