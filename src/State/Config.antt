-- ===== src/State/Config.antt =====
-- State._from_config_dict, and with State/Init.antt all of State.__init__.
use polaris_gslb.Prelude.{ℕ, String, not, Option, none, some, [], ◌∷◌}
use polaris_gslb.Prelude.Eq.{string_eq}
use polaris_gslb.Prelude.Dict.{Dict, contains, insert}
use polaris_gslb.Prelude.Result.{
  Result, ok, raise, raise_if, or_raise, error, type_error, attribute_error, ◌>>=◌, ◌>>◌,
}
use polaris_gslb.Config.{Value, scalar, list, str, PoolConfig, NameConfig, LbConfig}
use polaris_gslb.Topology.{IpParser, TopologyMap}
use polaris_gslb.Monitors.Build.{Compile}
use polaris_gslb.Pool.{Pool}
use polaris_gslb.Pool.Config
use polaris_gslb.GlobalName.{GlobalName}
use polaris_gslb.GlobalName
use polaris_gslb.State.{State}
use polaris_gslb.State.Init.{init}

-- a key that must be there and not empty
unfoldable pub not_empty {ℓ} : {A : Type ℓ} → Option (Dict String A) → Result (Dict String A)
not_empty none = raise error
not_empty (some []) = raise error
not_empty (some (e ∷ d)) = ok (e ∷ d)

module _ (parser : IpParser) (compile : Compile) (topology : TopologyMap) where
  -- build pools
  unfoldable pub pools_from_config :
      Dict String PoolConfig → Dict String Pool → Result (Dict String Pool)
  pools_from_config [] pools = ok pools
  pools_from_config ((name, obj) ∷ rest) pools = do
    raise_if (contains name pools) error
    pool ← Config.from_config_dict parser compile topology name obj
    pools_from_config rest (insert name pool pools)

  -- `pool_name not in self.pools`: a list is not hashable
  unfoldable pub check_pool : Dict String Pool → Value → Result (Unit {0})
  check_pool pools (list codes) = raise type_error
  check_pool pools (scalar (str name)) = raise_if (not (contains name pools)) error
  check_pool pools (scalar _) = raise error

  -- build globalnames; the branch of a name that is there twice asks LOG for an attribute that it
  -- does not have
  unfoldable pub names_from_config :
      Dict String Pool
      → Dict String NameConfig
      → Dict String GlobalName
      → Result (Dict String GlobalName)
  unfolding check_pool
  names_from_config pools [] names = ok names
  names_from_config pools ((name, obj) ∷ rest) names = do
    raise_if (contains name names) attribute_error
    pool ← or_raise obj.pool error
    check_pool pools pool
    g ← GlobalName.from_config_dict name obj
    names_from_config pools rest (insert name g names)

  -- _from_config_dict: the pools and the global names
  unfoldable pub from_config_dict : LbConfig → Result (Dict String Pool × Dict String GlobalName)
  unfolding pools_from_config names_from_config not_empty
  from_config_dict obj = do
    pool_configs ← not_empty obj.pools
    pools ← pools_from_config pool_configs []
    name_configs ← not_empty obj.globalnames
    names ← names_from_config pools name_configs []
    ok (pools, names)

  -- State.__init__
  unfoldable pub new : (ℕ → ℕ) → LbConfig → Result State
  unfolding from_config_dict
  new at obj = do built ← from_config_dict obj; ok (init at built.0 built.1)
