-- ===== src/State/Checked.antt =====
-- What the configuration's checks ensure of the state that is built.
use polaris_gslb.Prelude.{
  ℕ, ◌≡◌, refl, sym, ap, ◌∙◌, subst, String, true, not, some, List, [], ◌∷◌, arith, All, map,
  length, suc,
}
use polaris_gslb.Prelude.Eq.{string_eq}
use polaris_gslb.Prelude.Dict.{
  Dict, contains, insert, AllValues, AllValues-insert, AllValues-map_values, contains-map_values,
}
use polaris_gslb.Prelude.Result.{
  ok, raise_if, or_raise, error, attribute_error, >>=-eq-ok, raise_if-eq-ok, ok_injective,
  or_raise-some,
}
use polaris_gslb.Config.{
  Value, scalar, list, str, null, bool, int, float, PoolConfig, NameConfig, LbConfig, as_str,
}
use polaris_gslb.Topology.{IpParser, TopologyMap}
use polaris_gslb.Monitors.Build.{Compile}
use polaris_gslb.Pool.{Member, Pool}
use polaris_gslb.Pool.Config
use polaris_gslb.Pool.Checked.{IsNewMember, IsNewPool, from_config_dict-IsNewPool}
use polaris_gslb.GlobalName.{GlobalName}
use polaris_gslb.GlobalName
use polaris_gslb.State.{State}
use polaris_gslb.State.Init.{init, set_retries, with_retries}
use polaris_gslb.State.Config.{
  not_empty, pools_from_config, check_pool, names_from_config, from_config_dict, new,
}
use polaris_gslb.State.Publish.{HasKnownPools}

-- The pool of a global name, as its constructor stores it.
init-pool_name :
    (name : String) (pool ttl : Value) (n : String) (g : GlobalName)
    → as_str pool ≡ some n
    → GlobalName.init name pool ttl ≡ ok g
    → g.pool_name ≡ n
unfolding GlobalName.init
init-pool_name name pool ttl n g text made = ground arith

from_config_dict-pool_name :
    (name : String) (obj : NameConfig) (pool : Value) (n : String) (g : GlobalName)
    → obj.pool ≡ some pool
    → as_str pool ≡ some n
    → GlobalName.from_config_dict name obj ≡ ok g
    → g.pool_name ≡ n
unfolding GlobalName.from_config_dict
from_config_dict-pool_name name obj pool n g given text made =
    let (p, e, made') = >>=-eq-ok (or_raise obj.pool error) _ made in
    let (ttl, _, made'') = >>=-eq-ok (or_raise obj.ttl error) _ made' in
    let same : p ≡ pool = ok_injective p pool (sym e ∙ ap (λ o. or_raise o error) given) in
    init-pool_name name p ttl n g (ap as_str same ∙ text) made''

with_retries-new :
    (topology : TopologyMap) (retries : ℕ) (ms : List Member)
    → All (IsNewMember topology) ms
    → (length (map (with_retries retries) ms) ≡ length ms)
      × All (IsNewMember topology) (map (with_retries retries) ms)
with_retries-new topology retries [] h = (refl, tt)
with_retries-new topology retries (m ∷ ms) h =
    let (count, all) = with_retries-new topology retries ms h.1 in
    (
      ap suc count,
      (record { light = h.0.light; undetermined = h.0.undetermined; regional = h.0.regional }, all),
    )

set_retries-IsNewPool :
    (topology : TopologyMap) (p : Pool) → IsNewPool topology p → IsNewPool topology (set_retries p)
unfolding set_retries
set_retries-IsNewPool topology p h =
    let (count, all) = with_retries-new topology p.monitor.retries p.members h.members_new in
    record {
      has_member = omega (arith, count, h.has_member);
      members_new = all;
      returns_some = h.returns_some;
      returns_at_most = h.returns_at_most;
    }

init-new :
    (topology : TopologyMap) (at : ℕ → ℕ) (pools : Dict String Pool)
    (names : Dict String GlobalName)
    → AllValues (IsNewPool topology) pools
    → AllValues (IsNewPool topology) (init at pools names).pools
unfolding init
init-new topology at pools names all =
    AllValues-map_values (IsNewPool topology) (IsNewPool topology) (λ name p. set_retries p) pools
      (λ name p. set_retries-IsNewPool topology p) all

module _ (parser : IpParser) (compile : Compile) (topology : TopologyMap) where
  check_pool_lem :
      (pools : Dict String Pool) (v : Value) {u : Unit {0}}
      → check_pool parser compile topology pools v ≡ ok u
      → (n : String) × (as_str v ≡ some n) × (contains n pools ≡ true)
  unfolding check_pool
  check_pool_lem pools (list codes) h = cc
  check_pool_lem pools (scalar (str n)) h =
      (n, refl, ground (arith, raise_if-eq-ok (not (contains n pools)) error h))
  check_pool_lem pools (scalar null) h = cc
  check_pool_lem pools (scalar (bool b)) h = cc
  check_pool_lem pools (scalar (int n)) h = cc
  check_pool_lem pools (scalar (float n)) h = cc

  abbrev IsKnown : Dict String Pool → GlobalName → Type 0
  IsKnown pools g = contains g.pool_name pools ≡ true

  names_lem :
      (pools : Dict String Pool) (rest : Dict String NameConfig)
      (names names' : Dict String GlobalName)
      → AllValues (IsKnown pools) names
      → names_from_config parser compile topology pools rest names ≡ ok names'
      → AllValues (IsKnown pools) names'
  unfolding names_from_config
  names_lem pools [] names names' all h =
      subst (AllValues (IsKnown pools)) (ok_injective names names' h) all
  names_lem pools ((name, obj) ∷ rest) names names' all h =
      let (_, _, h₁) = >>=-eq-ok (raise_if (contains name names) attribute_error) _ h in
      let (pool, given, h₂) = >>=-eq-ok (or_raise obj.pool error) _ h₁ in
      let (_, checked, h₃) = >>=-eq-ok (check_pool parser compile topology pools pool) _ h₂ in
      let (g, made, h₄) = >>=-eq-ok (GlobalName.from_config_dict name obj) _ h₃ in
      let (n, text, known) = check_pool_lem pools pool checked in
      let same : g.pool_name ≡ n =
        from_config_dict-pool_name name obj pool n g (or_raise-some obj.pool error given) text
          made in
      names_lem pools rest (insert name g names) names'
        (AllValues-insert (IsKnown pools) name g names (ap (λ k. contains k pools) same ∙ known)
          all)
        h₄

  from_config_dict-IsKnown :
      (obj : LbConfig) (pools : Dict String Pool) (names : Dict String GlobalName)
      → from_config_dict parser compile topology obj ≡ ok (pools, names)
      → AllValues (IsKnown pools) names
  unfolding from_config_dict
  from_config_dict-IsKnown obj pools names h =
      let (pool_configs, _, h₁) = >>=-eq-ok (not_empty obj.pools) _ h in
      let (pools', _, h₂) =
        >>=-eq-ok (pools_from_config parser compile topology pool_configs []) _ h₁ in
      let (name_configs, _, h₃) = >>=-eq-ok (not_empty obj.globalnames) _ h₂ in
      let (names', named, h₄) =
        >>=-eq-ok (names_from_config parser compile topology pools' name_configs []) _ h₃ in
      let same = ok_injective (pools', names') (pools, names) h₄ in
      subst (λ built. AllValues (IsKnown built.0) built.1) same
        (names_lem pools' name_configs [] names' tt named)

  init-HasKnownPools :
      (at : ℕ → ℕ) (pools : Dict String Pool) (names : Dict String GlobalName)
      → AllValues (IsKnown pools) names
      → HasKnownPools (init at pools names)
  unfolding init
  init-HasKnownPools at pools [] known = tt
  init-HasKnownPools at pools ((name, g) ∷ names) known =
      (contains-map_values _ g.pool_name pools ∙ known.0, init-HasKnownPools at pools names known.1)

  pools_lem :
      (rest : Dict String PoolConfig) (pools : Dict String Pool) {pools' : Dict String Pool}
      → AllValues (IsNewPool topology) pools
      → pools_from_config parser compile topology rest pools ≡ ok pools'
      → AllValues (IsNewPool topology) pools'
  unfolding pools_from_config
  pools_lem [] pools {pools'} all h =
      subst (AllValues (IsNewPool topology)) (ok_injective pools pools' h) all
  pools_lem ((name, obj) ∷ rest) pools all h =
      let (_, _, h₁) = >>=-eq-ok (raise_if (contains name pools) error) _ h in
      let (p, made, h₂) =
        >>=-eq-ok (Config.from_config_dict parser compile topology name obj) _ h₁ in
      pools_lem rest (insert name p pools)
        (AllValues-insert (IsNewPool topology) name p pools
          (from_config_dict-IsNewPool parser compile topology name obj made) all)
        h₂

  from_config_dict-IsNewPool_pools :
      (obj : LbConfig) (pools : Dict String Pool) (names : Dict String GlobalName)
      → from_config_dict parser compile topology obj ≡ ok (pools, names)
      → AllValues (IsNewPool topology) pools
  unfolding from_config_dict
  from_config_dict-IsNewPool_pools obj pools names h =
      let (pool_configs, _, h₁) = >>=-eq-ok (not_empty obj.pools) _ h in
      let (pools', built, h₂) =
        >>=-eq-ok (pools_from_config parser compile topology pool_configs []) _ h₁ in
      let (name_configs, _, h₃) = >>=-eq-ok (not_empty obj.globalnames) _ h₂ in
      let (names', _, h₄) =
        >>=-eq-ok (names_from_config parser compile topology pools' name_configs []) _ h₃ in
      let same = ok_injective (pools', names') (pools, names) h₄ in
      subst (AllValues (IsNewPool topology)) (ap (λ built. built.0) same)
        (pools_lem pool_configs [] tt built)

  -- A state that is built from a configuration: every global name refers to a pool, and every pool
  -- has members, all of them new, of a weight of at most 10 and in a region of the topology map or in
  -- none, and returns between 1 and 1024 addresses.
  pub new-IsSound :
      (at : ℕ → ℕ) (obj : LbConfig) (s : State)
      → new parser compile topology at obj ≡ ok s
      → HasKnownPools s × AllValues (IsNewPool topology) s.pools
  unfolding new
  new-IsSound at obj s h =
      let ((pools, names), built, made) =
        >>=-eq-ok (from_config_dict parser compile topology obj) _ h in
      let same = ok_injective (init at pools names) s made in
      (
        subst HasKnownPools same
            (init-HasKnownPools at pools names (from_config_dict-IsKnown obj pools names built)),
        subst (λ s. AllValues (IsNewPool topology) s.pools) same
            (init-new topology at pools names
              (from_config_dict-IsNewPool_pools obj pools names built)),
      )
