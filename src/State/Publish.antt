-- ===== src/State/Publish.antt =====
-- state/__init__.py, `State.to_dist_dict`, as polaris_pdns sees it: a published state is ready, and
-- names are looked up in lower case.
use polaris_gslb.Prelude.{
  ℕ, ◌≡◌, refl, sym, ap, ◌∙◌, String, true, false, some, [], ◌∷◌, lower, lower_idem, rstrip_dots,
  ◌≢◌, All, List,
}
use polaris_gslb.Prelude.Eq.{◌==◌, string_eq, beq-false_of_ne}
use polaris_gslb.Prelude.Dict.{
  Dict, contains, keys, AllValues, AllValues-map_values, contains-map_values, map_values,
}
use polaris_gslb.Pool.{Pool}
use polaris_gslb.Pool.Dist.{Rng}
use polaris_gslb.Pool.Servable.{to_dist_dict-servable}
use polaris_gslb.GlobalName
use polaris_gslb.GlobalName.{GlobalName}
use polaris_gslb.State.{State, to_dist_dict}
use polaris_gslb.Topology.{IpParser}
use polaris_gslb.Pdns.{Config, Server}
use polaris_gslb.Pdns.Answers.{Params, do_lookup}
use polaris_gslb.Pdns.Queries.{asked}
use polaris_gslb.Pdns.Refusals.{IsRefused, do_lookup-unknown}
use polaris_gslb.Pdns.Ready.{IsReadyPool, IsReady}

-- Every global name refers to a pool.
abbrev pub HasKnownPools : State → Type 0
HasKnownPools s = AllValues (λ g. contains g.pool_name s.pools ≡ true) s.globalnames

all_pools : (pools : Dict String Pool) → AllValues (λ _. Unit {0}) pools
all_pools [] = tt
all_pools ((name, p) ∷ pools) = (tt, all_pools pools)

-- What State publishes is ready to be served from, if every global name refers to a pool.
pub to_dist_dict-IsReady :
    (now : ℕ) (rng : String → Rng) (s : State) → HasKnownPools s → IsReady (to_dist_dict now rng s)
unfolding to_dist_dict GlobalName.to_dist_dict map_values
to_dist_dict-IsReady now rng s known = record {
  pools_ready =
      AllValues-map_values (λ _. Unit {0}) IsReadyPool _ s.pools
        (λ name p _. record {
          has_default = (to_dist_dict-servable (rng name) p).0;
          servable = (to_dist_dict-servable (rng name) p).1;
        })
        (all_pools s.pools);
  names_known =
      AllValues-map_values (λ g. contains g.pool_name s.pools ≡ true) _ _ s.globalnames
        (λ name g h. contains-map_values _ g.pool_name s.pools ∙ h) known;
}

-- A key that has an upper-case letter.
abbrev pub IsMixedCase : String → Type 0
IsMixedCase k = lower k ≢ k

-- Every key that spells a name, but for case, has an upper-case letter.
abbrev pub AreMixedCase : String → List String → Type 0
AreMixedCase name ks = All (λ k. lower k ≡ name → IsMixedCase k) ks

unfound :
    (names : Dict String GlobalName) (s : String)
    → AreMixedCase (lower s) (keys names)
    → contains (lower s) names ≡ false
unfolding contains
unfound [] s h = refl
unfound ((k, g) ∷ names) s h =
    let other : (k == lower s) ≡ false =
      beq-false_of_ne k (lower s)
        (λ e. h.0 (ap lower e ∙ lower_idem s) (ap lower e ∙ (lower_idem s ∙ sym e))) in
    rw other (unfound names s h.1)

-- A global name whose key in the configuration has an upper-case letter is never found. On a published
-- state, a query is refused, whatever its type, if every key that spells the name that is asked, but
-- for case, has an upper-case letter; other names may be configured in any way.
pub do_lookup-mixed_case :
    (parser : IpParser) (config : Config) (params : Params) (now : ℕ) (rng : String → Rng)
    (s : State) (server : Server)
    → server.state ≡ some (to_dist_dict now rng s)
    → AreMixedCase (asked params) (keys s.globalnames)
    → IsRefused server (do_lookup parser config params server)
unfolding to_dist_dict
do_lookup-mixed_case parser config params now rng s server held mixed =
    do_lookup-unknown parser config params server (to_dist_dict now rng s) held (
      contains-map_values (λ name g. GlobalName.to_dist_dict g) (asked params) s.globalnames
      ∙ unfound s.globalnames (rstrip_dots params.qname) mixed)
