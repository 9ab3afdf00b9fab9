-- ===== src/Topology/Regions.antt =====
-- What `config_to_map` builds of a configuration.
use polaris_gslb.Prelude.{
  ◌≡◌, refl, ap, ◌∙◌, ◌⊎◌, String, Bool, true, Option, none, some, List, [], ◌∷◌, arith, exists,
  if◌then◌else◌, Option-cases, Bool-cases, inl, inr,
}
use polaris_gslb.Prelude.Eq.{◌==◌, string_eq, option_eq}
use polaris_gslb.Prelude.Dict.{insert, Dict, keys, lookup, lookup-insert}
use polaris_gslb.Prelude.Result.{>>=-eq-ok, ok, raise, value_error, raise_if}
use polaris_gslb.Topology.{
  Network, network_eq, IpParser, TopologyMap, add_networks, add_regions, config_to_map,
}

module _ (parser : IpParser) where
  -- The region's list names the network.
  abbrev pub lists : Network → List String → Bool
  lists net nets = exists (λ s. parser.ip_network s == some net) nets

  -- The last region of the configuration whose list names the network.
  abbrev pub last_region : Network → Dict String (List String) → Option String → Option String
  last_region net [] o = o
  last_region net ((region, nets) ∷ rest) o =
      last_region net rest (if lists net nets then some region else o)

  add_networks-lookup :
      (region : String) (nets : List String) (m m' : TopologyMap) (net : Network)
      → add_networks parser region nets m ≡ ok m'
      → lookup net m' ≡ (if lists net nets then some region else lookup net m)
  unfolding add_networks
  add_networks-lookup region [] m m' net h = ground arith
  add_networks-lookup region (s ∷ rest) m m' net h = elim (Option-cases (parser.ip_network s)) [
    | inl bad ↦ absurd (ground arith)
    | inr (n, good) ↦
        let ih = add_networks-lookup region rest (insert n region m) m' net (ground arith) in
        ground (arith, lookup-insert n net region m)
  ]

  add_regions-lookup :
      (config : Dict String (List String)) (m m' : TopologyMap) (net : Network)
      → add_regions parser config m ≡ ok m'
      → lookup net m' ≡ last_region net config (lookup net m)
  unfolding add_regions
  add_regions-lookup [] m m' net h = ground arith
  add_regions-lookup ((region, nets) ∷ rest) m m' net h =
      let (_, _, h₁) = >>=-eq-ok (raise_if (region == "_default") value_error) _ h in
      let (m₁, added, h₂) = >>=-eq-ok (add_networks parser region nets m) _ h₁ in
      add_regions-lookup rest m₁ m' net h₂
      ∙ ap (last_region net rest) (add_networks-lookup region nets m m₁ net added)

  -- A map that is built holds, for every network, the last region whose list names it.
  pub config_to_map-lookup :
      (config : Dict String (List String)) (m : TopologyMap) (net : Network)
      → config_to_map parser config ≡ ok m
      → lookup net m ≡ last_region net config none
  unfolding config_to_map lookup
  config_to_map-lookup config m net h = add_regions-lookup config [] m net h

  add_networks_error :
      (region : String) (nets : List String) (m : TopologyMap)
      → ((m' : TopologyMap) × (add_networks parser region nets m ≡ ok m'))
        ⊎ (add_networks parser region nets m ≡ raise value_error)
  unfolding add_networks
  add_networks_error region [] m = inl (m, refl)
  add_networks_error region (s ∷ rest) m = elim (Option-cases (parser.ip_network s)) [
    | inl bad ↦ inr (rw bad)
    | inr (n, good) ↦ rw good (add_networks_error region rest (insert n region m))
  ]

  reserved_raises :
      (config : Dict String (List String)) (m : TopologyMap)
      → exists (λ region. region == "_default") (keys config) ≡ true
      → add_regions parser config m ≡ raise value_error
  unfolding add_regions
  reserved_raises [] m h = cc
  reserved_raises ((region, nets) ∷ rest) m h = elim (Bool-cases (region == "_default")) [
    | inl yes' ↦ rw yes'
    | inr no' ↦ elim (add_networks_error region nets m) [
      | inl (m₁, e) ↦ rw (no', e) (reserved_raises rest m₁ (rw no' at h))
      | inr e ↦ rw (no', e)
    ]
  ]

  -- A configuration that names a region `_default` is refused with a ValueError.
  config_to_map-reserved :
      (config : Dict String (List String))
      → exists (λ region. region == "_default") (keys config) ≡ true
      → config_to_map parser config ≡ raise value_error
  unfolding config_to_map
  config_to_map-reserved config h = reserved_raises config [] h
