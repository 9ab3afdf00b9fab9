-- ===== src/Topology/Apart.antt =====
-- The regions of a map that was built, and of the clients that it locates.
use polaris_gslb.Prelude.{◌≡◌, refl, sym, subst, String, false, Option, none, some, List, [], ◌∷◌}
use polaris_gslb.Prelude.Eq.{◌==◌, string_eq, option_eq, beq-false_of_ne, ne_of_beq-false}
use polaris_gslb.Prelude.Dict.{insert, Dict, lookup, AllValues, AllValues-insert, AllValues-lookup}
use polaris_gslb.Prelude.Result.{
  >>=-eq-ok, raise_if-eq-ok, ok_injective, or_raise-some, ok, or_raise, key_error, value_error,
  raise_if,
}
use polaris_gslb.Pool.Dist.{default_name}
use polaris_gslb.Topology.{
  Network, network_eq, IpParser, TopologyMap, add_networks, add_regions, config_to_map, region_of,
  get_region,
}

-- The region of some network of the map, or none.
abbrev pub IsInMap : TopologyMap → Option String → Type 0
IsInMap m none = Unit
IsInMap m (some region) = (net : Network) × (lookup net m ≡ some region)

region_of-IsInMap :
    (m : TopologyMap) (o : Option Network) {region : Option String}
    → region_of m o ≡ ok region
    → IsInMap m region
region_of-IsInMap m none {region} h = subst (IsInMap m) (ok_injective none region h) tt
region_of-IsInMap m (some net) {region} h =
    let (r, found, h₁) = >>=-eq-ok (or_raise (lookup net m) key_error) _ h in
    subst (IsInMap m) (ok_injective (some r) region h₁)
      (net, or_raise-some (lookup net m) key_error found)

pub get_region-IsInMap :
    (parser : IpParser) (ip : String) (m : TopologyMap) {region : Option String}
    → get_region parser ip m ≡ ok region
    → IsInMap m region
unfolding get_region
get_region-IsInMap parser ip m h =
    let (_, _, h₁) = >>=-eq-ok (or_raise (parser.ip_address ip) value_error) _ h in
    region_of-IsInMap m _ h₁

-- No network of the map has the region `_default`.
abbrev pub HasNoDefault : TopologyMap → Type 0
HasNoDefault m = AllValues (λ region. (region == "_default") ≡ false) m

add_networks-HasNoDefault :
    (parser : IpParser) (region : String) (nets : List String) (m : TopologyMap) {m' : TopologyMap}
    → (region == "_default") ≡ false
    → HasNoDefault m
    → add_networks parser region nets m ≡ ok m'
    → HasNoDefault m'
unfolding add_networks
add_networks-HasNoDefault parser region [] m {m'} other all h =
    subst HasNoDefault (ok_injective m m' h) all
add_networks-HasNoDefault parser region (s ∷ nets) m other all h =
    let (net, _, h₁) = >>=-eq-ok (or_raise (parser.ip_network s) value_error) _ h in
    add_networks-HasNoDefault parser region nets (insert net region m) other
      (AllValues-insert (λ region. (region == "_default") ≡ false) net region m other all) h₁

add_regions-HasNoDefault :
    (parser : IpParser) (config : Dict String (List String)) (m : TopologyMap) {m' : TopologyMap}
    → HasNoDefault m
    → add_regions parser config m ≡ ok m'
    → HasNoDefault m'
unfolding add_regions
add_regions-HasNoDefault parser [] m {m'} all h = subst HasNoDefault (ok_injective m m' h) all
add_regions-HasNoDefault parser ((region, nets) ∷ config) m all h =
    let (_, kept, h₁) = >>=-eq-ok (raise_if (region == "_default") value_error) _ h in
    let (m₁, added, h₂) = >>=-eq-ok (add_networks parser region nets m) _ h₁ in
    add_regions-HasNoDefault parser config m₁
      (add_networks-HasNoDefault parser region nets m (raise_if-eq-ok _ value_error kept) all added)
      h₂

pub config_to_map-HasNoDefault :
    (parser : IpParser) (config : Dict String (List String)) {m : TopologyMap}
    → config_to_map parser config ≡ ok m
    → HasNoDefault m
unfolding config_to_map
config_to_map-HasNoDefault parser config h = add_regions-HasNoDefault parser config [] tt h

-- A region of such a map is not that of the `_default` table.
pub IsInMap-other :
    (m : TopologyMap) (region : Option String)
    → HasNoDefault m
    → IsInMap m region
    → ((region == default_name) ≡ false) × ((default_name == region) ≡ false)
IsInMap-other m none all h = (refl, refl)
IsInMap-other m (some region) all (net, found) =
    let other = AllValues-lookup (λ region. (region == "_default") ≡ false) net m all found in
    (
      other,
      beq-false_of_ne "_default" region (λ p. ne_of_beq-false region "_default" other (sym p)),
    )
