-- ===== src/Topology.antt =====
-- polaris_common/topology.py: regions, networks, and the region of a client.
pub mod Apart
pub mod Longest
pub mod Regions
use polaris_gslb.Prelude.{
  ℕ, ◌-◌, ◌*◌, ◌/◌, ◌^◌, ◌≡◌, ◌↔◌, String, Bool, true, false, ◌&&◌, Option, none, some, List, [],
  ◌∷◌, ap, arith, length, select, eqb, leb, eqb_iff, if◌then◌else◌,
}
use polaris_gslb.Prelude.Eq.{bool_beq, Eq, ◌==◌, string_eq}
use polaris_gslb.Prelude.Dict.{Dict, keys, lookup, insert}
use polaris_gslb.Prelude.Result.{
  Result, ok, raise, value_error, key_error, or_raise, raise_if, ◌>>=◌, ◌>>◌,
}

-- the addresses of Python's `ipaddress` module
pub data IpAddress : Type 0 where
  v4 v6 : ℕ → IpAddress

-- A network: whether it is of version 6, its network address and the length of its prefix.
pub record Network : Type 0 where
  pub six : Bool
  pub address : ℕ
  pub prefixlen : ℕ

-- What the program takes from the `ipaddress` module: the parsers, `none` being a ValueError.
pub record IpParser : Type 0 where
  pub ip_address : String → Option IpAddress
  pub ip_network : String → Option Network

abbrev pub network_eqb : Network → Network → Bool
network_eqb a b = bool_beq a.six b.six && (eqb a.address b.address && eqb a.prefixlen b.prefixlen)

pub network_eqb_iff : (a b : Network) → (network_eqb a b ≡ true) ↔ (a ≡ b)
network_eqb_iff a b = (λ h. ground arith, λ h. ground arith)

instance abbrev pub network_eq : Eq Network
network_eq = record { beq = network_eqb; beq_iff = network_eqb_iff }

abbrev pub masked : ℕ → ℕ → ℕ
masked value host_bits = value / 2 ^ host_bits * 2 ^ host_bits

-- ip in net: the versions agree, and the address under the netmask is the network's
unfoldable pub in_network : IpAddress → Network → Bool
in_network (v4 n) net = if net.six then false else eqb (masked n (32 - net.prefixlen)) net.address
in_network (v6 n) net = if net.six then eqb (masked n (128 - net.prefixlen)) net.address else false

abbrev pub TopologyMap : Type 0
TopologyMap = Dict Network String

module _ (parser : IpParser) where
  -- the inner loop of config_to_map
  unfoldable pub add_networks : String → List String → TopologyMap → Result TopologyMap
  add_networks region [] m = ok m
  add_networks region (net_str ∷ rest) m = do
    net ← or_raise (parser.ip_network net_str) value_error
    add_networks region rest (insert net region m)

  -- the outer loop of config_to_map
  unfoldable pub add_regions : Dict String (List String) → TopologyMap → Result TopologyMap
  unfolding add_networks
  add_regions [] m = ok m
  add_regions ((region, nets) ∷ rest) m = do
    raise_if (region == "_default") value_error
    m' ← add_networks region nets m
    add_regions rest m'

  unfoldable pub config_to_map : Dict String (List String) → Result TopologyMap
  unfolding add_regions
  config_to_map config = add_regions config []

-- list.sort(key=lambda net: net.prefixlen), which is stable
unfoldable pub insert_sorted : Network → List Network → List Network
insert_sorted x [] = x ∷ []
insert_sorted x (y ∷ ys) =
    if leb x.prefixlen y.prefixlen then x ∷ y ∷ ys else y ∷ insert_sorted x ys

unfoldable pub sort_networks : List Network → List Network
unfolding insert_sorted
sort_networks [] = []
sort_networks (x ∷ xs) = insert_sorted x (sort_networks xs)

-- l[-1]
abbrev pub get_last? : List Network → Option Network
get_last? [] = none
get_last? (x ∷ []) = some x
get_last? (x ∷ y ∷ l) = get_last? (y ∷ l)

-- the entry of the best match: the only one, or the last one of the sorted list
unfoldable pub best_match : List Network → Option Network
unfolding sort_networks
best_match [] = none
best_match (n ∷ []) = some n
best_match (n ∷ m ∷ rest) = get_last? (sort_networks (n ∷ m ∷ rest))

abbrev pub region_of : TopologyMap → Option Network → Result (Option String)
region_of m none = ok none
region_of m (some net) = do region ← or_raise (lookup net m) key_error; ok (some region)

unfoldable pub get_region : IpParser → String → TopologyMap → Result (Option String)
unfolding in_network best_match
get_region parser ip_str m = do
  ip ← or_raise (parser.ip_address ip_str) value_error
  region_of m (best_match (select (in_network ip) (keys m)))
