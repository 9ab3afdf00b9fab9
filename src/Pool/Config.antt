-- ===== src/Pool/Config.antt =====
-- state/pool.py: PoolMember.__init__, Pool.__init__ and Pool.from_config_dict.
use polaris_gslb.Prelude.{
  String, Bool, true, false, Option, none, some, List, [], ◌∷◌, ◌++◌, exists, if◌then◌else◌, count,
  leb,
}
use polaris_gslb.Prelude.Eq.{◌==◌, string_eq}
use polaris_gslb.Prelude.Dict.{value_or}
use polaris_gslb.Prelude.Result.{
  Result, ok, raise, raise_if, or_raise, error, key_error, type_error, ◌>>=◌, ◌>>◌,
}
use polaris_gslb.Prelude.Int.{pos}
use polaris_gslb.Config.{
  Scalar, Value, scalar, list, str, MemberConfig, PoolConfig, as_str, int_within, str_at_most,
}
use polaris_gslb.Topology.{IpParser, IpAddress, v4, TopologyMap, get_region}
use polaris_gslb.Monitors.{Monitor}
use polaris_gslb.Monitors.Build.{Compile, Kwargs, build}
use polaris_gslb.Pool.{Member, Pool, LbMethod, wrr, twrr, fogroup, Fallback, any, refuse}

abbrev is_v4 : Option IpAddress → Bool
is_v4 (some (v4 n)) = true
is_v4 _ = false

-- the tests of an address: it parses, and its version is 4
unfoldable pub check_v4 : IpParser → String → Result String
check_v4 parser ip = if is_v4 (parser.ip_address ip) then ok ip else raise error

-- monitor_ip, which is the member's ip if it is None
unfoldable pub check_monitor_ip : IpParser → String → Option String → Result String
unfolding check_v4
check_monitor_ip parser ip none = ok ip
check_monitor_ip parser ip (some monitor_ip) = check_v4 parser monitor_ip

abbrev pub at_most_256 : Option String → Result (Option String)
at_most_256 none = ok none
at_most_256 (some region) = if leb (count region) 256 then ok (some region) else raise error

-- PoolMember.__init__
unfoldable pub member_init :
    IpParser → String → Value → Value → Option String → Option String → Result Member
unfolding check_v4 check_monitor_ip
member_init parser ip name weight region monitor_ip = do
  address ← check_v4 parser ip
  name' ← or_raise (str_at_most 256 name) error
  weight' ← or_raise (int_within 0 10 weight) error
  region' ← at_most_256 region
  monitor_ip' ← check_monitor_ip parser address monitor_ip
  ok (record {
    ip = address;
    name = name';
    weight = weight';
    region = region';
    monitor_ip = monitor_ip';
    status = none;
    status_reason = none;
    retries_left = none;
  })

-- lb_method in Pool.LB_METHOD_OPTIONS, and fallback in Pool.FALLBACK_OPTIONS
abbrev pub lb_method_named : String → Option LbMethod
lb_method_named s =
    if s == "wrr"
    then some wrr
    else if s == "twrr"
    then some twrr
    else if s == "fogroup"
    then some fogroup
    else none

abbrev pub fallback_named : String → Option Fallback
fallback_named s = if s == "any" then some any else if s == "refuse" then some refuse else none

abbrev pub chosen {ℓ} : {A : Type ℓ} → (String → Option A) → Option String → Option A
chosen named none = none
chosen named (some s) = named s

-- Pool.__init__
unfoldable pub pool_init : String → Monitor → List Member → Value → Value → Value → Result Pool
pool_init name monitor members lb_method fallback max_addrs = do
  name' ← or_raise (str_at_most 256 (scalar (str name))) error
  lb ← or_raise (chosen lb_method_named (as_str lb_method)) error
  fb ← or_raise (chosen fallback_named (as_str fallback)) error
  max ← or_raise (int_within 1 1024 max_addrs) error
  ok (record {
    name = name';
    monitor = monitor;
    members = members;
    lb_method = lb;
    fallback = fb;
    max_addrs_returned = max;
    last_status = none;
  })

-- the name of a registered monitor: a list is not hashable
unfoldable pub check_monitor : Value → Result String
check_monitor (list codes) = raise type_error
check_monitor (scalar (str s)) =
    if exists (λ k. k == s) ("http" ∷ "tcp" ∷ "forced" ∷ []) then ok s else raise error
check_monitor (scalar _) = raise error

-- monitor_params, which must not be empty if it is there
unfoldable pub check_params : Option Kwargs → Result Kwargs
check_params none = ok []
check_params (some []) = raise error
check_params (some (p ∷ ps)) = ok (p ∷ ps)

abbrev pub is_method : String → Value → Bool
is_method s (scalar (str t)) = t == s
is_method s _ = false

-- `if not region`, which an empty str is too; the message needs the member's name
unfoldable pub check_region : Option Value → Option String → Result (Option String)
check_region name none = or_raise name key_error >>= λ _. raise error
check_region name (some region) =
    if region == "" then (or_raise name key_error >>= λ _. raise error) else ok (some region)

-- the region of a member, if the pool uses twrr
unfoldable pub member_region :
    IpParser → TopologyMap → Value → String → Option Value → Result (Option String)
unfolding check_region
member_region parser topology lb_method ip name =
    if is_method "twrr" lb_method
    then get_region parser ip topology >>= check_region name
    else ok none

-- `None` for a monitor_ip that is not there
abbrev pub given : Option (Option String) → Option String
given o = value_or o none

-- the body of the loop over obj['members']
unfoldable pub member_from_config :
    IpParser → TopologyMap → Value → List Member → MemberConfig → Result Member
unfolding member_region member_init
member_from_config parser topology lb_method members obj = do
  ip ← or_raise obj.ip key_error
  raise_if (exists (λ m. ip == m.ip) members) error
  region ← member_region parser topology lb_method ip obj.name
  name ← or_raise obj.name key_error
  weight ← or_raise obj.weight key_error
  member_init parser ip name weight region (given obj.monitor_ip)

unfoldable pub members_from_config :
    IpParser → TopologyMap → Value → List Member → List MemberConfig → Result (List Member)
unfolding member_from_config
members_from_config parser topology lb_method members [] = ok members
members_from_config parser topology lb_method members (obj ∷ rest) = do
  m ← member_from_config parser topology lb_method members obj
  members_from_config parser topology lb_method (members ++ m ∷ []) rest

-- the "members" key, which must be there and not empty
unfoldable pub check_members : Option (List MemberConfig) → Result (List MemberConfig)
check_members none = raise error
check_members (some []) = raise error
check_members (some (m ∷ ms)) = ok (m ∷ ms)

-- Pool.from_config_dict
unfoldable pub from_config_dict :
    IpParser → Compile → TopologyMap → String → PoolConfig → Result Pool
unfolding check_monitor check_params build check_members members_from_config pool_init
from_config_dict parser compile topology pool_name obj = do
  named ← or_raise obj.monitor key_error
  monitor_name ← check_monitor named
  params ← check_params obj.monitor_params
  monitor ← build compile monitor_name params
  lb_method ← or_raise obj.lb_method key_error
  configs ← check_members obj.members
  members ← members_from_config parser topology lb_method [] configs
  pool_init pool_name monitor members lb_method (value_or obj.fallback (scalar (str "any")))
      (value_or obj.max_addrs_returned (scalar (Scalar.int (pos 1))))
