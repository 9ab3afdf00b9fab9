-- ===== src/Pool/Checked.antt =====
-- What the checks of a configuration ensure of a pool.
use polaris_gslb.Prelude.{
  ℕ, ◌+◌, ◌≤◌, ◌<◌, ◌≡◌, refl, sym, ap, subst, String, Option, none, some, List, [], ◌∷◌, ◌++◌,
  arith, length, length-append, All, exists, Bool-cases, inl, inr,
}
use polaris_gslb.Prelude.Int.{ℤ, pos, negsuc}
use polaris_gslb.Prelude.Result.{ok, raise_if, or_raise, error, key_error, >>=-eq-ok, ok_injective}
use polaris_gslb.Prelude.Eq.{◌==◌, string_eq}
use polaris_gslb.Prelude.Dict.{value_or}
use polaris_gslb.Config.{
  Value, scalar, str, int, MemberConfig, PoolConfig, within_option, int_within, as_int, str_at_most,
  as_str,
}
use polaris_gslb.Topology.{IpParser, TopologyMap, get_region}
use polaris_gslb.Topology.Apart.{IsInMap, get_region-IsInMap}
use polaris_gslb.Monitors.{Monitor}
use polaris_gslb.Monitors.Build.{Compile, build}
use polaris_gslb.Pool.{Member, Pool}
use polaris_gslb.Pool.Config.{
  is_method, check_monitor, check_params, check_region, member_region, check_v4, check_monitor_ip,
  at_most_256, member_init, pool_init, member_from_config, members_from_config, check_members,
  from_config_dict, chosen, lb_method_named, fallback_named,
}

-- A member that is new, with a weight of at most 10, in a region of the topology map or in none.
pub record IsNewMember (topology : TopologyMap) (m : Member) : Type 0 where
  pub light : m.weight ≤ 10
  pub undetermined : m.status ≡ none
  pub regional : IsInMap topology m.region

-- A pool with members, all of them new, that returns between 1 and 1024 addresses.
pub record IsNewPool (topology : TopologyMap) (p : Pool) : Type 0 where
  pub has_member : 0 < length p.members
  pub members_new : All (IsNewMember topology) p.members
  pub returns_some : 0 < p.max_addrs_returned
  pub returns_at_most : p.max_addrs_returned ≤ 1024

within_lem :
    (low high : ℕ) (o : Option ℤ) {n : ℕ}
    → or_raise (within_option low high o) error ≡ ok n
    → (low ≤ n) × (n ≤ high)
within_lem low high none h = cc
within_lem low high (some (negsuc k)) h = cc
within_lem low high (some (pos k)) h = ground arith

at_most_256-same :
    (region : Option String) {r : Option String} → at_most_256 region ≡ ok r → r ≡ region
at_most_256-same none h = ground arith
at_most_256-same (some region) h = ground arith

check_region-IsInMap :
    (topology : TopologyMap) (name : Option Value) (region : Option String) {r : Option String}
    → IsInMap topology region
    → check_region name region ≡ ok r
    → IsInMap topology r
unfolding check_region
check_region-IsInMap topology name none located h =
    let (_, _, h₁) = >>=-eq-ok (or_raise name key_error) _ h in absurd (cc h₁)
check_region-IsInMap topology name (some region) located h = elim (Bool-cases (region == "")) [
  | inl empty ↦
      let (_, _, h₁) = >>=-eq-ok (or_raise name key_error) _ (rw empty at h) in absurd (cc h₁)
  | inr full ↦ subst (IsInMap topology) (ok_injective (some region) _ (rw full at h)) located
]

member_region-IsInMap :
    (parser : IpParser) (topology : TopologyMap) (lb : Value) (ip : String) (name : Option Value)
    {region : Option String}
    → member_region parser topology lb ip name ≡ ok region
    → IsInMap topology region
unfolding member_region
member_region-IsInMap parser topology lb ip name h = elim (Bool-cases (is_method "twrr" lb)) [
  | inl regional ↦
      let (region, found, h₁) = >>=-eq-ok (get_region parser ip topology) _ (rw regional at h) in
      check_region-IsInMap topology name region (get_region-IsInMap parser ip topology found) h₁
  | inr plain ↦ subst (IsInMap topology) (ok_injective none _ (rw plain at h)) tt
]

member_init-IsNewMember :
    (parser : IpParser) (topology : TopologyMap) (ip : String) (name weight : Value)
    (region monitor_ip : Option String) {m : Member}
    → IsInMap topology region
    → member_init parser ip name weight region monitor_ip ≡ ok m
    → IsNewMember topology m
unfolding member_init
member_init-IsNewMember parser topology ip name weight region monitor_ip located h =
    let (_, _, h₁) = >>=-eq-ok (check_v4 parser ip) _ h in
    let (_, _, h₂) = >>=-eq-ok (or_raise (str_at_most 256 name) error) _ h₁ in
    let (w, weighed, h₃) = >>=-eq-ok (or_raise (int_within 0 10 weight) error) _ h₂ in
    let (region', short, h₄) = >>=-eq-ok (at_most_256 region) _ h₃ in
    let (_, _, h₅) = >>=-eq-ok (check_monitor_ip parser _ monitor_ip) _ h₄ in
    subst (IsNewMember topology) (ok_injective _ _ h₅) (record {
      light = (within_lem 0 10 (as_int weight) weighed).1;
      undetermined = refl;
      regional = subst (IsInMap topology) (sym (at_most_256-same region short)) located;
    })

member_from_config-IsNewMember :
    (parser : IpParser) (topology : TopologyMap) (lb : Value) (ms : List Member)
    (obj : MemberConfig) {m : Member}
    → member_from_config parser topology lb ms obj ≡ ok m
    → IsNewMember topology m
unfolding member_from_config
member_from_config-IsNewMember parser topology lb ms obj h =
    let (ip, _, h₁) = >>=-eq-ok (or_raise obj.ip key_error) _ h in
    let (_, _, h₂) = >>=-eq-ok (raise_if (exists (λ m. ip == m.ip) ms) error) _ h₁ in
    let (region, chosen_region, h₃) =
      >>=-eq-ok (member_region parser topology lb ip obj.name) _ h₂ in
    let (name, _, h₄) = >>=-eq-ok (or_raise obj.name key_error) _ h₃ in
    let (weight, _, h₅) = >>=-eq-ok (or_raise obj.weight key_error) _ h₄ in
    member_init-IsNewMember parser topology ip name weight region _
      (member_region-IsInMap parser topology lb ip obj.name chosen_region) h₅

All-append_one :
    (P : Member → Type 0) (ms : List Member) (m : Member) → All P ms → P m → All P (ms ++ m ∷ [])
All-append_one P [] m all one = (one, tt)
All-append_one P (n ∷ ms) m all one = (all.0, All-append_one P ms m all.1 one)

members_lem :
    (parser : IpParser) (topology : TopologyMap) (lb : Value) (ms : List Member)
    (objs : List MemberConfig) {ms' : List Member}
    → All (IsNewMember topology) ms
    → members_from_config parser topology lb ms objs ≡ ok ms'
    → All (IsNewMember topology) ms' × (length ms' ≡ length ms + length objs)
unfolding members_from_config
members_lem parser topology lb ms [] {ms'} all h =
    let same = ok_injective ms ms' h in
    (subst (All (IsNewMember topology)) same all, omega (arith, ap length same))
members_lem parser topology lb ms (obj ∷ objs) {ms'} all h =
    let (m, made, h₁) = >>=-eq-ok (member_from_config parser topology lb ms obj) _ h in
    let (all', count) =
      members_lem parser topology lb (ms ++ m ∷ []) objs
        (All-append_one (IsNewMember topology) ms m all
          (member_from_config-IsNewMember parser topology lb ms obj made))
        h₁ in
    (all', omega (arith, count, length-append ms (m ∷ [])))

check_members-length :
    (o : Option (List MemberConfig)) {configs : List MemberConfig}
    → check_members o ≡ ok configs
    → 0 < length configs
unfolding check_members
check_members-length none h = cc
check_members-length (some []) h = cc
check_members-length (some (c ∷ cs)) {configs} h =
    omega (arith, ap length (ok_injective (c ∷ cs) configs h))

pool_init-IsNewPool :
    (topology : TopologyMap) (name : String) (monitor : Monitor) (ms : List Member)
    (lb fb max : Value) {p : Pool}
    → All (IsNewMember topology) ms
    → 0 < length ms
    → pool_init name monitor ms lb fb max ≡ ok p
    → IsNewPool topology p
unfolding pool_init
pool_init-IsNewPool topology name monitor ms lb fb max all some_member h =
    let (_, _, h₁) = >>=-eq-ok (or_raise (str_at_most 256 (scalar (str name))) error) _ h in
    let (_, _, h₂) = >>=-eq-ok (or_raise (chosen lb_method_named (as_str lb)) error) _ h₁ in
    let (_, _, h₃) = >>=-eq-ok (or_raise (chosen fallback_named (as_str fb)) error) _ h₂ in
    let (n, bounded, h₄) = >>=-eq-ok (or_raise (int_within 1 1024 max) error) _ h₃ in
    let (low, high) = within_lem 1 1024 (as_int max) bounded in
    subst (IsNewPool topology) (ok_injective _ _ h₄) (record {
      has_member = some_member;
      members_new = all;
      returns_some = low;
      returns_at_most = high;
    })

-- A pool that is built from a configuration has members, all of them new, of a weight of at most 10
-- and in a region of the topology map or in none; and it returns between 1 and 1024 addresses.
pub from_config_dict-IsNewPool :
    (parser : IpParser) (compile : Compile) (topology : TopologyMap) (name : String)
    (obj : PoolConfig) {p : Pool}
    → from_config_dict parser compile topology name obj ≡ ok p
    → IsNewPool topology p
unfolding from_config_dict
from_config_dict-IsNewPool parser compile topology name obj h =
    let (named, _, h₁) = >>=-eq-ok (or_raise obj.monitor key_error) _ h in
    let (monitor_name, _, h₂) = >>=-eq-ok (check_monitor named) _ h₁ in
    let (params, _, h₃) = >>=-eq-ok (check_params obj.monitor_params) _ h₂ in
    let (monitor, _, h₄) = >>=-eq-ok (build compile monitor_name params) _ h₃ in
    let (lb, _, h₅) = >>=-eq-ok (or_raise obj.lb_method key_error) _ h₄ in
    let (configs, checked, h₆) = >>=-eq-ok (check_members obj.members) _ h₅ in
    let (ms, made, h₇) = >>=-eq-ok (members_from_config parser topology lb [] configs) _ h₆ in
    let (all, count) = members_lem parser topology lb [] configs tt made in
    pool_init-IsNewPool topology name monitor ms lb (value_or obj.fallback (scalar (str "any")))
      (value_or obj.max_addrs_returned (scalar (int (pos 1)))) all
      (omega (arith, count, check_members-length obj.members checked)) h₇
