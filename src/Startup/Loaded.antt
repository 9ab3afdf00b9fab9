-- ===== src/Startup/Loaded.antt =====
-- What a configuration that was loaded holds, and which options are refused.
use polaris_gslb.Prelude.{
  ◌≡◌, refl, sym, ap, ◌∙◌, subst, String, join, Bool, true, false, not, Option, none, some, [], ◌∷◌,
  List, arith, exists, if◌then◌else◌, Bool-cases, inl, inr,
}
use polaris_gslb.Prelude.Eq.{◌==◌, string_eq}
use polaris_gslb.Prelude.Dict.{Dict, lookup, contains, insert, lookup-insert, contains-insert}
use polaris_gslb.Prelude.Result.{
  Exception, ok, raise, raise_if, or_raise, error, ok_injective, >>=-eq-ok, raise_if-eq-ok,
}
use polaris_gslb.Config.{Value, scalar, str}
use polaris_gslb.Topology.{IpParser, TopologyMap, config_to_map}
use polaris_gslb.Startup.{
  Files, health_base, set_options, options_of, prefix_of, in_etc, load_base, load_topology,
  HealthConfig, set_paths, load_health_configuration,
}

-- The last value that the file gives to an option, or else `default`.
abbrev pub given : Dict String Value → String → Option Value → Option Value
given [] k default = default
given ((j, v) ∷ d) k default = given d k (if j == k then some v else default)

-- An option of the file is not one of BASE.
abbrev pub has_unknown : Dict String Value → Dict String Value → Bool
has_unknown d base = exists (λ e. not (contains e.0 base)) d

-- Each option has the value that the file gives, or its default, and no option is new.
pub record HasGiven (d base base' : Dict String Value) : Type 0 where
  pub values : (k : String) → lookup k base' ≡ given d k (lookup k base)
  pub same_keys : (k : String) → contains k base' ≡ contains k base

contains-insert_known :
    (k j : String) (v : Value) (base : Dict String Value)
    → not (contains k base) ≡ false
    → contains j (insert k v base) ≡ contains j base
contains-insert_known k j v base known = elim (Bool-cases (k == j)) [
  | inl same ↦
      let k_is_j = (string_eq.beq_iff k j).0 same in
      let there : contains k base ≡ true = ground (arith, known) in
      let there' : contains j base ≡ true = subst (λ x. contains x base ≡ true) k_is_j there in
      contains-insert k j v base ∙ rw same (sym there')
  | inr other ↦ contains-insert k j v base ∙ rw other refl
]

has_unknown-insert :
    (d : Dict String Value) (k : String) (v : Value) (base : Dict String Value)
    → not (contains k base) ≡ false
    → has_unknown d (insert k v base) ≡ has_unknown d base
has_unknown-insert [] k v base known = refl
has_unknown-insert ((j, w) ∷ d) k v base known =
    rw (contains-insert_known k j v base known, has_unknown-insert d k v base known) refl

pub set_options-HasGiven :
    (e : Exception) (d base base' : Dict String Value)
    → set_options e d base ≡ ok base'
    → HasGiven d base base'
unfolding set_options
set_options-HasGiven e [] base base' h =
    let same : base ≡ base' = cc h in
    record { values = λ k. ap (lookup k) (sym same); same_keys = λ k. ap (contains k) (sym same) }
set_options-HasGiven e ((k, v) ∷ d) base base' h =
    let (u, is_known, rest) = >>=-eq-ok (raise_if (not (contains k base)) e) _ h in
    let known = raise_if-eq-ok (not (contains k base)) e is_known in
    let ih = set_options-HasGiven e d (insert k v base) base' rest in
    record {
      values = λ j. ih.values j ∙ ap (given d j) (lookup-insert k j v base);
      same_keys = λ j. ih.same_keys j ∙ contains-insert_known k j v base known;
    }

set_options-unknown :
    (e : Exception) (d base : Dict String Value)
    → has_unknown d base ≡ true
    → set_options e d base ≡ raise e
unfolding set_options
set_options-unknown e [] base h = cc
set_options-unknown e ((k, v) ∷ d) base h = elim (Bool-cases (contains k base)) [
  | inl known ↦
      let is_known : not (contains k base) ≡ false = rw known refl in
      let rest : has_unknown d base ≡ true = rw known at h in
      rw known
        (set_options-unknown e d (insert k v base) (has_unknown-insert d k v base is_known ∙ rest))
  | inr unknown ↦ rw unknown refl
]

-- The options that the file of this name holds.
abbrev pub file_options : Files → String → String → Dict String Value
file_options files prefix file = options_of (files.options (in_etc prefix file))

-- The topology map that a topology file gives: none without the file, or if it is empty.
abbrev pub IsTopologyOf :
    IpParser → Option (Option (Dict String (List String))) → TopologyMap → Type 0
IsTopologyOf parser none m = m ≡ []
IsTopologyOf parser (some none) m = m ≡ []
IsTopologyOf parser (some (some config)) m = config_to_map parser config ≡ ok m

abbrev pub path_under : String → String → Value
path_under prefix file = scalar (str (join (join prefix "run") file))

-- A configuration as it should be after it was loaded: the options are those of the file, or their
-- defaults, and those that are set after them; the prefix is that of the options.
pub record IsLoaded (parser : IpParser) (files : Files) (c : HealthConfig parser) : Type 0 where
  pub environ : String
  pub base : Dict String Value
  pub prefix : String
  pub is_environ : files.install_prefix ≡ some environ
  pub is_set :
      HasGiven
        (file_options files environ "polaris-health.yaml")
        (insert "INSTALL_PREFIX" (scalar (str environ)) health_base)
        base
  pub has_prefix : prefix_of base ≡ ok prefix
  pub options :
      (k : String)
      → lookup k c.base ≡ (
          if "PID_FILE" == k
          then some (path_under prefix "polaris-health.pid")
          else if "CONTROL_SOCKET_FILE" == k
          then some (path_under prefix "polaris-health.controlsocket")
          else lookup k base)
  pub has_lb : files.lb (in_etc prefix "polaris-lb.yaml") ≡ some (c.lb)
  pub has_topology :
      IsTopologyOf parser (files.topology (in_etc prefix "polaris-topology.yaml")) c.topology_map

or_raise-eq-ok {ℓ} :
    {A : Type ℓ} (o : Option A) (e : Exception) {a : A} → or_raise o e ≡ ok a → o ≡ some a
or_raise-eq-ok none e h = cc
or_raise-eq-ok (some b) e h = cc

pid_differs : (k : String) → ("PID_FILE" == k) ≡ true → ("CONTROL_SOCKET_FILE" == k) ≡ false
pid_differs k same =
    subst (λ x. ("CONTROL_SOCKET_FILE" == x) ≡ false) ((string_eq.beq_iff "PID_FILE" k).0 same) refl

lookup-set_paths :
    (parser : IpParser) (prefix : String) (base : Dict String Value) (k : String)
    → lookup k (set_paths parser prefix base) ≡ (
        if "PID_FILE" == k
        then some (path_under prefix "polaris-health.pid")
        else if "CONTROL_SOCKET_FILE" == k
        then some (path_under prefix "polaris-health.controlsocket")
        else lookup k base)
unfolding set_paths
lookup-set_paths parser prefix base k =
    lookup-insert "CONTROL_SOCKET_FILE" k (path_under prefix "polaris-health.controlsocket")
      (insert "PID_FILE" (path_under prefix "polaris-health.pid") base)
    ∙ (ap
          (λ o.
            if "CONTROL_SOCKET_FILE" == k
            then some (path_under prefix "polaris-health.controlsocket")
            else o)
          (lookup-insert "PID_FILE" k (path_under prefix "polaris-health.pid") base)
        ∙ elim (Bool-cases ("PID_FILE" == k)) [
          | inl same ↦ rw (same, pid_differs k same) refl
          | inr other ↦ rw other refl
        ])

load_topology-IsTopologyOf :
    (parser : IpParser) (files : Files) (prefix : String) (m : TopologyMap)
    (o : Option (Option (Dict String (List String))))
    → files.topology (in_etc prefix "polaris-topology.yaml") ≡ o
    → load_topology parser files prefix ≡ ok m
    → IsTopologyOf parser o m
unfolding load_topology
load_topology-IsTopologyOf parser files prefix m none e h =
    let h' : ok [] ≡ ok m = rw (e, load_topology) at h in sym (ok_injective [] m h')
load_topology-IsTopologyOf parser files prefix m (some none) e h =
    let h' : ok [] ≡ ok m = rw (e, load_topology) at h in sym (ok_injective [] m h')
load_topology-IsTopologyOf parser files prefix m (some (some config)) e h =
    rw (e, load_topology) at h

-- A configuration that is loaded holds, for each option of BASE, the value that polaris-health.yaml
-- gives or its default, and no other options, but PID_FILE and CONTROL_SOCKET_FILE are the two paths
-- in `run` under the prefix that the options end up with. polaris-lb.yaml and polaris-topology.yaml
-- are read in `etc` under this prefix; the map is the conversion of the topology, and empty without
-- one.
pub load_health_configuration-IsLoaded :
    (parser : IpParser) (files : Files) (c : HealthConfig parser)
    → load_health_configuration parser files ≡ ok c
    → IsLoaded parser files c
unfolding load_health_configuration load_base
load_health_configuration-IsLoaded parser files c h =
    let (base, loads, h1) =
      >>=-eq-ok (load_base error files "polaris-health.yaml" health_base) _ h in
    let (environ, is_environ, sets) = >>=-eq-ok (or_raise files.install_prefix error) _ loads in
    let (prefix, has_prefix, h2) = >>=-eq-ok (prefix_of base) _ h1 in
    let (lb, has_lb, h3) =
      >>=-eq-ok (or_raise (files.lb (in_etc prefix "polaris-lb.yaml")) error) _ h2 in
    let (topology_map, has_topology, h4) = >>=-eq-ok (load_topology parser files prefix) _ h3 in
    let loaded : HealthConfig parser = record {
      base = set_paths parser prefix base;
      lb = lb;
      topology_map = topology_map;
    } in
    let same : loaded ≡ c = ok_injective loaded c h4 in
    subst (IsLoaded parser files) same (record {
      environ = environ;
      base = base;
      prefix = prefix;
      is_environ = or_raise-eq-ok files.install_prefix error is_environ;
      is_set = set_options-HasGiven error _ _ base sets;
      has_prefix = has_prefix;
      options = lookup-set_paths parser prefix base;
      has_lb = or_raise-eq-ok (files.lb (in_etc prefix "polaris-lb.yaml")) error has_lb;
      has_topology =
          load_topology-IsTopologyOf parser files prefix topology_map _ refl has_topology;
    })

load_base-unknown :
    (e : Exception) (files : Files) (file environ : String) (base : Dict String Value)
    → files.install_prefix ≡ some environ
    → contains "INSTALL_PREFIX" base ≡ true
    → has_unknown (file_options files environ file) base ≡ true
    → load_base e files file base ≡ raise e
unfolding load_base
load_base-unknown e files file environ base is_environ known unknown =
    let is_known : not (contains "INSTALL_PREFIX" base) ≡ false = rw known refl in
    let options = file_options files environ file in
    rw is_environ (
      set_options-unknown e options (insert "INSTALL_PREFIX" (scalar (str environ)) base) (
        has_unknown-insert options "INSTALL_PREFIX" (scalar (str environ)) base is_known ∙ unknown))

-- If polaris-health.yaml has an option that BASE does not have, the configuration is refused with
-- Error.
load_health_configuration-unknown :
    (parser : IpParser) (files : Files) (environ : String)
    → files.install_prefix ≡ some environ
    → has_unknown (file_options files environ "polaris-health.yaml") health_base ≡ true
    → load_health_configuration parser files ≡ raise error
unfolding load_health_configuration contains
load_health_configuration-unknown parser files environ is_environ unknown =
    rw
      (load_base-unknown error files "polaris-health.yaml" environ health_base is_environ refl
        unknown)
      refl
