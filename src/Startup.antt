-- ===== src/Startup.antt =====
-- The loading of the configuration: Guardian.load_configuration of
-- polaris_health/guardian/__init__.py, load_configuration of polaris_pdns/__init__.py, and their
-- defaults in polaris_health/config and polaris_pdns/config.
pub mod Loaded
use polaris_gslb.Prelude.{
  ℕ, String, Bool, true, false, not, Option, none, some, List, [], ◌∷◌, join,
}
use polaris_gslb.Prelude.Eq.{string_eq}
use polaris_gslb.Prelude.Dict.{Dict, lookup, contains, insert}
use polaris_gslb.Prelude.Int.{ℤ, pos}
use polaris_gslb.Prelude.Result.{
  Exception, Result, ok, raise, raise_if, or_raise, key_error, error, exception, type_error, ◌>>=◌,
  ◌>>◌,
}
use polaris_gslb.Config.{Scalar, null, bool, int, float, str, Value, scalar, as_str, LbConfig}
use polaris_gslb.Topology.{IpParser, TopologyMap, config_to_map}

-- What the process finds when it starts: POLARIS_INSTALL_PREFIX of the environment, and what
-- yaml.load makes of a file. A file that is not there is `none`, and an empty one is null.
pub record Files : Type 0 where
  pub install_prefix : Option String
  pub options : String → Option (Option (Dict String Value))
  pub lb : String → Option LbConfig
  pub topology : String → Option (Option (Dict String (List String)))

abbrev text : String → Value
text s = scalar (str s)

abbrev number : ℕ → Value
number n = scalar (int (pos n))

-- polaris_health.config.BASE
abbrev pub health_base : Dict String Value
health_base =
    ("SHARED_MEM_HOSTNAME", text "127.0.0.1")
    ∷ ("SHARED_MEM_STATE_TIMESTAMP_KEY", text "polaris_health:state_timestamp")
    ∷ ("SHARED_MEM_GENERIC_STATE_KEY", text "polaris_health:generic_state")
    ∷ ("SHARED_MEM_PPDNS_STATE_KEY", text "polaris_health:ppdns_state")
    ∷ ("SHARED_MEM_HEARTBEAT_KEY", text "polaris_health:heartbeat")
    ∷ ("SHARED_MEM_SERVER_MAX_VALUE_LENGTH", number 1048576)
    ∷ ("SHARED_MEM_SOCKET_TIMEOUT", scalar (float (pos 500)))
    ∷ ("NUM_PROBERS", number 1)
    ∷ ("LOG_LEVEL", text "info")
    ∷ ("LOG_HANDLER", text "syslog")
    ∷ ("LOG_HOSTNAME", text "127.0.0.1")
    ∷ ("LOG_PORT", number 2222)
    ∷ ("INSTALL_PREFIX", scalar null)
    ∷ ("PID_FILE", scalar null)
    ∷ ("CONTROL_SOCKET_FILE", scalar null)
    ∷ []

-- polaris_pdns.config.BASE
abbrev pub pdns_base : Dict String Value
pdns_base =
    ("SOA_MNAME", text "polaris.example.com.")
    ∷ ("SOA_RNAME", text "hostmaster.polaris.example.com.")
    ∷ ("SOA_SERIAL", number 1)
    ∷ ("SOA_REFRESH", number 3600)
    ∷ ("SOA_RETRY", number 600)
    ∷ ("SOA_EXPIRE", number 86400)
    ∷ ("SOA_MINIMUM", number 1)
    ∷ ("SOA_TTL", number 86400)
    ∷ ("SHARED_MEM_HOSTNAME", text "127.0.0.1")
    ∷ ("SHARED_MEM_STATE_TIMESTAMP_KEY", text "polaris_health:state_timestamp")
    ∷ ("SHARED_MEM_PPDNS_STATE_KEY", text "polaris_health:ppdns_state")
    ∷ ("SHARED_MEM_SOCKET_TIMEOUT", number 1)
    ∷ ("LOG", scalar (bool false))
    ∷ ("INSTALL_PREFIX", scalar null)
    ∷ []

-- for k in base_config: an option that BASE does not have is refused
unfoldable pub set_options :
    Exception → Dict String Value → Dict String Value → Result (Dict String Value)
unfolding contains insert
set_options e [] base = ok base
set_options e ((k, v) ∷ rest) base = do
  raise_if (not (contains k base)) e
  set_options e rest (insert k v base)

abbrev pub options_of : Option (Option (Dict String Value)) → Dict String Value
options_of (some (some d)) = d
options_of _ = []

-- config.BASE['INSTALL_PREFIX'], as os.path.join takes it
abbrev pub prefix_of : Dict String Value → Result String
prefix_of base = do
  v ← or_raise (lookup "INSTALL_PREFIX" base) key_error
  or_raise (as_str v) type_error

abbrev pub in_etc : String → String → String
in_etc prefix file = join (join prefix "etc") file

-- the optional options file
unfoldable pub load_base :
    Exception → Files → String → Dict String Value → Result (Dict String Value)
unfolding set_options join
load_base e files file base = do
  prefix ← or_raise files.install_prefix e
  set_options e (options_of (files.options (in_etc prefix file)))
      (insert "INSTALL_PREFIX" (text prefix) base)

module _ (parser : IpParser) where
  -- the optional topology file; an empty one leaves TOPOLOGY_MAP as it is
  unfoldable pub load_topology : Files → String → Result TopologyMap
  unfolding join config_to_map
  load_topology files prefix = elim (files.topology (in_etc prefix "polaris-topology.yaml")) [
    | some (some config) ↦ config_to_map parser config
    | _ ↦ ok []
  ]

  pub record HealthConfig : Type 0 where
    pub base : Dict String Value
    pub lb : LbConfig
    pub topology_map : TopologyMap

  -- hard set file paths based on INSTALL_PREFIX
  unfoldable pub set_paths : String → Dict String Value → Dict String Value
  unfolding insert join
  set_paths prefix base =
      insert "CONTROL_SOCKET_FILE" (text (join (join prefix "run") "polaris-health.controlsocket"))
        (insert "PID_FILE" (text (join (join prefix "run") "polaris-health.pid")) base)

  -- Guardian.load_configuration
  unfoldable pub load_health_configuration : Files → Result HealthConfig
  unfolding load_base load_topology set_paths
  load_health_configuration files = do
    base ← load_base error files "polaris-health.yaml" health_base
    prefix ← prefix_of base
    lb ← or_raise (files.lb (in_etc prefix "polaris-lb.yaml")) error
    topology_map ← load_topology files prefix
    ok (record { base = set_paths prefix base; lb = lb; topology_map = topology_map })

  -- load_configuration of polaris_pdns: its options and its topology
  unfoldable pub load_pdns_configuration : Files → Result (Dict String Value × TopologyMap)
  unfolding load_base load_topology
  load_pdns_configuration files = do
    base ← load_base exception files "polaris-pdns.yaml" pdns_base
    prefix ← prefix_of base
    topology_map ← load_topology files prefix
    ok (base, topology_map)
