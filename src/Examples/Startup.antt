-- ===== src/Examples/Startup.antt =====
-- The small site, built from its configuration.
use polaris_gslb.Startup.{Files, HealthConfig, load_health_configuration}
use polaris_gslb.Startup.Loaded.{IsLoaded, load_health_configuration-IsLoaded}
use polaris_gslb.Prelude.{join, String, ◌≡◌, refl, true, none, some, [], ◌∷◌, if◌then◌else◌}
use polaris_gslb.Prelude.Eq.{◌==◌, string_eq}
use polaris_gslb.Prelude.Dict.{Dict, lookup, contains, insert, AllValues}
use polaris_gslb.Prelude.Int.{pos}
use polaris_gslb.Prelude.Result.{ok}
use polaris_gslb.Config.{Value, scalar, str, int, LbConfig}
use polaris_gslb.Topology.{IpParser, v4}
use polaris_gslb.Pool.Config
use polaris_gslb.Pool.Checked.{IsNewPool}
use polaris_gslb.GlobalName
use polaris_gslb.State.{State}
use polaris_gslb.State.Config.{new}
use polaris_gslb.State.Publish.{HasKnownPools}
use polaris_gslb.State.Checked.{new-IsSound}

abbrev parser : IpParser
parser = record {
  ip_address = λ s. if s == "10.1.0.1" then some (v4 167837697) else none;
  ip_network = λ s. none;
}

abbrev site : LbConfig
site = record {
  pools = some (
      (
        "pool1",
        record {
          monitor = some (scalar (str "forced"));
          monitor_params = none;
          lb_method = some (scalar (str "wrr"));
          members = some (
              record {
                ip = some "10.1.0.1";
                name = some (scalar (str "www"));
                weight = some (scalar (int (pos 2)));
                monitor_ip = none;
              }
              ∷ []);
          fallback = none;
          max_addrs_returned = none;
        },
      )
      ∷ []);
  globalnames = some (
      (
        "www.test.org",
        record { pool = some (scalar (str "pool1")); ttl = some (scalar (int (pos 30))) },
      )
      ∷ []);
}

-- The state that is built of it.
built : (s : State) × (new parser (λ re. true) [] (λ i. 0) site ≡ ok s)
unfolding new contains Config.from_config_dict lookup insert GlobalName.from_config_dict
built = (_, refl)

new-IsSound_example : HasKnownPools built.0 × AllValues (IsNewPool []) built.0.pools
new-IsSound_example = new-IsSound parser (λ re. true) [] (λ i. 0) site built.0 built.1

-- An installation with one option set.
abbrev files_with : Dict String Value → Files
files_with options = record {
  install_prefix = some "/opt/polaris";
  options =
      λ path. if path == "/opt/polaris/etc/polaris-health.yaml" then some (some options) else none;
  lb = λ path. if path == "/opt/polaris/etc/polaris-lb.yaml" then some site else none;
  topology = λ path. none;
}

abbrev two_probers : Files
two_probers = files_with (("NUM_PROBERS", scalar (int (pos 2))) ∷ [])

loaded : (c : HealthConfig parser) × (load_health_configuration parser two_probers ≡ ok c)
unfolding load_health_configuration contains lookup insert join
loaded = (_, refl)

load_health_configuration-IsLoaded_example : IsLoaded parser two_probers loaded.0
load_health_configuration-IsLoaded_example =
    load_health_configuration-IsLoaded parser two_probers loaded.0 loaded.1
