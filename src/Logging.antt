-- ===== src/Logging.antt =====
-- polaris_health/util/log.py: the set-up of logging. The classes that dictConfig can import are a
-- parameter; it raises ValueError for a handler of another class.
use polaris_gslb.Prelude.{String, Bool, Option, none, some, List, [], ◌∷◌, exists, if◌then◌else◌}
use polaris_gslb.Prelude.Eq.{◌==◌, string_eq}
use polaris_gslb.Prelude.Dict.{Dict, lookup}
use polaris_gslb.Prelude.Result.{Result, ok, raise, or_raise, error, key_error, value_error, ◌>>=◌}
use polaris_gslb.Config.{Value, scalar, str, as_str}

-- What is given to dictConfig, without what is always the same: the handler with its class and its
-- own entries, and the level of the root logger before it is put in upper case.
pub record LogConfig : Type 0 where
  pub handler : String
  pub handler_class : String
  pub entries : Dict String Value
  pub level : String

-- a str of the list
unfoldable pub one_of : List String → Value → Option String
one_of names v = elim (as_str v) [
  | none ↦ none
  | some s ↦ if exists (λ name. name == s) names then some s else none
]

abbrev pub log_levels : List String
log_levels = "none" ∷ "debug" ∷ "info" ∷ "warning" ∷ "error" ∷ []

abbrev pub log_handlers : List String
log_handlers = "syslog" ∷ "datagram" ∷ []

-- logging.config.dictConfig
unfoldable pub dict_config : (String → Bool) → LogConfig → Result (Option LogConfig)
dict_config imports c = if imports c.handler_class then ok (some c) else raise value_error

-- the handler specific items
unfoldable pub handler_config : String → String → Value → Value → LogConfig
handler_config level handler hostname port =
    if handler == "syslog"
    then record {
      handler = "syslog";
      handler_class = "logging.handlers.SysLogHandler";
      entries = ("address", scalar (str "/dev/log")) ∷ [];
      level = level;
    }
    else record {
      handler = "datagram";
      handler_class = "polaris.util.logging.DatagramText";
      entries = ("host", hostname) ∷ ("port", port) ∷ [];
      level = level;
    }

-- setup, on a level that is not `none`
unfoldable pub setup_handler :
    (String → Bool) → Dict String Value → String → Result (Option LogConfig)
unfolding one_of handler_config dict_config
setup_handler imports base level = do
  handler_value ← or_raise (lookup "LOG_HANDLER" base) key_error
  handler ← or_raise (one_of log_handlers handler_value) error
  hostname ← or_raise (lookup "LOG_HOSTNAME" base) key_error
  port ← or_raise (lookup "LOG_PORT" base) key_error
  dict_config imports (handler_config level handler hostname port)

-- setup: the configuration that logging gets, or none with the level `none`
unfoldable pub setup : (String → Bool) → Dict String Value → Result (Option LogConfig)
unfolding one_of setup_handler
setup imports base = do
  level_value ← or_raise (lookup "LOG_LEVEL" base) key_error
  level ← or_raise (one_of log_levels level_value) error
  if level == "none" then ok none else setup_handler imports base level

-- setup_debug
unfoldable pub setup_debug : (String → Bool) → Result (Option LogConfig)
unfolding dict_config
setup_debug imports = dict_config imports (record {
  handler = "console";
  handler_class = "logging.StreamHandler";
  entries = [];
  level = "DEBUG";
})
