-- ===== src/Monitors/Build.antt =====
-- The constructors of the monitors, on the keyword arguments of `monitor_params`.
use polaris_gslb.Prelude.{
  ℕ, String, List, [], ◌∷◌, Bool, true, false, not, Option, none, some, length, leb, select,
  starts_with_slash, prepend_slash, exists, eqb, if◌then◌else◌, ◌&&◌,
}
use polaris_gslb.Prelude.Eq.{◌==◌, string_eq}
use polaris_gslb.Prelude.Dict.{Dict, lookup, keys, value_or}
use polaris_gslb.Prelude.Int.{pos}
use polaris_gslb.Prelude.Result.{
  Result, ok, raise, raise_if, or_raise, error, type_error, name_error, ◌>>=◌, ◌>>◌,
}
use polaris_gslb.Config.{
  Scalar, Value, scalar, list, str, int, bool, null, as_bool, as_str, is_null, int_within,
  millis_within, str_at_most,
}
use polaris_gslb.Monitors.{Kind, http, tcp, forced, Monitor}

abbrev pub Kwargs : Type 0
Kwargs = Dict String Value

-- A keyword that the constructor does not have is a TypeError.
unfoldable pub check_keywords : List String → Kwargs → Result (Unit {0})
check_keywords known kwargs =
    raise_if (exists (λ k. not (exists (λ j. j == k) known)) (keys kwargs)) type_error

-- a parameter, or its default
abbrev pub param : String → Value → Kwargs → Value
param k v kwargs = value_or (lookup k kwargs) v

abbrev number : ℕ → Value
number n = scalar (int (pos n))

-- BaseMonitor.__init__, for the class of a subclass that calls it
unfoldable pub base_init : Value → Value → Value → Result (Kind → Monitor)
base_init interval timeout retries = do
  i ← or_raise (millis_within 1000 3600000 interval) error
  t ← or_raise (millis_within 100 10000 timeout) error
  r ← or_raise (int_within 0 5 retries) error
  ok (λ kind. record { interval = i; timeout = t; retries = r; kind = kind })

-- Forced.__init__
abbrev pub forced_status : Option String → Option Bool
forced_status none = none
forced_status (some s) = if s == "up" then some true else if s == "down" then some false else none

unfoldable pub forced_init : Kwargs → Result Monitor
unfolding check_keywords base_init
forced_init kwargs = do
  check_keywords ("status" ∷ "interval" ∷ "timeout" ∷ "retries" ∷ []) kwargs
  make ←
      base_init (param "interval" (number 3600) kwargs) (param "timeout" (number 1) kwargs)
        (param "retries" (number 0) kwargs)
  up ← or_raise (forced_status (as_str (param "status" (scalar (str "up")) kwargs))) error
  ok (make (forced up))

-- A parameter that may be None, and must pass a test if it is not.
abbrev pub optional : {A : Type 0} → (Value → Option A) → Value → Result (Option A)
optional test v = if is_null v then ok none else (or_raise (test v) error >>= λ a. ok (some a))

-- re.compile, as far as __init__ sees it: whether it returns
abbrev pub Compile : Type 0
Compile = String → Bool

abbrev compiled : Compile → Option String → Result (Unit {0})
compiled compile none = ok tt
compiled compile (some re) = raise_if (not (compile re)) error

-- TCP.__init__
unfoldable pub tcp_init : Compile → Kwargs → Result Monitor
unfolding check_keywords base_init
tcp_init compile kwargs = do
  check_keywords ("port" ∷ "send_string" ∷ "match_re" ∷ "interval" ∷ "timeout" ∷ "retries" ∷ [])
      kwargs
  given ← or_raise (lookup "port" kwargs) type_error
  make ←
      base_init (param "interval" (number 10) kwargs) (param "timeout" (number 5) kwargs)
        (param "retries" (number 2) kwargs)
  port ← or_raise (int_within 1 65535 given) error
  re ← optional (str_at_most 128) (param "match_re" (scalar null) kwargs)
  compiled compile re
  send ← optional (str_at_most 256) (param "send_string" (scalar null) kwargs)
  ok (make (tcp (record { port = port; match_re = re; send_string = send })))

-- The test of a url_path. The message of a path that is too long, or no str, names a constant
-- MAX_PATH_LEN that does not exist.
unfoldable pub check_url_path : Value → Result String
check_url_path v = or_raise (str_at_most 256 v) name_error

-- prepend url_path with '/'
unfoldable pub slashed : String → String
slashed path = if starts_with_slash path then path else prepend_slash path

-- the port, or the default of the scheme
unfoldable pub http_port : Bool → Value → Result ℕ
http_port use_ssl v =
    if is_null v then ok (if use_ssl then 443 else 80) else or_raise (int_within 1 65535 v) error

unfoldable pub check_codes : List Scalar → Result (List ℕ)
check_codes [] = ok []
check_codes (c ∷ cs) = do
  code ← or_raise (int_within 100 599 (scalar c)) error
  codes ← check_codes cs
  ok (code ∷ codes)

-- list(set(codes)), in the order of the first occurrences
unfoldable pub unique : List ℕ → List ℕ
unique [] = []
unique (n ∷ ns) = n ∷ select (λ m. not (eqb m n)) (unique ns)

unfoldable pub expected_codes : Value → Result (List ℕ)
unfolding check_codes unique
expected_codes (scalar null) = ok (200 ∷ [])
expected_codes (scalar _) = raise error
expected_codes (list codes) = do
  raise_if (not (leb 1 (length codes) && leb (length codes) 3)) error
  checked ← check_codes codes
  ok (unique checked)

-- HTTP.__init__
unfoldable pub http_init : Kwargs → Result Monitor
unfolding check_keywords base_init check_url_path slashed http_port expected_codes
http_init kwargs = do
  check_keywords
      ("use_ssl" ∷ "hostname" ∷ "url_path" ∷ "port" ∷ "expected_codes" ∷ "interval" ∷ "timeout"
        ∷ "retries" ∷ [])
      kwargs
  make ←
      base_init (param "interval" (number 10) kwargs) (param "timeout" (number 5) kwargs)
        (param "retries" (number 2) kwargs)
  use_ssl ← or_raise (as_bool (param "use_ssl" (scalar (bool false)) kwargs)) error
  path ← check_url_path (param "url_path" (scalar (str "/")) kwargs)
  hostname ← optional (str_at_most 256) (param "hostname" (scalar null) kwargs)
  port ← http_port use_ssl (param "port" (scalar null) kwargs)
  codes ← expected_codes (param "expected_codes" (scalar null) kwargs)
  ok (
      make (
        http (record {
          use_ssl = use_ssl;
          url_path = slashed path;
          hostname = hostname;
          port = port;
          expected_codes = codes;
        })))

-- monitors.registered[monitor_name](**monitor_params)
unfoldable pub build : Compile → String → Kwargs → Result Monitor
unfolding http_init tcp_init forced_init
build compile name kwargs =
    if name == "http"
    then http_init kwargs
    else if name == "tcp"
    then tcp_init compile kwargs
    else if name == "forced"
    then forced_init kwargs
    else raise error
