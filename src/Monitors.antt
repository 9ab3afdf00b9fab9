-- ===== src/Monitors.antt =====
-- polaris_health/monitors: the health monitors, as objects that have been constructed. Times are
-- in milliseconds. A class hierarchy with a virtual `run` is a tag with the fields of its class.
pub mod Build
pub mod Run
pub mod Ends
pub mod Failures
pub mod Verdict
use polaris_gslb.Prelude.{ℕ, Bool, String, Option, List}

-- monitors/tcp.py
pub record TcpParams : Type 0 where
  pub port : ℕ
  pub match_re : Option String
  pub send_string : Option String

-- monitors/http.py
pub record HttpParams : Type 0 where
  pub use_ssl : Bool
  pub url_path : String
  pub hostname : Option String
  pub port : ℕ
  pub expected_codes : List ℕ

pub data Kind : Type 0 where
  http : HttpParams → Kind
  tcp : TcpParams → Kind
  forced : (up : Bool) → Kind

-- BaseMonitor's fields, and those of its subclass
pub record Monitor : Type 0 where
  pub interval : ℕ
  pub timeout : ℕ
  pub retries : ℕ
  pub kind : Kind
