-- ===== src/Prober.antt =====
-- polaris_health/prober: probes, which carry a monitor to a prober thread and its outcome back.
pub mod Threads
pub mod Upkeep
pub mod Sound
pub mod Conserved
pub mod Starved
use polaris_gslb.Prelude.{ℕ, String, Bool, true, false, Option, some}
use polaris_gslb.Monitors.{Monitor}

-- prober/probe.py. A status of `none` is that of a probe that has not run.
pub record Probe : Type 0 where
  pub pool_id : ℕ
  pub pool_name : String
  pub member_id : ℕ
  pub member_ip : String
  pub monitor : Monitor
  pub monitor_ip : String
  pub status : Option Bool
  pub status_reason : Option String

-- How a monitor's `run` ends: it returns, it raises MonitorFailed, or it raises something else.
pub data Outcome : Type 0 where
  passed : Outcome
  failed crashed : (message : String) → Outcome

-- Probe.run, on the outcome of the monitor
unfoldable pub run : Outcome → Probe → Probe
run passed p = record p { status = some true; status_reason = some "monitor passed" }
run (failed message) p = record p { status = some false; status_reason = some message }
run (crashed message) p = record p { status = some false; status_reason = some message }
