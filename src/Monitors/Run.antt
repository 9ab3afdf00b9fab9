-- ===== src/Monitors/Run.antt =====
-- The `run` methods of the monitors: they return, or raise MonitorFailed or another exception.
-- `none` is a run that still reads from its peer when its fuel is spent.
use polaris_gslb.Prelude.{
  ℕ, String, Bool, true, false, not, Option, none, some, List, exists, eqb, if◌then◌else◌,
}
use polaris_gslb.Prelude.Result.{Exception, Result, ok, raise, protocol_error, monitor_failed}
use polaris_gslb.Monitors.{TcpParams, HttpParams, Kind, http, tcp, forced}
use polaris_gslb.Protocols.{Peer, TcpSocket, connect, sendall}
use polaris_gslb.Protocols
use polaris_gslb.Protocols.Status.{HttpResponse}
use polaris_gslb.Protocols.Reading.{Reading, found, failed, reading, read_until}
use polaris_gslb.Protocols.Http.{get, Answer}
use polaris_gslb.Protocols.Http
use polaris_gslb.Prober.{Probe, Outcome, passed, crashed}
use polaris_gslb.Prober

abbrev pub Ended : Type 0
Ended = Option (Result (Unit {0}))

-- `except ProtocolError as e: raise MonitorFailed(e)`
unfoldable pub translate : Exception → Exception
translate protocol_error = monitor_failed
translate e = e

-- Forced.run
unfoldable pub forced_run : Bool → Result (Unit {0})
forced_run true = ok tt
forced_run false = raise monitor_failed

-- What re.compile(match_re, re.I).search finds: whether the expression matches in a text.
abbrev pub Matcher : Type 0
Matcher = String → String → Bool

-- the loop of TCP.run
unfoldable pub tcp_read : Matcher → String → Peer → ℕ → TcpSocket → Reading
unfolding read_until
tcp_read matches re peer fuel s = read_until (matches re) peer fuel 0 "" s

unfoldable pub match_ended : Reading → Ended
match_ended (found text s) = some (ok tt)
match_ended (failed s) = some (raise monitor_failed)
match_ended reading = none

-- after the socket is connected, and the string sent
unfoldable pub tcp_match : Matcher → Option String → Peer → ℕ → TcpSocket → Ended
unfolding tcp_read match_ended
tcp_match matches none peer fuel s = some (ok tt)
tcp_match matches (some re) peer fuel s = match_ended (tcp_read matches re peer fuel s)

abbrev pub tcp_send : Option String → Peer → TcpSocket → Result (Unit {0}) × TcpSocket
tcp_send none peer s = (ok tt, s)
tcp_send (some text) peer s = sendall peer text s

abbrev pub sent : Matcher → Option String → Peer → ℕ → Result (Unit {0}) × TcpSocket → Ended
sent matches re peer fuel (raise e, s) = some (raise (translate e))
sent matches re peer fuel (ok u, s) = tcp_match matches re peer fuel s

abbrev pub connected : Matcher → TcpParams → Peer → ℕ → Result (Unit {0}) × TcpSocket → Ended
connected matches p peer fuel (raise e, s) = some (raise (translate e))
connected matches p peer fuel (ok u, s) =
    sent matches p.match_re peer fuel (tcp_send p.send_string peer s)

-- an OSError of TCPSocket.__init__ is outside of each `try`
abbrev pub opened : Matcher → TcpParams → Peer → ℕ → Result TcpSocket → Ended
opened matches p peer fuel (raise e) = some (raise e)
opened matches p peer fuel (ok s) = connected matches p peer fuel (connect peer s)

-- TCP.run, on a socket with the monitor's timeout
unfoldable pub tcp_run : Matcher → TcpParams → ℕ → Peer → ℕ → Ended
unfolding tcp_match connect sendall translate Protocols.new
tcp_run matches p timeout peer fuel = opened matches p peer fuel (Protocols.new peer timeout true)

-- response.status_code not in self.expected_codes
unfoldable pub check_status : List ℕ → HttpResponse → Result (Unit {0})
check_status codes r =
    if not (exists (λ code. eqb r.status_code code) codes) then raise monitor_failed else ok tt

unfoldable pub http_ended : List ℕ → Answer → Ended
unfolding translate check_status
http_ended codes none = none
http_ended codes (some (raise e)) = some (raise (translate e))
http_ended codes (some (ok r)) = some (check_status codes r)

-- HTTP.run
unfoldable pub http_run : HttpParams → ℕ → String → Peer → ℕ → Ended
unfolding http_ended get
http_run p timeout dst_ip peer fuel =
    http_ended p.expected_codes
      (get peer fuel (Http.new dst_ip p.use_ssl p.hostname p.url_path (some p.port) timeout))

-- self.monitor.run(dst_ip=...)
unfoldable pub run_kind : Matcher → ℕ → String → Peer → ℕ → Kind → Ended
unfolding forced_run tcp_run http_run
run_kind matches timeout dst_ip peer fuel (forced up) = some (forced_run up)
run_kind matches timeout dst_ip peer fuel (tcp p) = tcp_run matches p timeout peer fuel
run_kind matches timeout dst_ip peer fuel (http p) = http_run p timeout dst_ip peer fuel

-- How Probe.run sees the end of a monitor; `message` is the text of an exception.
unfoldable pub outcome_of : (Exception → String) → Result (Unit {0}) → Outcome
outcome_of message (ok u) = passed
outcome_of message (raise monitor_failed) = Prober.failed (message monitor_failed)
outcome_of message (raise e) = crashed (message e)
