-- ===== src/Examples/Checks.antt =====
-- The monitors on a web server and on a peer that never stops to send.
use polaris_gslb.Prelude.{
  ℕ, zero, suc, ◌≡◌, ◌≤◌, refl, true, false, none, some, [], ◌∷◌, arith, ◌↔◌, leb, count,
  lower_code,
}
use polaris_gslb.Prelude.Dict.{is_some}
use polaris_gslb.Prelude.Result.{ok, raise, os_error}
use polaris_gslb.Monitors.{HttpParams, TcpParams, http}
use polaris_gslb.Monitors.Run.{Matcher, http_run, tcp_run, run_kind}
use polaris_gslb.Monitors.Ends.{run_kind-IsOver}
use polaris_gslb.Monitors.Failures.{IsFailureOf, run_kind-Raises}
use polaris_gslb.Monitors.Verdict.{
  Succeeds, Responds, request_of, tcp_run-passed_iff, http_run-Responds,
}
use polaris_gslb.Protocols.{Io, Received, hung_up, some_bytes, Peer, new, fresh}
use polaris_gslb.Protocols.Reading.{reading, read_until}
use polaris_gslb.Protocols.Status.{find_status}
use polaris_gslb.Protocols.Status
use polaris_gslb.Protocols.Http
use polaris_gslb.Protocols.Timely.{IsFinite, is_bytes}
use polaris_gslb.Prelude.{append_text}
use polaris_gslb.Protocols.RoundTrip.{status_line, find_status-status_line}
use polaris_gslb.Protocols.Endless.{Streams, read_until-endless}

-- A call takes one tick, if there is one left.
abbrev quick {ℓ} : {A : Type ℓ} → A → ℕ → Io A
quick a zero = record { took = 0; result = none }
quick a (suc timeout) = record { took = 1; result = some a }

abbrev sends : ℕ → Received
sends zero = some_bytes "HTTP/1.1 2"
sends (suc zero) = some_bytes "00 OK\r\nServer: x\r\n"
sends (suc (suc n)) = hung_up

-- A web server whose Status-Line comes in two parts.
abbrev server : Peer
server = record {
  opens = true;
  wrap = ok tt;
  connect = quick tt;
  send = λ text. quick tt;
  recv = λ n. quick (sends n);
  shutdown = true;
}

abbrev params : HttpParams
params = record {
  use_ssl = false;
  url_path = "/";
  hostname = none;
  port = 80;
  expected_codes = 200 ∷ [];
}

server-silent : (n t : ℕ) → 2 ≤ n → is_bytes (server.recv n t).result ≡ false
server-silent zero t h = absurd (omega (arith, h))
server-silent (suc zero) t h = absurd (omega (arith, h))
server-silent (suc (suc n)) zero h = refl
server-silent (suc (suc n)) (suc t) h = refl

server-IsFinite : IsFinite server 2
server-IsFinite = record { silent = server-silent }

http_run_passes : http_run params 10 "10.1.0.1" server 11 ≡ some (ok tt)
unfolding http_run Http.new new read_until find_status lower_code Status.new
http_run_passes = refl

http_run-Responds_example :
    Responds params (request_of params 10 "10.1.0.1") server 11 (fresh 10 true)
http_run-Responds_example = http_run-Responds params 10 "10.1.0.1" server 11 http_run_passes

-- the expression `.`
abbrev any_text : Matcher
any_text re t = leb 1 (count t)

run_kind-IsOver_example : is_some (run_kind any_text 10 "10.1.0.1" server 3 (http params)) ≡ true
run_kind-IsOver_example =
    run_kind-IsOver any_text 10 "10.1.0.1" server 2 (http params) server-IsFinite

-- socket.socket() fails, as there is no descriptor left.
abbrev exhausted : Peer
exhausted = record server { opens = false }

exhausted_raises : run_kind any_text 10 "10.1.0.1" exhausted 2 (http params) ≡ some (raise os_error)
unfolding run_kind http_run new
exhausted_raises = refl

run_kind-Raises_example : IsFailureOf (http params) exhausted os_error
run_kind-Raises_example =
    run_kind-Raises any_text 10 "10.1.0.1" exhausted 2 (http params) os_error exhausted_raises

abbrev tcp_params : TcpParams
tcp_params = record { port = 80; match_re = some "."; send_string = none }

tcp_run_passes : tcp_run any_text tcp_params 10 server 11 ≡ some (ok tt)
unfolding tcp_run new read_until
tcp_run_passes = refl

tcp_run-passed_iff_example :
    (tcp_run any_text tcp_params 10 server 11 ≡ some (ok tt))
    ↔ Succeeds any_text tcp_params server 11 (fresh 10 true)
tcp_run-passed_iff_example = tcp_run-passed_iff any_text tcp_params 10 server 11

abbrev babbler : Peer
babbler = record server { recv = λ n t. record { took = 1; result = some (some_bytes "la") } }

babbler-Streams : Streams babbler
babbler-Streams n t = ("la", refl)

read_until-endless_example : read_until (λ t. false) babbler 1000 0 "" (fresh 10 true) ≡ reading
read_until-endless_example =
    read_until-endless (λ t. false) babbler 1000 0 "" (fresh 10 true) babbler-Streams (λ t. refl)

find_status-status_line_example :
    find_status (append_text (status_line 404 "Not Found") "Server: x\r\n\r\n")
    ≡ some (404, "Not Found")
find_status-status_line_example =
    find_status-status_line 404 "Not Found" "Server: x\r\n\r\n" (omega arith) refl (omega arith)
