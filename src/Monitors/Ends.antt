-- ===== src/Monitors/Ends.antt =====
-- Every run of a monitor ends, if its peer sends only so much.
use polaris_gslb.Prelude.{ℕ, suc, ◌≡◌, refl, String, Bool, true, Option, none, some, List, arith}
use polaris_gslb.Prelude.Dict.{is_some}
use polaris_gslb.Prelude.Result.{Result, ok, raise}
use polaris_gslb.Monitors.{TcpParams, Kind, http, tcp, forced}
use polaris_gslb.Protocols.{Peer, TcpSocket, connect, sendall, new}
use polaris_gslb.Protocols.Timely.{IsFinite, is_ended, read_until-ended}
use polaris_gslb.Protocols.Reading.{Reading, found, failed, reading, read_until}
use polaris_gslb.Protocols.Http.{
  HttpRequest, Answer, response_of, has_status, http_read, after_send, after_connect, wrapped,
  exchange, on_socket, make, get,
}
use polaris_gslb.Protocols.Http
use polaris_gslb.Monitors.Run.{
  Matcher, tcp_read, match_ended, tcp_match, tcp_send, sent, connected, opened, tcp_run, http_ended,
  http_run, run_kind,
}

abbrev IsOver {ℓ} : {A : Type ℓ} → Option A → Type 0
IsOver o = is_some o ≡ true

module _ (peer : Peer) (last : ℕ) (finite : IsFinite peer last) where
  read-ended :
      (test : String → Bool) (s : TcpSocket)
      → is_ended (read_until test peer (suc last) 0 "" s) ≡ true
  read-ended test s =
      read_until-ended peer test last (suc last) 0 "" s finite (omega arith) (omega arith)

  match_ended-IsOver : (r : Reading) → is_ended r ≡ true → IsOver (match_ended r)
  unfolding match_ended
  match_ended-IsOver (found text s) h = refl
  match_ended-IsOver (failed s) h = refl
  match_ended-IsOver reading h = cc

  tcp_match-IsOver :
      (matches : Matcher) (re : Option String) (s : TcpSocket)
      → IsOver (tcp_match matches re peer (suc last) s)
  unfolding tcp_match tcp_read
  tcp_match-IsOver matches none s = refl
  tcp_match-IsOver matches (some re) s = match_ended-IsOver _ (read-ended (matches re) s)

  sent-IsOver :
      (matches : Matcher) (re : Option String) (q : Result (Unit {0}) × TcpSocket)
      → IsOver (sent matches re peer (suc last) q)
  sent-IsOver matches re (raise e, s) = refl
  sent-IsOver matches re (ok u, s) = tcp_match-IsOver matches re s

  connected-IsOver :
      (matches : Matcher) (p : TcpParams) (q : Result (Unit {0}) × TcpSocket)
      → IsOver (connected matches p peer (suc last) q)
  connected-IsOver matches p (raise e, s) = refl
  connected-IsOver matches p (ok u, s) =
      sent-IsOver matches p.match_re (tcp_send p.send_string peer s)

  opened-IsOver :
      (matches : Matcher) (p : TcpParams) (q : Result TcpSocket)
      → IsOver (opened matches p peer (suc last) q)
  opened-IsOver matches p (raise e) = refl
  opened-IsOver matches p (ok s) = connected-IsOver matches p (connect peer s)

  response_of-IsOver : (r : Reading) → is_ended r ≡ true → IsOver (response_of r)
  unfolding response_of
  response_of-IsOver (found text s) h = refl
  response_of-IsOver (failed s) h = refl
  response_of-IsOver reading h = cc

  after_send-IsOver : (q : Result (Unit {0}) × TcpSocket) → IsOver (after_send peer (suc last) q)
  after_send-IsOver (raise e, s) = refl
  after_send-IsOver (ok u, s) = response_of-IsOver _ (read-ended has_status s)

  after_connect-IsOver :
      (text : String) (q : Result (Unit {0}) × TcpSocket)
      → IsOver (after_connect peer (suc last) text q)
  after_connect-IsOver text (raise e, s) = refl
  after_connect-IsOver text (ok u, s) = after_send-IsOver (sendall peer text s)

  exchange-IsOver :
      (text : String) (s : TcpSocket) (w : Result (Unit {0}))
      → IsOver (exchange peer (suc last) text s w)
  unfolding exchange
  exchange-IsOver text s (raise e) = refl
  exchange-IsOver text s (ok u) = after_connect-IsOver text (connect peer s)

  on_socket-IsOver :
      (method : String) (r : HttpRequest) (q : Result TcpSocket)
      → IsOver (on_socket peer (suc last) method r q)
  on_socket-IsOver method r (raise e) = refl
  on_socket-IsOver method r (ok s) = exchange-IsOver _ s (wrapped peer r.use_ssl)

  http_ended-IsOver : (codes : List ℕ) (a : Answer) → IsOver a → IsOver (http_ended codes a)
  unfolding http_ended
  http_ended-IsOver codes none h = cc
  http_ended-IsOver codes (some (raise e)) h = refl
  http_ended-IsOver codes (some (ok r)) h = refl

-- A run of a monitor, of whatever timeout, ends within `last` + 1 calls of recv, if none of the calls
-- after the first `last` returns bytes: each of them fails or returns the end of the connection.
pub run_kind-IsOver :
    (matches : Matcher) (timeout : ℕ) (dst_ip : String) (peer : Peer) (last : ℕ) (kind : Kind)
    → IsFinite peer last
    → is_some (run_kind matches timeout dst_ip peer (suc last) kind) ≡ true
unfolding run_kind tcp_run http_run get make
run_kind-IsOver matches timeout dst_ip peer last (forced up) finite = refl
run_kind-IsOver matches timeout dst_ip peer last (tcp p) finite =
    opened-IsOver peer last finite matches p (new peer timeout true)
run_kind-IsOver matches timeout dst_ip peer last (http p) finite =
    http_ended-IsOver peer last finite p.expected_codes _ (
      on_socket-IsOver peer last finite "GET"
        (Http.new dst_ip p.use_ssl p.hostname p.url_path (some p.port) timeout) _)
