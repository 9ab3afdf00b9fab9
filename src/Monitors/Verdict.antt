-- ===== src/Monitors/Verdict.antt =====
-- When a monitor passes.
use polaris_gslb.Prelude.{
  ℕ, ◌≡◌, ◌↔◌, refl, String, true, Bool-cases, inl, inr, Option, none, some, List, arith, exists,
  eqb,
}
use polaris_gslb.Prelude.Result.{Result, ok, raise}
use polaris_gslb.Monitors.{TcpParams, HttpParams}
use polaris_gslb.Protocols.{Peer, TcpSocket, connect, sendall, fresh}
use polaris_gslb.Protocols.Opening.{new-opened, new-refused}
use polaris_gslb.Protocols.Status.{HttpResponse, find_status, StatusLine}
use polaris_gslb.Protocols.Status
use polaris_gslb.Protocols.Reading.{Reading, found, failed, reading}
use polaris_gslb.Protocols.Heard.{
  is_found, Passes, read_until-found, found-read_until, IsHeard, found_text, read_until-IsHeard,
}
use polaris_gslb.Protocols.Http.{
  HttpRequest, Answer, http_read, response_of, has_status, after_send, after_connect, wrapped,
  exchange, make, get, request_text,
}
use polaris_gslb.Protocols.Http
use polaris_gslb.Monitors.Run.{
  Ended, Matcher, tcp_read, match_ended, tcp_match, tcp_send, sent, connected, tcp_run,
  check_status, http_ended, http_run,
}

-- The expression matches in some text that was heard, if there is an expression.
abbrev pub IsMatched : Matcher → Option String → Peer → ℕ → TcpSocket → Type 0
IsMatched matches none peer fuel s = Unit
IsMatched matches (some re) peer fuel s = Passes (matches re) peer fuel 0 "" s

-- The socket is there and connects, the string is sent if there is one, and the expression matches.
pub record Succeeds (matches : Matcher) (p : TcpParams) (peer : Peer) (fuel : ℕ) (s : TcpSocket)
    : Type 0 where
  pub open_socket : TcpSocket
  pub sent_socket : TcpSocket
  pub opens : peer.opens ≡ true
  pub connects : connect peer s ≡ (ok tt, open_socket)
  pub sends : tcp_send p.send_string peer open_socket ≡ (ok tt, sent_socket)
  pub is_matched : IsMatched matches p.match_re peer fuel sent_socket

abbrev EndsWell : Ended → Type 0
EndsWell e = e ≡ some (ok tt)

match_ended-passed : (r : Reading) → EndsWell (match_ended r) → is_found r ≡ true
unfolding match_ended
match_ended-passed (found text s) h = refl
match_ended-passed (failed s) h = cc
match_ended-passed reading h = cc

passed-match_ended : (r : Reading) → is_found r ≡ true → EndsWell (match_ended r)
unfolding match_ended
passed-match_ended (found text s) h = refl
passed-match_ended (failed s) h = cc
passed-match_ended reading h = cc

module _ (matches : Matcher) (peer : Peer) (fuel : ℕ) where
  tcp_match-passed :
      (re : Option String) (s : TcpSocket)
      → EndsWell (tcp_match matches re peer fuel s) ↔ IsMatched matches re peer fuel s
  unfolding tcp_match tcp_read
  tcp_match-passed none s = (λ h. tt, λ h. refl)
  tcp_match-passed (some re) s = (
    λ h. read_until-found (matches re) peer fuel 0 "" s (match_ended-passed _ h),
    λ (m, t, below, is_heard, passes).
        passed-match_ended _
          (found-read_until (matches re) peer fuel 0 m "" t s below is_heard passes),
  )

  sent-passed :
      (re : Option String) (q : Result (Unit {0}) × TcpSocket)
      → EndsWell (sent matches re peer fuel q)
      → (s : TcpSocket) × (q ≡ (ok tt, s)) × IsMatched matches re peer fuel s
  sent-passed re (raise e, s) h = cc
  sent-passed re (ok u, s) h = (s, refl, (tcp_match-passed re s).0 h)

  connected-passed :
      (p : TcpParams) (s : TcpSocket) (q : Result (Unit {0}) × TcpSocket)
      → peer.opens ≡ true
      → connect peer s ≡ q
      → EndsWell (connected matches p peer fuel q)
      → Succeeds matches p peer fuel s
  connected-passed p s (raise e, s') opens returned h = cc
  connected-passed p s (ok u, s') opens returned h =
      let (s'', sends, is_matched) = sent-passed p.match_re (tcp_send p.send_string peer s') h in
      record {
        open_socket = s';
        sent_socket = s'';
        opens = opens;
        connects = returned;
        sends = sends;
        is_matched = is_matched;
      }

-- The TCP monitor passes exactly if a socket can be had and connects, the string is sent if there is one, and, if
-- there is an expression, it matches in the text of the first so many calls of recv, all of which
-- return bytes.
pub tcp_run-passed_iff :
    (matches : Matcher) (p : TcpParams) (timeout : ℕ) (peer : Peer) (fuel : ℕ)
    → (tcp_run matches p timeout peer fuel ≡ some (ok tt))
      ↔ Succeeds matches p peer fuel (fresh timeout true)
unfolding tcp_run
tcp_run-passed_iff matches p timeout peer fuel = elim (Bool-cases (peer.opens)) [
  | inl opens ↦ rw (new-opened peer timeout true opens) (
    connected-passed matches peer fuel p (fresh timeout true) (connect peer (fresh timeout true))
        opens refl,
    λ y. rw (y.connects) (
        rw (y.sends)
          ((tcp_match-passed matches peer fuel p.match_re y.sent_socket).1 y.is_matched)),
  )
  | inr fails ↦
      rw (new-refused peer timeout true fails)
        (λ h. cc h, λ y. let opens = y.opens in cc (opens, fails))
]

-- The HTTP monitor's request goes out, and a text that was heard has an expected code.
pub record Responds (p : HttpParams) (request : HttpRequest) (peer : Peer) (fuel : ℕ)
    (s : TcpSocket) : Type 0 where
  pub open_socket : TcpSocket
  pub sent_socket : TcpSocket
  pub text : String
  pub status : ℕ
  pub reason : String
  pub opens : peer.opens ≡ true
  pub wraps : wrapped peer request.use_ssl ≡ ok tt
  pub connects : connect peer s ≡ (ok tt, open_socket)
  pub sends : sendall peer (request_text "GET" request) open_socket ≡ (ok tt, sent_socket)
  pub is_heard : IsHeard has_status peer fuel 0 "" sent_socket text
  pub has_line : find_status text ≡ some (status, reason)
  pub is_expected : exists (λ code. eqb status code) p.expected_codes ≡ true

-- The text that was read has a Status-Line with a code among `codes`.
abbrev IsExpected : List ℕ → Reading → Type 0
IsExpected codes r =
    (text : String) × (status : ℕ) × (reason : String) × (found_text r ≡ some text)
    × (find_status text ≡ some (status, reason))
    × (exists (λ code. eqb status code) codes ≡ true)

check_status-passed :
    (codes : List ℕ) (r : HttpResponse)
    → check_status codes r ≡ ok tt
    → exists (λ code. eqb r.status_code code) codes ≡ true
unfolding check_status
check_status-passed codes r h = ground (arith, h)

line-IsExpected :
    (codes : List ℕ) (text : String) (s : TcpSocket) (line : Option StatusLine)
    → find_status text ≡ line
    → EndsWell (http_ended codes (some (Status.new text)))
    → IsExpected codes (found text s)
unfolding http_ended Status.new
line-IsExpected codes text s none e h = let h' = rw e at h in cc
line-IsExpected codes text s (some (status, reason)) e h =
    let r : HttpResponse = record { raw = text; status_code = status; status_reason = reason } in
    let passes : some (check_status codes r) ≡ some (ok tt) = rw e at h in
    (text, status, reason, refl, e, check_status-passed codes r (cc passes))

response_of-IsExpected :
    (codes : List ℕ) (r : Reading)
    → EndsWell (http_ended codes (response_of r))
    → IsExpected codes r
unfolding response_of http_ended
response_of-IsExpected codes (found text s) h =
    line-IsExpected codes text s (find_status text) refl h
response_of-IsExpected codes (failed s) h = cc
response_of-IsExpected codes reading h = cc

sent-Responds :
    (p : HttpParams) (request : HttpRequest) (peer : Peer) (fuel : ℕ) (s s' : TcpSocket)
    (q : Result (Unit {0}) × TcpSocket)
    → peer.opens ≡ true
    → wrapped peer request.use_ssl ≡ ok tt
    → connect peer s ≡ (ok tt, s')
    → sendall peer (request_text "GET" request) s' ≡ q
    → EndsWell (http_ended p.expected_codes (after_send peer fuel q))
    → Responds p request peer fuel s
unfolding http_ended
sent-Responds p request peer fuel s s' (raise e, s'') opens wraps connects returned h = cc
sent-Responds p request peer fuel s s' (ok u, s'') opens wraps connects returned h =
    let (text, status, reason, is_found, has_line, is_expected) =
      response_of-IsExpected p.expected_codes (http_read peer fuel s'') h in
    record {
      open_socket = s';
      sent_socket = s'';
      text = text;
      status = status;
      reason = reason;
      opens = opens;
      wraps = wraps;
      connects = connects;
      sends = returned;
      is_heard = read_until-IsHeard has_status peer fuel 0 "" text s'' is_found;
      has_line = has_line;
      is_expected = is_expected;
    }

connected-Responds :
    (p : HttpParams) (request : HttpRequest) (peer : Peer) (fuel : ℕ) (s : TcpSocket)
    (q : Result (Unit {0}) × TcpSocket)
    → peer.opens ≡ true
    → wrapped peer request.use_ssl ≡ ok tt
    → connect peer s ≡ q
    → EndsWell
        (http_ended p.expected_codes (after_connect peer fuel (request_text "GET" request) q))
    → Responds p request peer fuel s
unfolding http_ended
connected-Responds p request peer fuel s (raise e, s') opens wraps returned h = cc
connected-Responds p request peer fuel s (ok u, s') opens wraps returned h =
    sent-Responds p request peer fuel s s' _ opens wraps returned refl h

exchange-Responds :
    (p : HttpParams) (request : HttpRequest) (peer : Peer) (fuel : ℕ) (s : TcpSocket)
    (w : Result (Unit {0}))
    → peer.opens ≡ true
    → wrapped peer request.use_ssl ≡ w
    → EndsWell (http_ended p.expected_codes (exchange peer fuel (request_text "GET" request) s w))
    → Responds p request peer fuel s
unfolding exchange http_ended
exchange-Responds p request peer fuel s (raise e) opens wraps h = cc
exchange-Responds p request peer fuel s (ok u) opens wraps h =
    connected-Responds p request peer fuel s (connect peer s) opens wraps refl h

abbrev pub request_of : HttpParams → ℕ → String → HttpRequest
request_of p timeout dst_ip = Http.new dst_ip p.use_ssl p.hostname p.url_path (some p.port) timeout

-- The HTTP monitor passes only if a socket can be had, TLS is set up where it is asked for, the socket connects, the GET
-- request is sent, and the text of the first so many calls of recv, all of which return bytes, starts
-- with a Status-Line whose code is an expected one.
pub http_run-Responds :
    (p : HttpParams) (timeout : ℕ) (dst_ip : String) (peer : Peer) (fuel : ℕ)
    → http_run p timeout dst_ip peer fuel ≡ some (ok tt)
    → Responds p (request_of p timeout dst_ip) peer fuel (fresh timeout true)
unfolding http_run get make Http.new
http_run-Responds p timeout dst_ip peer fuel h = elim (Bool-cases (peer.opens)) [
  | inl opens ↦
      exchange-Responds p (request_of p timeout dst_ip) peer fuel (fresh timeout true) _ opens refl
        (rw (new-opened peer timeout true opens) at h)
  | inr fails ↦ let raises = rw (new-refused peer timeout true fails, http_ended) at h in cc
]
