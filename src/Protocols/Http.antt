-- ===== src/Protocols/Http.antt =====
-- polaris_health/protocols/http.py, HTTPRequest.
use polaris_gslb.Prelude.{
  ℕ, String, Bool, true, false, Option, none, some, if◌then◌else◌, append_text, starts_with_slash,
  prepend_slash,
}
use polaris_gslb.Prelude.Eq.{◌==◌, string_eq}
use polaris_gslb.Prelude.Dict.{is_some}
use polaris_gslb.Prelude.Result.{Result, ok, raise, protocol_error}
use polaris_gslb.Protocols.{Peer, TcpSocket, connect, sendall}
use polaris_gslb.Protocols
use polaris_gslb.Protocols.Status.{HttpResponse, find_status}
use polaris_gslb.Protocols.Status
use polaris_gslb.Protocols.Reading.{Reading, found, failed, reading, read_until}

pub record HttpRequest : Type 0 where
  pub ip : String
  pub use_ssl : Bool
  pub hostname : Option String
  pub url_path : String
  pub port : ℕ
  pub timeout : ℕ

abbrev default_port : Bool → Option ℕ → ℕ
default_port use_ssl (some port) = port
default_port use_ssl none = if use_ssl then 443 else 80

-- HTTPRequest.__init__
unfoldable pub new : String → Bool → Option String → String → Option ℕ → ℕ → HttpRequest
new ip use_ssl hostname url_path port timeout = record {
  ip = ip;
  use_ssl = use_ssl;
  hostname = hostname;
  url_path = if starts_with_slash url_path then url_path else prepend_slash url_path;
  port = default_port use_ssl port;
  timeout = timeout;
}

-- the value of the Host header: the hostname, if there is one and it is not empty
unfoldable pub host_of : String → Option String → String
host_of ip none = ip
host_of ip (some hostname) = if hostname == "" then ip else hostname

-- req_str
unfoldable pub request_text : String → HttpRequest → String
unfolding host_of
request_text method r = append_text method (
    append_text " " (
      append_text r.url_path (
        append_text " HTTP/1.1\r\nHost: "
          (append_text (host_of r.ip r.hostname) "\r\nConnection: close\r\n\r\n"))))

-- What the caller gets: a response or an exception. Out of fuel there is none yet.
abbrev pub Answer : Type 0
Answer = Option (Result HttpResponse)

-- _STATUS_LINE_RE.search(response_string[:128])
abbrev pub has_status : String → Bool
has_status text = is_some (find_status text)

-- the end of the loop of `_make`
unfoldable pub response_of : Reading → Answer
response_of (found text s) = some (Status.new text)
response_of (failed s) = some (raise protocol_error)
response_of reading = none

abbrev pub http_read : Peer → ℕ → TcpSocket → Reading
http_read peer fuel s = read_until has_status peer fuel 0 "" s

abbrev pub after_send : Peer → ℕ → Result (Unit {0}) × TcpSocket → Answer
after_send peer fuel (raise e, s) = some (raise e)
after_send peer fuel (ok u, s) = response_of (http_read peer fuel s)

abbrev pub after_connect : Peer → ℕ → String → Result (Unit {0}) × TcpSocket → Answer
after_connect peer fuel text (raise e, s) = some (raise e)
after_connect peer fuel text (ok u, s) = after_send peer fuel (sendall peer text s)

abbrev pub wrapped : Peer → Bool → Result (Unit {0})
wrapped peer true = peer.wrap
wrapped peer false = ok tt

-- _make, from the socket on
unfoldable pub exchange : Peer → ℕ → String → TcpSocket → Result (Unit {0}) → Answer
unfolding connect sendall response_of
exchange peer fuel text s (raise e) = some (raise e)
exchange peer fuel text s (ok u) = after_connect peer fuel text (connect peer s)

abbrev pub on_socket : Peer → ℕ → String → HttpRequest → Result TcpSocket → Answer
on_socket peer fuel method r (raise e) = some (raise e)
on_socket peer fuel method r (ok s) =
    exchange peer fuel (request_text method r) s (wrapped peer r.use_ssl)

-- HTTPRequest._make and get, with at most `fuel` calls of recv
unfoldable pub make : Peer → ℕ → String → HttpRequest → Answer
unfolding request_text exchange Protocols.new
make peer fuel method r = on_socket peer fuel method r (Protocols.new peer r.timeout true)

unfoldable pub get : Peer → ℕ → HttpRequest → Answer
unfolding make
get peer fuel r = make peer fuel "GET" r
