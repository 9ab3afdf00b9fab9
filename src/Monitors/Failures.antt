-- ===== src/Monitors/Failures.antt =====
-- With which exceptions a run of a monitor fails.
use polaris_gslb.Prelude.{
  ℕ, ◌≡◌, refl, sym, ap, ◌∙◌, ◌⊎◌, String, Bool, true, false, Option, none, some, List, exists, eqb,
  Bool-cases, Option-cases, inl, inr,
}
use polaris_gslb.Prelude.Result.{
  Exception, Result, ok, raise, protocol_error, monitor_failed, error, value_error, key_error,
  index_error, type_error, attribute_error, name_error, os_error, exception,
}
use polaris_gslb.Monitors.{TcpParams, Kind, http, tcp, forced}
use polaris_gslb.Protocols.{Peer, TcpSocket, finish, connect, sendall, fresh}
use polaris_gslb.Protocols.Opening.{new-opened, new-refused}
use polaris_gslb.Protocols.Status.{HttpResponse, find_status}
use polaris_gslb.Protocols.Status
use polaris_gslb.Protocols.Reading.{Reading, found, failed, reading}
use polaris_gslb.Protocols.Http.{
  HttpRequest, Answer, response_of, has_status, http_read, after_send, after_connect, wrapped,
  exchange, on_socket, make, get,
}
use polaris_gslb.Protocols.Http
use polaris_gslb.Monitors.Run.{
  Matcher, translate, forced_run, match_ended, tcp_match, tcp_send, sent, connected, tcp_run,
  check_status, http_ended, http_run, run_kind,
}

-- An exception of the run is of this kind.
abbrev pub Raises {ℓ} : {A : Type ℓ} → Exception → Result A → Type 0
Raises x (ok a) = Unit
Raises x (raise e) = e ≡ x

abbrev pub RaisesAtMost {ℓ} : {A : Type ℓ} → Exception → Option (Result A) → Type 0
RaisesAtMost x none = Unit
RaisesAtMost x (some r) = Raises x r

finish-Raises {ℓ} :
    {A : Type ℓ} (took : ℕ) (o : Option A) (s : TcpSocket)
    → Raises protocol_error (finish took o s).0
unfolding finish
finish-Raises took none s = refl
finish-Raises took (some a) s = tt

connect-Raises : (peer : Peer) (s : TcpSocket) → Raises protocol_error (connect peer s).0
unfolding connect
connect-Raises peer s = finish-Raises _ (peer.connect s.sock_timeout).result s

sendall-Raises :
    (peer : Peer) (text : String) (s : TcpSocket) → Raises protocol_error (sendall peer text s).0
unfolding sendall
sendall-Raises peer text s = finish-Raises _ (peer.send text s.sock_timeout).result s

translated : {e : Exception} → e ≡ protocol_error → translate e ≡ monitor_failed
unfolding translate
translated h = rw h refl

module _ (peer : Peer) (fuel : ℕ) where
  match_ended-Raises : (r : Reading) → RaisesAtMost monitor_failed (match_ended r)
  unfolding match_ended
  match_ended-Raises (found text s) = tt
  match_ended-Raises (failed s) = refl
  match_ended-Raises reading = tt

  tcp_match-Raises :
      (matches : Matcher) (re : Option String) (s : TcpSocket)
      → RaisesAtMost monitor_failed (tcp_match matches re peer fuel s)
  unfolding tcp_match
  tcp_match-Raises matches none s = tt
  tcp_match-Raises matches (some re) s = match_ended-Raises _

  sent-Raises :
      (matches : Matcher) (re : Option String) (q : Result (Unit {0}) × TcpSocket)
      → Raises protocol_error q.0
      → RaisesAtMost monitor_failed (sent matches re peer fuel q)
  sent-Raises matches re (raise e, s) h = translated h
  sent-Raises matches re (ok u, s) h = tcp_match-Raises matches re s

  tcp_send-Raises :
      (text : Option String) (s : TcpSocket) → Raises protocol_error (tcp_send text peer s).0
  tcp_send-Raises none s = tt
  tcp_send-Raises (some text) s = sendall-Raises peer text s

  connected-Raises :
      (matches : Matcher) (p : TcpParams) (q : Result (Unit {0}) × TcpSocket)
      → Raises protocol_error q.0
      → RaisesAtMost monitor_failed (connected matches p peer fuel q)
  connected-Raises matches p (raise e, s) h = translated h
  connected-Raises matches p (ok u, s) h =
      sent-Raises matches p.match_re (tcp_send p.send_string peer s)
        (tcp_send-Raises p.send_string s)

  new-Raises : (text : String) → Raises protocol_error (Status.new text)
  unfolding Status.new
  new-Raises text = elim (Option-cases (find_status text)) [
    | inl none' ↦ rw none' refl
    | inr (st, e) ↦ rw e tt
  ]

  response_of-Raises : (r : Reading) → RaisesAtMost protocol_error (response_of r)
  unfolding response_of
  response_of-Raises (found text s) = new-Raises text
  response_of-Raises (failed s) = refl
  response_of-Raises reading = tt

  after_send-Raises :
      (q : Result (Unit {0}) × TcpSocket)
      → Raises protocol_error q.0
      → RaisesAtMost protocol_error (after_send peer fuel q)
  after_send-Raises (raise e, s) h = h
  after_send-Raises (ok u, s) h = response_of-Raises _

  after_connect-Raises :
      (text : String) (q : Result (Unit {0}) × TcpSocket)
      → Raises protocol_error q.0
      → RaisesAtMost protocol_error (after_connect peer fuel text q)
  after_connect-Raises text (raise e, s) h = h
  after_connect-Raises text (ok u, s) h =
      after_send-Raises (sendall peer text s) (sendall-Raises peer text s)

  exchange-Raises :
      (text : String) (s : TcpSocket) (w : Result (Unit {0}))
      → w ≡ ok tt
      → RaisesAtMost protocol_error (exchange peer fuel text s w)
  unfolding exchange
  exchange-Raises text s (raise e) h = cc
  exchange-Raises text s (ok u) h =
      after_connect-Raises text (connect peer s) (connect-Raises peer s)

  check_status-Raises :
      (codes : List ℕ) (r : HttpResponse) → Raises monitor_failed (check_status codes r)
  unfolding check_status
  check_status-Raises codes r = elim (Bool-cases (exists (λ code. eqb r.status_code code) codes)) [
    | inl expected ↦ rw expected tt
    | inr other ↦ rw other refl
  ]

  http_ended-Raises :
      (codes : List ℕ) (a : Answer)
      → RaisesAtMost protocol_error a
      → RaisesAtMost monitor_failed (http_ended codes a)
  unfolding http_ended
  http_ended-Raises codes none h = tt
  http_ended-Raises codes (some (raise e)) h = translated h
  http_ended-Raises codes (some (ok r)) h = check_status-Raises codes r

forced_run-Raises : (up : Bool) → Raises monitor_failed (forced_run up)
unfolding forced_run
forced_run-Raises true = tt
forced_run-Raises false = refl

-- How a run of each kind may fail: with MonitorFailed; with the OSError of socket.socket(); or, with
-- TLS, with what the wrap of the socket raises.
abbrev pub IsFailureOf : Kind → Peer → Exception → Type 0
IsFailureOf (forced up) peer e = e ≡ monitor_failed
IsFailureOf (tcp p) peer e = (e ≡ monitor_failed) ⊎ ((peer.opens ≡ false) × (e ≡ os_error))
IsFailureOf (http p) peer e =
    (e ≡ monitor_failed)
    ⊎ (((peer.opens ≡ false) × (e ≡ os_error)) ⊎ ((p.use_ssl ≡ true) × (peer.wrap ≡ raise e)))

raised-RaisesAtMost {ℓ} :
    {A : Type ℓ} (x e : Exception) (o : Option (Result A))
    → RaisesAtMost x o
    → o ≡ some (raise e)
    → e ≡ x
raised-RaisesAtMost x e none h raises = cc
raised-RaisesAtMost x e (some (ok a)) h raises = cc
raised-RaisesAtMost x e (some (raise e')) h raises = let same : e' ≡ e = cc raises in sym same ∙ h

translate-cases : (e : Exception) → (translate e ≡ monitor_failed) ⊎ (translate e ≡ e)
unfolding translate
translate-cases error = inr refl
translate-cases protocol_error = inl refl
translate-cases monitor_failed = inl refl
translate-cases value_error = inr refl
translate-cases key_error = inr refl
translate-cases index_error = inr refl
translate-cases type_error = inr refl
translate-cases attribute_error = inr refl
translate-cases name_error = inr refl
translate-cases os_error = inr refl
translate-cases exception = inr refl

wrapped-raise :
    (peer : Peer) (use_ssl : Bool) {e : Exception}
    → wrapped peer use_ssl ≡ raise e
    → (use_ssl ≡ true) × (peer.wrap ≡ raise e)
wrapped-raise peer true h = (refl, h)
wrapped-raise peer false h = cc

module _ (peer : Peer) (fuel : ℕ) where
  translated_wrap :
      (e e' : Exception) (use_ssl : Bool)
      → wrapped peer use_ssl ≡ raise e'
      → translate e' ≡ e
      → (e ≡ monitor_failed) ⊎ ((use_ssl ≡ true) × (peer.wrap ≡ raise e))
  translated_wrap e e' use_ssl wraps same = elim (translate-cases e') [
    | inl to_failed ↦ inl (sym same ∙ to_failed)
    | inr kept ↦
        let (uses, raises) = wrapped-raise peer use_ssl wraps in
        inr (uses, raises ∙ ap raise (sym kept ∙ same))
  ]

  exchange-failure :
      (codes : List ℕ) (text : String) (use_ssl : Bool) (s : TcpSocket) (e : Exception)
      (w : Result (Unit {0}))
      → wrapped peer use_ssl ≡ w
      → http_ended codes (exchange peer fuel text s w) ≡ some (raise e)
      → (e ≡ monitor_failed) ⊎ ((use_ssl ≡ true) × (peer.wrap ≡ raise e))
  unfolding exchange http_ended
  exchange-failure codes text use_ssl s e (raise e') wraps h =
      translated_wrap e e' use_ssl wraps (let same : translate e' ≡ e = cc h in same)
  exchange-failure codes text use_ssl s e (ok u) wraps h = inl (
      raised-RaisesAtMost monitor_failed e _
        (http_ended-Raises peer fuel codes (exchange peer fuel text s (ok u))
          (exchange-Raises peer fuel text s (ok u) refl))
        h)

  os_error_kept : {e : Exception} → translate os_error ≡ e → e ≡ os_error
  unfolding translate
  os_error_kept h = sym h

-- A run of a monitor that raises an exception raises MonitorFailed, unless socket.socket() raises
-- OSError for the TCP or the HTTP monitor, which the run then raises, or the SSL wrap of the socket
-- raises for an HTTP monitor with TLS, whose exception the run then raises. The forced monitor raises
-- MonitorFailed only.
pub run_kind-Raises :
    (matches : Matcher) (timeout : ℕ) (dst_ip : String) (peer : Peer) (fuel : ℕ) (kind : Kind)
    (e : Exception)
    → run_kind matches timeout dst_ip peer fuel kind ≡ some (raise e)
    → IsFailureOf kind peer e
unfolding run_kind tcp_run http_run get make Http.new
run_kind-Raises matches timeout dst_ip peer fuel (forced up) e h =
    raised-RaisesAtMost monitor_failed e (some (forced_run up)) (forced_run-Raises up) h
run_kind-Raises matches timeout dst_ip peer fuel (tcp p) e h = elim (Bool-cases (peer.opens)) [
  | inl opens ↦
      let s = fresh timeout true in
      inl (
        raised-RaisesAtMost monitor_failed e (connected matches p peer fuel (connect peer s))
          (connected-Raises peer fuel matches p (connect peer s) (connect-Raises peer s))
          (rw (new-opened peer timeout true opens) at h))
  | inr fails ↦
      let raises : some (raise os_error) ≡ some (raise e) =
        rw (new-refused peer timeout true fails) at h in
      inr (fails, let same : os_error ≡ e = cc raises in sym same)
]
run_kind-Raises matches timeout dst_ip peer fuel (http p) e h = elim (Bool-cases (peer.opens)) [
  | inl opens ↦
      let raises = rw (new-opened peer timeout true opens) at h in
      elim (exchange-failure peer fuel p.expected_codes _ p.use_ssl (fresh timeout true) e _ refl
        raises) [ inl failed_run ↦ inl failed_run | inr wraps ↦ inr (inr wraps) ]
  | inr fails ↦
      let raises : some (raise (translate os_error)) ≡ some (raise e) =
        rw (new-refused peer timeout true fails, http_ended) at h in
      let same : translate os_error ≡ e = cc raises in
      inr (inl (fails, os_error_kept peer fuel same))
]
