-- ===== src/Protocols.antt =====
-- polaris_health/protocols/tcp.py: a TCP socket whose timeout is a budget for the whole session.
-- Times are in milliseconds. What the operating system's socket does is a parameter.
pub mod Status
pub mod Reading
pub mod Http
pub mod Timely
pub mod Opening
pub mod Heard
pub mod Endless
pub mod RoundTrip
use polaris_gslb.Prelude.{
  ℕ, zero, suc, ◌+◌, ◌-◌, ◌≤◌, ◌≡◌, String, Bool, true, false, Option, none, some, if◌then◌else◌,
}
use polaris_gslb.Prelude.Result.{Result, ok, raise, protocol_error, os_error}

-- One call of the socket: how long it takes, and what it returns; `none` is an OSError, such as a
-- timeout.
pub record Io {ℓ} (A : Type ℓ) : Type ℓ where
  pub took : ℕ
  pub result : Option A

-- What `recv` returns: no bytes, as the remote side has closed the connection, or some bytes, here
-- as the text that they decode to.
pub data Received : Type 0 where
  hung_up : Received
  some_bytes : String → Received

-- The operating system's socket with its peer. Each call is made under the timeout that is set; under
-- a timeout of 0 it does not block. The calls of `recv` are numbered. `opens` is whether
-- socket.socket() returns, or raises OSError.
pub record Peer : Type 0 where
  pub opens : Bool
  pub wrap : Result (Unit {0})
  pub connect : (timeout : ℕ) → Io (Unit {0})
  pub send : String → (timeout : ℕ) → Io (Unit {0})
  pub recv : ℕ → (timeout : ℕ) → Io Received
  pub shutdown : Bool

-- TCPSocket. `sock_timeout` is the timeout that is set on `_sock`.
pub record TcpSocket : Type 0 where
  pub timeout : ℕ
  pub auto_timeout : Bool
  pub sock_timeout : ℕ
  pub is_open : Bool

-- TCPSocket.__init__, when the socket is there
unfoldable pub fresh : ℕ → Bool → TcpSocket
fresh timeout auto_timeout = record {
  timeout = timeout;
  auto_timeout = auto_timeout;
  sock_timeout = timeout;
  is_open = true;
}

-- TCPSocket.__init__, which lets an OSError of socket.socket() pass
unfoldable pub new : Peer → ℕ → Bool → Result TcpSocket
unfolding fresh
new peer timeout auto_timeout =
    if peer.opens then ok (fresh timeout auto_timeout) else raise os_error

-- settimeout
unfoldable pub settimeout : ℕ → TcpSocket → TcpSocket
settimeout timeout s = record s { sock_timeout = timeout }

-- _decrease_timeout: a timeout below 0 is set to 0, as subtraction on ℕ does
unfoldable pub decrease_timeout : ℕ → TcpSocket → TcpSocket
unfolding settimeout
decrease_timeout time_taken s =
    if s.auto_timeout
    then settimeout (s.timeout - time_taken) (record s { timeout = s.timeout - time_taken })
    else s

-- The end of connect, sendall and recv: an OSError closes the socket and becomes a ProtocolError.
unfoldable pub finish {ℓ} : {A : Type ℓ} → ℕ → Option A → TcpSocket → Result A × TcpSocket
unfolding decrease_timeout
finish took none s = (raise protocol_error, record s { is_open = false })
finish took (some a) s = (ok a, decrease_timeout took s)

unfoldable pub connect : Peer → TcpSocket → Result (Unit {0}) × TcpSocket
unfolding finish
connect peer s = let io = peer.connect s.sock_timeout in finish io.took io.result s

unfoldable pub sendall : Peer → String → TcpSocket → Result (Unit {0}) × TcpSocket
unfolding finish
sendall peer text s = let io = peer.send text s.sock_timeout in finish io.took io.result s

-- the `n`-th call of recv
unfoldable pub recv : Peer → ℕ → TcpSocket → Result Received × TcpSocket
unfolding finish
recv peer n s = let io = peer.recv n s.sock_timeout in finish io.took io.result s

-- close: an OSError of shutdown passes over the close of the socket
unfoldable pub close : Peer → TcpSocket → TcpSocket
close peer s = if peer.shutdown then record s { is_open = false } else s
