-- ===== src/Protocols/Endless.antt =====
-- A peer that always has data ready keeps the read loop going when the timeout is spent.
use polaris_gslb.Prelude.{ℕ, zero, suc, ◌+◌, ◌≡◌, refl, String, Bool, false, some, append_text}
use polaris_gslb.Prelude.Result.{ok}
use polaris_gslb.Protocols.{some_bytes, Peer, TcpSocket, decrease_timeout, finish, recv}
use polaris_gslb.Protocols.Reading.{reading, read_until}

-- Every call of recv returns bytes, also one that does not block.
abbrev pub Streams : Peer → Type 0
Streams peer = (n t : ℕ) → (more : String) × ((peer.recv n t).result ≡ some (some_bytes more))

recv-Streams :
    (peer : Peer) (n : ℕ) (s : TcpSocket)
    → Streams peer
    → (more : String) × (s' : TcpSocket) × (recv peer n s ≡ (ok (some_bytes more), s'))
unfolding recv finish
recv-Streams peer n s streams =
    let (more, returned) = streams n s.sock_timeout in
    (more, decrease_timeout (peer.recv n s.sock_timeout).took s, rw returned refl)

-- Against a peer that always has data ready, none of which passes the test, the loop reads on after
-- any number of calls of recv, whatever the timeout.
pub read_until-endless :
    (test : String → Bool) (peer : Peer) (fuel n : ℕ) (text : String) (s : TcpSocket)
    → Streams peer
    → ((t : String) → test t ≡ false)
    → read_until test peer fuel n text s ≡ reading
unfolding read_until
read_until-endless test peer zero n text s streams never = refl
read_until-endless test peer (suc fuel) n text s streams never =
    let (more, s', returned) = recv-Streams peer n s streams in
    rw (returned, never (append_text text more))
      (read_until-endless test peer fuel (n + 1) (append_text text more) s' streams never)
