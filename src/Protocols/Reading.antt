-- ===== src/Protocols/Reading.antt =====
-- The loop that the TCP monitor and HTTPRequest share: read until a test of all that was received
-- passes, the remote side hangs up, or the socket fails. It runs on fuel.
use polaris_gslb.Prelude.{
  ℕ, zero, suc, ◌+◌, String, Bool, Option, none, some, if◌then◌else◌, append_text,
}
use polaris_gslb.Prelude.Result.{Result, ok, raise}
use polaris_gslb.Protocols.{Received, hung_up, some_bytes, Peer, TcpSocket, recv, close}

-- How the loop ends: the text that passed the test, or the exception that the caller raises; and
-- the socket. Out of fuel it still reads.
pub data Reading : Type 0 where
  found : String → TcpSocket → Reading
  failed : TcpSocket → Reading
  reading : Reading

-- What was received is added to the text.
abbrev pub received : Peer → (String → Bool) → String → Received → TcpSocket → Option Reading
received peer test text hung_up s = some (failed s)
received peer test text (some_bytes more) s =
    let all = append_text text more in if test all then some (found all (close peer s)) else none

abbrev pub next_text : String → Received → String
next_text text hung_up = text
next_text text (some_bytes more) = append_text text more

abbrev pub or_on : Option Reading → Reading → Reading
or_on none rest = rest
or_on (some r) rest = r

abbrev pub after_recv :
    Peer
    → (String → Bool)
    → String
    → (Received → TcpSocket → Reading)
    → Result Received × TcpSocket
    → Reading
after_recv peer test text rest (raise e, s) = failed s
after_recv peer test text rest (ok r, s) = or_on (received peer test text r s) (rest r s)

-- `n` is the number of calls of recv so far
unfoldable pub read_until : (String → Bool) → Peer → ℕ → ℕ → String → TcpSocket → Reading
unfolding recv close
read_until test peer zero n text s = reading
read_until test peer (suc fuel) n text s =
    after_recv peer test text (λ r s'. read_until test peer fuel (n + 1) (next_text text r) s')
      (recv peer n s)
