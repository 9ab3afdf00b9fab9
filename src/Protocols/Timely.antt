-- ===== src/Protocols/Timely.antt =====
-- A peer that stops to send ends the read loop.
use polaris_gslb.Prelude.{
  eqb, ℕ, zero, suc, ◌+◌, ◌≤◌, ◌<◌, ◌≡◌, refl, String, Bool, true, false, Option, none, some, arith,
  Bool-cases, inl, inr, append_text,
}
use polaris_gslb.Prelude.Result.{Result, ok, raise}
use polaris_gslb.Protocols.{Received, hung_up, some_bytes, Peer, TcpSocket, finish, recv}
use polaris_gslb.Protocols.Reading.{
  Reading, reading, received, next_text, or_on, after_recv, read_until,
}

abbrev pub is_bytes : Option Received → Bool
is_bytes none = false
is_bytes (some hung_up) = false
is_bytes (some (some_bytes more)) = true

-- The peer sends only so much: from the call `last` of recv on, a call returns no bytes. It fails, as
-- by a timeout, or returns the end of the connection.
pub record IsFinite (peer : Peer) (last : ℕ) : Type 0 where
  pub silent : (n t : ℕ) → last ≤ n → is_bytes (peer.recv n t).result ≡ false

abbrev pub is_ended : Reading → Bool
is_ended reading = false
is_ended _ = true

-- What the loop does with received bytes ends it, or it goes on.
received-ended :
    (peer : Peer) (test : String → Bool) (text : String) (r : Received) (s : TcpSocket)
    (rest : Reading)
    → is_ended rest ≡ true
    → is_ended (or_on (received peer test text r s) rest) ≡ true
received-ended peer test text hung_up s rest h = refl
received-ended peer test text (some_bytes more) s rest h =
    elim (Bool-cases (test (append_text text more))) [
      | inl passes ↦ rw passes refl
      | inr fails ↦ rw fails h
    ]

module _ (peer : Peer) (test : String → Bool) where
  after_recv-ended :
      (text : String) (rest : Received → TcpSocket → Reading) (q : Result Received × TcpSocket)
      → ((r : Received) (s : TcpSocket) → is_ended (rest r s) ≡ true)
      → is_ended (after_recv peer test text rest q) ≡ true
  after_recv-ended text rest (raise e, s) ih = refl
  after_recv-ended text rest (ok r, s) ih = received-ended peer test text r s (rest r s) (ih r s)

  -- A call that returns no bytes is the last one.
  silent-ended :
      (text : String) (rest : Received → TcpSocket → Reading) (took : ℕ) (o : Option Received)
      (s : TcpSocket)
      → is_bytes o ≡ false
      → is_ended (after_recv peer test text rest (finish took o s)) ≡ true
  unfolding finish
  silent-ended text rest took none s h = refl
  silent-ended text rest took (some hung_up) s h = refl
  silent-ended text rest took (some (some_bytes more)) s h = cc

  -- Up to the call `last`, the loop ends.
  pub read_until-ended :
      (last fuel n : ℕ) (text : String) (s : TcpSocket)
      → IsFinite peer last
      → n ≤ last
      → last < n + fuel
      → is_ended (read_until test peer fuel n text s) ≡ true
  unfolding read_until recv
  read_until-ended last zero n text s finite below h = absurd (omega arith)
  read_until-ended last (suc fuel) n text s finite below h = elim (Bool-cases (eqb last n)) [
    | inl here ↦
        silent-ended text _ (peer.recv n s.sock_timeout).took (peer.recv n s.sock_timeout).result s
          (finite.silent n s.sock_timeout (ground (arith, here)))
    | inr before ↦ after_recv-ended text _ (recv peer n s) (λ r s'.
        read_until-ended last fuel (n + 1) (next_text text r) s' finite (ground (arith, before))
          (omega arith))
  ]
