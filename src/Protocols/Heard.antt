-- ===== src/Protocols/Heard.antt =====
-- What the read loop finds, against what the peer sends.
use polaris_gslb.Prelude.{
  ℕ, zero, suc, ◌+◌, ◌<◌, ◌≡◌, refl, String, Bool, true, false, Option, none, some, arith,
  Bool-cases, inl, inr, append_text,
}
use polaris_gslb.Prelude.Result.{Result, ok, raise}
use polaris_gslb.Protocols.{Received, hung_up, some_bytes, Peer, TcpSocket, recv}
use polaris_gslb.Protocols.Reading.{
  Reading, found, failed, reading, next_text, after_recv, read_until,
}

abbrev pub then_heard :
    String → (String → TcpSocket → Option String) → Result Received × TcpSocket → Option String
then_heard text rest (raise e, s) = none
then_heard text rest (ok hung_up, s) = none
then_heard text rest (ok (some_bytes more), s) = rest (append_text text more) s

-- `text` and the text of the next `m` calls of recv, if they all return bytes.
unfoldable pub heard : Peer → ℕ → ℕ → String → TcpSocket → Option String
heard peer n zero text s = some text
heard peer n (suc m) text s =
    then_heard text (λ text' s'. heard peer (n + 1) m text' s') (recv peer n s)

abbrev pub is_found : Reading → Bool
is_found (found text s) = true
is_found _ = false

abbrev pub found_text : Reading → Option String
found_text (found text s) = some text
found_text _ = none

-- `t` was heard within `fuel` calls and passes the test.
abbrev pub IsHeard : (String → Bool) → Peer → ℕ → ℕ → String → TcpSocket → String → Type 0
IsHeard test peer fuel n text s t =
    (m : ℕ) × (m < fuel) × (heard peer n (suc m) text s ≡ some t) × (test t ≡ true)

-- Some text that was heard within `fuel` calls passes the test.
abbrev pub Passes : (String → Bool) → Peer → ℕ → ℕ → String → TcpSocket → Type 0
Passes test peer fuel n text s =
    (m : ℕ) × (heard_text : String) × (m < fuel)
    × (heard peer n (suc m) text s ≡ some heard_text)
    × (test heard_text ≡ true)

module _ (test : String → Bool) (peer : Peer) where
  found_step :
      (fuel n : ℕ) (text t : String) (s : TcpSocket) (q : Result Received × TcpSocket)
      → recv peer n s ≡ q
      → ((text' : String) (s' : TcpSocket)
          → found_text (read_until test peer fuel (n + 1) text' s') ≡ some t
          → IsHeard test peer fuel (n + 1) text' s' t)
      → found_text (
          after_recv peer test text
            (λ r s'. read_until test peer fuel (n + 1) (next_text text r) s')
            q)
        ≡ some t
      → IsHeard test peer (suc fuel) n text s t
  unfolding heard
  found_step fuel n text t s (raise e, s') returned ih h = cc
  found_step fuel n text t s (ok hung_up, s') returned ih h = cc
  found_step fuel n text t s (ok (some_bytes more), s') returned ih h =
      elim (Bool-cases (test (append_text text more))) [
        | inl passes ↦
            let same : some (append_text text more) ≡ some t = rw passes at h in
            (0, omega arith, rw (returned, heard) same, cc (passes, same))
        | inr fails ↦
            let (m, below, is_heard, passes) = ih (append_text text more) s' (rw fails at h) in
            (suc m, omega arith, rw (returned, heard) is_heard, passes)
      ]

  -- The text that the loop finds was heard, and passes the test.
  pub read_until-IsHeard :
      (fuel n : ℕ) (text t : String) (s : TcpSocket)
      → found_text (read_until test peer fuel n text s) ≡ some t
      → IsHeard test peer fuel n text s t
  unfolding read_until
  read_until-IsHeard zero n text t s h = cc
  read_until-IsHeard (suc fuel) n text t s h =
      found_step fuel n text t s (recv peer n s) refl
        (λ text' s'. read_until-IsHeard fuel (n + 1) text' t s') h

  is_found-text : (r : Reading) → is_found r ≡ true → (t : String) × (found_text r ≡ some t)
  is_found-text (found text s) h = (text, refl)
  is_found-text (failed s) h = cc
  is_found-text reading h = cc

  pub read_until-found :
      (fuel n : ℕ) (text : String) (s : TcpSocket)
      → is_found (read_until test peer fuel n text s) ≡ true
      → Passes test peer fuel n text s
  read_until-found fuel n text s h =
      let (t, e) = is_found-text (read_until test peer fuel n text s) h in
      let (m, below, is_heard, passes) = read_until-IsHeard fuel n text t s e in
      (m, t, below, is_heard, passes)

  passes_step :
      (fuel n m : ℕ) (text t : String) (s : TcpSocket) (q : Result Received × TcpSocket)
      → ((text' : String) (s' : TcpSocket) (m' : ℕ)
          → m ≡ suc m'
          → heard peer (n + 1) (suc m') text' s' ≡ some t
          → is_found (read_until test peer fuel (n + 1) text' s') ≡ true)
      → test t ≡ true
      → then_heard text (λ text' s'. heard peer (n + 1) m text' s') q ≡ some t
      → is_found (
          after_recv peer test text
            (λ r s'. read_until test peer fuel (n + 1) (next_text text r) s')
            q)
        ≡ true
  unfolding heard
  passes_step fuel n m text t s (raise e, s') ih passes h = cc
  passes_step fuel n m text t s (ok hung_up, s') ih passes h = cc
  passes_step fuel n zero text t s (ok (some_bytes more), s') ih passes h =
      let now : test (append_text text more) ≡ true = ground (arith, h, passes) in rw now refl
  passes_step fuel n (suc m') text t s (ok (some_bytes more), s') ih passes h =
      elim (Bool-cases (test (append_text text more))) [
        | inl now ↦ rw now refl
        | inr later ↦ rw later (ih (append_text text more) s' m' refl h)
      ]

  pub found-read_until :
      (fuel n m : ℕ) (text t : String) (s : TcpSocket)
      → m < fuel
      → heard peer n (suc m) text s ≡ some t
      → test t ≡ true
      → is_found (read_until test peer fuel n text s) ≡ true
  unfolding read_until heard
  found-read_until zero n m text t s below h passes = absurd (omega arith)
  found-read_until (suc fuel) n m text t s below h passes =
      passes_step fuel n m text t s (recv peer n s)
        (λ text' s' m' e h'.
          found-read_until fuel (n + 1) m' text' t s' (omega (arith, e)) h' passes)
        passes h
