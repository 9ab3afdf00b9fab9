-- ===== src/Protocols/Opening.antt =====
-- TCPSocket.__init__, with and without a socket of the operating system.
use polaris_gslb.Prelude.{ℕ, ◌≡◌, ap, Bool, true, false, if◌then◌else◌}
use polaris_gslb.Prelude.Result.{ok, raise, os_error}
use polaris_gslb.Protocols.{Peer, fresh, new}

module _ (peer : Peer) (timeout : ℕ) (auto_timeout : Bool) where
  pub new-opened :
      peer.opens ≡ true → new peer timeout auto_timeout ≡ ok (fresh timeout auto_timeout)
  unfolding new
  new-opened h = ap (λ b. if b then ok (fresh timeout auto_timeout) else raise os_error) h

  pub new-refused : peer.opens ≡ false → new peer timeout auto_timeout ≡ raise os_error
  unfolding new
  new-refused h = ap (λ b. if b then ok (fresh timeout auto_timeout) else raise os_error) h
