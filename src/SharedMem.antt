-- ===== src/SharedMem.antt =====
-- polaris_common/sharedmem.py: MemcacheClient. What the client of the memcache library does is a
-- parameter: a call returns a value, or it raises an exception of any kind.
use polaris_gslb.Prelude.{ℕ, Bool, true, false, Option, none}
use polaris_gslb.Prelude.Result.{Result, ok, raise}
use polaris_gslb.Published.{DistState}
use polaris_gslb.Tracker.Pusher.{Setting, done, stored, lost}
use polaris_gslb.Pdns.{Server}
use polaris_gslb.Pdns.Updates.{update_state}

-- What `set` returns: True, or an int.
pub data Returned : Type 0 where
  is_true zero : Returned

-- MemcacheClient.set
unfoldable pub set : Result Returned → Returned
set (ok r) = r
set (raise e) = zero

-- MemcacheClient.get
unfoldable pub get {ℓ} : {A : Type ℓ} → Result (Option A) → Option A
get (ok r) = r
get (raise e) = none

-- A `set` as the pusher sees it, on whether the server has stored the value.
unfoldable pub setting : Result Returned → Bool → Setting
unfolding set
setting r has_stored = elim (set r) [
  | is_true ↦ done
  | zero ↦ elim has_stored [ true ↦ stored | false ↦ lost ]
]

-- StateUpdater.update_state, on what the library's two calls of `get` do
unfoldable pub update_from :
    Result (Option ℕ) → Result (Option DistState) → Server → Result (Unit {0}) × Server
unfolding get
update_from state_ts state server = update_state (get state_ts) (get state) server
