-- ===== src/Sharing.antt =====
-- The pusher of polaris_health/tracker/__init__.py and the updater of polaris_pdns/core/polaris.py, over
-- the shared memory between them.
use polaris_gslb.Prelude.{
  ℕ, ◌≡◌, refl, sym, subst, ap, ◌∙◌, true, false, Option, some, arith, eqb, inl, inr,
}
use polaris_gslb.Prelude.Result.{Result, ok}
use polaris_gslb.Published.{DistState}
use polaris_gslb.State.{State, health_converged, to_dist_dict}
use polaris_gslb.Tracker.Pusher.{
  Memory, done, lost, Push, Pusher, push_forms, push_round, IsSteady, Succeeds, pushed,
  push_round-push, push_forms-done, push_forms-cases,
}
use polaris_gslb.State.Publish.{HasKnownPools, to_dist_dict-IsReady}
use polaris_gslb.Pdns.{Server}
use polaris_gslb.Pdns.Ready.{IsReady}
use polaris_gslb.Pdns.Updates.{update_state}
use polaris_gslb.Pdns.Carry.{IsReadyOrUnset, update_state-installs}
use polaris_gslb.Pdns.Holding.{Holds, update_state-Holds}

-- An update of the server from what shared memory holds.
abbrev pub fetch : Memory → Server → Result (Unit {0}) × Server
fetch memory s = update_state memory.timestamp memory.dist s

pub push_round-Succeeds :
    (ts : ℕ) (p : Push) (s : State) (pusher : Pusher)
    → eqb ts pusher.state_ts ≡ false
    → (health_converged s).1 ≡ true
    → Succeeds p
    → IsSteady ts p
    → (push_round ts p s pusher).1 ≡ pushed ts p (health_converged s).0
push_round-Succeeds ts p s pusher stale converged k steady =
    push_round-push ts p s pusher stale converged
    ∙ push_forms-done ts p (health_converged s).0 pusher k.set_dist k.set_generic k.set_timestamp
        steady

-- A push whose first set is lost and whose last returns True.
push_forms-lost :
    (ts : ℕ) (p : Push) (s : State) (pusher : Pusher)
    → p.set_dist ≡ lost
    → p.set_timestamp ≡ done
    → IsSteady ts p
    → ((push_forms p s pusher).state_ts ≡ pusher.state_ts)
      × ((push_forms p s pusher).memory.dist ≡ pusher.memory.dist)
      × ((push_forms p s pusher).memory.timestamp ≡ some ts)
unfolding push_forms
push_forms-lost ts p s pusher l d steady = (
  elim (push_forms-cases p s pusher) [
    | inl kept ↦ kept
    | inr ((d', _, _), _) ↦ absurd (let same : done ≡ lost = sym d' ∙ l in cc same)
  ],
  rw l refl,
  rw (d, steady.pushed) refl,
)

-- An update with the timestamp that the server has changes nothing.
fetch-same :
    (ts : ℕ) (fetched : Option DistState) (s : Server)
    → s.state_ts ≡ ts
    → update_state (some ts) fetched s ≡ (ok tt, s)
unfolding update_state
fetch-same ts fetched s same = let equal : eqb ts s.state_ts ≡ true = ground arith in rw equal refl

-- A push that succeeds, of a state whose global names have pools and all of whose members have a
-- status, under a timestamp that the pusher has not noted and that stays while it pushes. The next
-- update, of a server whose STATE is ready or was never set and that has another timestamp, makes the
-- server hold the state that was pushed, but for the indexes.
pub push_round-Holds :
    (ts : ℕ) (p : Push) (s : State) (pusher : Pusher) (server : Server)
    → HasKnownPools s
    → eqb ts pusher.state_ts ≡ false
    → (health_converged s).1 ≡ true
    → Succeeds p
    → IsSteady ts p
    → IsReadyOrUnset server.state
    → eqb ts server.state_ts ≡ false
    → Holds
        (to_dist_dict p.now p.rng (health_converged s).0)
        (fetch (push_round ts p s pusher).1.memory server).1.state
push_round-Holds ts p s pusher server known stale converged k steady ready new =
    let s' = (health_converged s).0 in
    let published_ready = to_dist_dict-IsReady p.now p.rng s' (unfold health_converged in known) in
    subst (λ x. Holds (to_dist_dict p.now p.rng s') (fetch x.memory server).1.state)
      (sym (push_round-Succeeds ts p s pusher stale converged k steady))
      (update_state-Holds ts (to_dist_dict p.now p.rng s') server ready published_ready new)

-- A state that is not served. Every member has a status, and a timestamp is new to the pusher and
-- stays as it is. A push whose first set, of the distribution form, is lost sets the timestamp all the
-- same; shared memory has a ready state from before, and an update, of a server whose STATE is ready
-- or was never set and that has another timestamp, takes that old state under the new timestamp. The
-- pusher tries again, and now all is stored; but the next update finds the timestamp that the server
-- has, and changes nothing.
pub push_round-missed :
    (ts : ℕ) (p q : Push) (s s' : State) (pusher : Pusher) (old : DistState) (server : Server)
    → eqb ts pusher.state_ts ≡ false
    → (health_converged s).1 ≡ true
    → (health_converged s').1 ≡ true
    → p.set_dist ≡ lost
    → p.set_timestamp ≡ done
    → IsSteady ts p
    → Succeeds q
    → IsSteady ts q
    → pusher.memory.dist ≡ some old
    → IsReady old
    → IsReadyOrUnset server.state
    → eqb ts server.state_ts ≡ false
    → let tried : Pusher = (push_round ts p s pusher).1 in
      let retried : Pusher = (push_round ts q s' tried).1 in
      let server' : Server = (fetch tried.memory server).1 in
      (retried.memory.dist ≡ some (to_dist_dict q.now q.rng (health_converged s').0))
      × (retried.state_ts ≡ ts)
      × Holds old server'.state
      × (fetch retried.memory server' ≡ (ok tt, server'))
push_round-missed ts p q s s' pusher old server stale converged converged' l d steady k steady' held
      old_ready ready new =
    let tried : Pusher = (push_round ts p s pusher).1 in
    let (same_ts, same_dist, new_ts) =
      push_forms-lost ts p (health_converged s).0 pusher l d steady in
    let e : tried ≡ push_forms p (health_converged s).0 pusher =
      push_round-push ts p s pusher stale converged in
    let still_stale : eqb ts tried.state_ts ≡ false =
      ap (λ x. eqb ts x.state_ts) e ∙ (ap (eqb ts) same_ts ∙ stale) in
    let all_stored : (push_round ts q s' tried).1 ≡ pushed ts q (health_converged s').0 =
      push_round-Succeeds ts q s' tried still_stale converged' k steady' in
    let in_memory : fetch tried.memory server ≡ update_state (some ts) (some old) server =
      ap (λ x. update_state x tried.memory.dist server) (ap (λ x. x.memory.timestamp) e ∙ new_ts)
      ∙ ap (λ x. update_state (some ts) x server)
          (ap (λ x. x.memory.dist) e ∙ (same_dist ∙ held)) in
    let (synced, installed, _, _, _) = update_state-installs ts old server ready old_ready new in
    let server' : Server = (fetch tried.memory server).1 in
    let has_ts : server'.state_ts ≡ ts = ap (λ r. r.1.state_ts) (in_memory ∙ installed) in
    (
      ap (λ x. x.memory.dist) all_stored,
      ap (λ x. x.state_ts) all_stored,
      subst (λ r. Holds old r.1.state) (sym in_memory)
          (update_state-Holds ts old server ready old_ready new),
      ap (λ x. fetch x.memory server') all_stored ∙ fetch-same ts _ server' has_ts,
    )
