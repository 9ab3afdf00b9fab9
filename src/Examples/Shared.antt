-- ===== src/Examples/Shared.antt =====
-- Pushes of the small site, and updates from shared memory.
use polaris_gslb.Prelude.{◌≡◌, refl, some, none, [], ◌∷◌}
use polaris_gslb.Prelude.Eq.{string_eq}
use polaris_gslb.Prelude.Dict.{contains}
use polaris_gslb.Prelude.Result.{ok}
use polaris_gslb.State.{State, health_converged, to_dist_dict}
use polaris_gslb.State.Publish.{to_dist_dict-IsReady}
use polaris_gslb.Tracker.Pusher.{Push, Pusher, Setting, done, lost, push_round}
use polaris_gslb.Pdns.{Server, refused}
use polaris_gslb.Pdns.Ready.{IsReady}
use polaris_gslb.Pdns.Holding.{Holds}
use polaris_gslb.Sharing.{fetch, push_round-Holds, push_round-missed}
use polaris_gslb.Examples.{state_object, pool, published, site, still}

-- A push at timestamp 6000, with the outcome of its first set.
abbrev push_with : Setting → Push
push_with first = record {
  now = 6000;
  rng = λ name. still;
  objects = λ s. state_object;
  set_dist = first;
  set_generic = done;
  set_timestamp = done;
  generic_ts = 6000;
  pushed_ts = 6000;
  noted_ts = 6000;
}

-- The old state is in memory.
abbrev pusher : Pusher
pusher = record {
  state_ts = 5000;
  memory = record { dist = some published; generic = none; timestamp = some 5000 };
}

abbrev server : Server
server = record { result = refused; log = []; state = none; state_ts = 0 }

-- The site after its only pool lost its members.
abbrev later : State
later = record site { pools = ("pool1", record pool { members = [] }) ∷ [] }

published-IsReady : IsReady published
unfolding contains
published-IsReady = to_dist_dict-IsReady 5000 (λ name. still) site (refl, tt)

push_round-Holds_example :
    Holds
      (to_dist_dict 6000 (λ name. still) (health_converged later).0)
      (fetch (push_round 6000 (push_with done) later pusher).1.memory server).1.state
unfolding contains health_converged
push_round-Holds_example =
    push_round-Holds 6000 (push_with done) later pusher server (refl, tt) refl refl
      (record { set_dist = refl; set_generic = refl; set_timestamp = refl })
      (record { generic = refl; pushed = refl; noted = refl }) tt refl

push_round-missed_example :
    let tried : Pusher = (push_round 6000 (push_with lost) later pusher).1 in
    let retried : Pusher = (push_round 6000 (push_with done) later tried).1 in
    let server' : Server = (fetch tried.memory server).1 in
    (retried.memory.dist ≡ some (to_dist_dict 6000 (λ name. still) (health_converged later).0))
    × (retried.state_ts ≡ 6000)
    × Holds published server'.state
    × (fetch retried.memory server' ≡ (ok tt, server'))
unfolding health_converged
push_round-missed_example =
    push_round-missed 6000 (push_with lost) (push_with done) later later pusher published server
      refl refl refl refl refl (record { generic = refl; pushed = refl; noted = refl })
      (record { set_dist = refl; set_generic = refl; set_timestamp = refl })
      (record { generic = refl; pushed = refl; noted = refl }) refl published-IsReady tt refl
