-- ===== src/Pdns/Holding.antt =====
-- How long the backend answers from a state that it fetched.
use polaris_gslb.Prelude.{
  ℕ, ◌≡◌, refl, sym, subst, ap, false, Option, none, some, List, [], ◌∷◌, eqb, Bool-cases, inl, inr,
}
use polaris_gslb.Topology.{IpParser}
use polaris_gslb.Published.{DistState}
use polaris_gslb.Pdns.{Config, Server}
use polaris_gslb.Pdns.Turned.{IsTurned, IsTurned-trans}
use polaris_gslb.Pdns.Ready.{IsReady}
use polaris_gslb.Pdns.Updates.{update_state}
use polaris_gslb.Pdns.Carry.{IsReadyOrUnset, update_state-installs}
use polaris_gslb.Pdns.Follows.{Follows}
use polaris_gslb.Pdns.Backend.{Json}
use polaris_gslb.Pdns.Loop.{Event, line, update, reading, main_loop, updated}
use polaris_gslb.Pdns.Service.{IsRequest, pass-GoesOn}

-- STATE is ready, and the published state but for the indexes.
abbrev pub Holds : DistState → Option DistState → Type 0
Holds published o = (st : DistState) × (o ≡ some st) × IsReady st × IsTurned published st

Holds-IsReady :
    (published : DistState) (o : Option DistState) → Holds published o → IsReadyOrUnset o
Holds-IsReady published o (st, e, ready, _) = subst IsReadyOrUnset (sym e) ready

Follows-Holds :
    (published : DistState) (o o' : Option DistState)
    → Holds published o
    → Follows o o'
    → Holds published o'
Follows-Holds published o o' (st, e, ready, turned) f =
    let (st', e', ready', turned') = subst (λ x. Follows x o') e f in
    (st', e', ready', IsTurned-trans published st st' turned turned')

-- What is fetched is the published state, or nothing.
abbrev IsFetch : DistState → Option DistState → Type 0
IsFetch published none = Unit
IsFetch published (some st) = st ≡ published

-- An update with the published state, and a timestamp that is new.
pub update_state-Holds :
    (ts : ℕ) (published : DistState) (s : Server)
    → IsReadyOrUnset s.state
    → IsReady published
    → eqb ts s.state_ts ≡ false
    → Holds published (updated (some ts) (some published) s).state
update_state-Holds ts published s h ready new =
    let (synced, e, ready', _, turned) = update_state-installs ts published s h ready new in
    (synced, ap (λ r. r.1.state) e, ready', turned)

updated-Holds :
    (ts : Option ℕ) (fetched : Option DistState) (published : DistState) (s : Server)
    → IsReady published
    → IsFetch published fetched
    → Holds published s.state
    → Holds published (updated ts fetched s).state
unfolding update_state
updated-Holds none fetched published s ready same h = h
updated-Holds (some ts) none published s ready same h = elim (Bool-cases (eqb ts s.state_ts)) [
  | inl old ↦ rw (old, updated) h
  | inr new ↦ rw (new, updated) h
]
updated-Holds (some ts) (some st) published s ready same h = elim (Bool-cases (eqb ts s.state_ts)) [
  | inl old ↦ rw (old, updated) h
  | inr new ↦
      subst (λ x. Holds published (updated (some ts) (some x) s).state) (sym same)
        (update_state-Holds ts published s (Holds-IsReady published s.state h) ready new)
]

module _ (parser : IpParser) (config : Config) (json : Json) (published : DistState) where
  -- The lines are requests, and what is fetched is still the published state, or nothing.
  abbrev pub IsQuiet : Event → Type 0
  IsQuiet (line l) = IsRequest parser config json l
  IsQuiet (update ts fetched) = IsFetch published fetched

  abbrev pub AreQuiet : List Event → Type 0
  AreQuiet [] = Unit
  AreQuiet (e ∷ events) = IsQuiet e × AreQuiet events

  -- As long as nothing else is published, the loop goes on reading, and answers from the published
  -- state, but for the indexes.
  pub main_loop-Holds :
      (events : List Event) (s : Server)
      → IsReady published
      → AreQuiet events
      → Holds published s.state
      → ((main_loop parser config json events s).end ≡ reading)
        × Holds published (main_loop parser config json events s).server.state
  unfolding main_loop
  main_loop-Holds [] s ready quiet h = (refl, h)
  main_loop-Holds (update ts fetched ∷ events) s ready (same, quiet) h =
      main_loop-Holds events (updated ts fetched s) ready quiet
        (updated-Holds ts fetched published s ready same h)
  main_loop-Holds (line l ∷ events) s ready (request, quiet) h =
      let (r, s', e, follows) =
        pass-GoesOn parser config json l s request (Holds-IsReady published s.state h) in
      rw (e, main_loop)
        (main_loop-Holds events s' ready quiet (Follows-Holds published s.state s'.state h follows))
