-- ===== src/Pdns/Follows.antt =====
-- How a lookup may change STATE.
use polaris_gslb.Prelude.{◌≡◌, refl, sym, subst, Option, none, some}
use polaris_gslb.Prelude.Result.{Result}
use polaris_gslb.Published.{DistState}
use polaris_gslb.Pdns.{Server}
use polaris_gslb.Pdns.Turned.{IsTurned}
use polaris_gslb.Pdns.Ready.{IsReady}
use polaris_gslb.Pdns.Carry.{IsReadyOrUnset}

-- The new state is ready, and the old one but for the indexes; or neither was ever set.
abbrev pub Follows : Option DistState → Option DistState → Type 0
Follows none o = o ≡ none
Follows (some st) o = (st' : DistState) × (o ≡ some st') × IsReady st' × IsTurned st st'

abbrev pub KeepsState : Option DistState → Result (Unit {0}) × Server → Type 0
KeepsState o r = Follows o r.1.state

pub Follows-IsReady : (o o' : Option DistState) → Follows o o' → IsReadyOrUnset o'
Follows-IsReady none o' e = subst IsReadyOrUnset (sym e) tt
Follows-IsReady (some st) o' (st', e, ready, _) = subst IsReadyOrUnset (sym e) ready

pub Follows-refl : (o : Option DistState) → IsReadyOrUnset o → Follows o o
Follows-refl none h = refl
Follows-refl (some st) h = (st, refl, h, refl)

pub kept_ready :
    (o o' : Option DistState) (st : DistState)
    → o ≡ some st
    → o' ≡ some st
    → IsReady st
    → Follows o o'
kept_ready o o' st e e' ready = subst (λ x. Follows x o') (sym e) (st, e', ready, refl)

pub moved_ready :
    (o o' : Option DistState) (st st' : DistState)
    → o ≡ some st
    → o' ≡ some st'
    → IsReady st'
    → IsTurned st st'
    → Follows o o'
moved_ready o o' st st' e e' ready turned =
    subst (λ x. Follows x o') (sym e) (st', e', ready, turned)
