-- ===== src/Pdns/Carry.antt =====
-- What an update of STATE keeps: `sync_dist_table_indexes` and `update_state` on ready states.
use polaris_gslb.Prelude.{
  ℕ, ◌≡◌, refl, sym, ap, ◌∙◌, String, Bool, true, false, Option, none, some, [], ◌∷◌, arith,
  if◌then◌else◌, Bool-cases, inl, inr, eqb, ◌&&◌, ◌||◌, ltb, leb, length, exists, subst,
}
use polaris_gslb.Prelude.Eq.{◌==◌, string_eq, option_eq}
use polaris_gslb.Prelude.Dict.{Dict, contains, AllValues, AllValues-mono}
use polaris_gslb.Prelude.Result.{Result, ok}
use polaris_gslb.Pool.Dist.{TableName, default_name, Table, DistPool}
use polaris_gslb.Published.{DistName, DistState}
use polaris_gslb.Pdns.{Server}
use polaris_gslb.Pdns.Updates.{
  sync_index, sync_names, pools_of, sync_dist_table_indexes, install, update_state,
}
use polaris_gslb.Pdns.Ready.{IsReadyPool, IsReady}
use polaris_gslb.Pdns.Turned.{IsTurned, sync_names-IsTurned}
use polaris_gslb.Pdns.Sync.{Synced, sync_name_lem, sync_index_idem, sync_option, table_at}

-- Some global name refers to the pool.
abbrev pub referenced : String → Dict String DistName → Bool
referenced q names = exists (λ e. e.1.pool_name == q) names

-- The tables of a state whose indexes were taken over for the global names `names`.
abbrev HasSynced : Dict String DistPool → Dict String DistName → DistState → DistState → Type 0
HasSynced old names st synced =
    (q : String) (m : TableName)
    → table_at synced.pools q m ≡ (
        if referenced q names && (default_name == m)
        then sync_option (table_at old q default_name) (table_at st.pools q m)
        else table_at st.pools q m)

-- The new table at the place of the old one: at the old index if that lies in the new rotation, and
-- else at its start, unless it is there already.
abbrev pub carried : Table → Table → Table
carried old new = record new {
  index = if ltb old.index (length new.rotation) || eqb old.index new.index then old.index else 0;
}

abbrev pub carried_option : Option Table → Option Table → Option Table
carried_option (some old) (some new) = some (carried old new)
carried_option _ new = new

-- Every table is the new one; but the `_default` table of each pool that a global name refers to goes
-- on from the place where the old one was, if there was one.
abbrev pub HasCarried : Dict String DistPool → Dict String DistName → DistState → DistState → Type 0
HasCarried old names st synced =
    (q : String) (m : TableName)
    → table_at synced.pools q m ≡ (
        if referenced q names && (default_name == m)
        then carried_option (table_at old q default_name) (table_at st.pools q m)
        else table_at st.pools q m)

sync_index-carried : (old new : Table) → sync_index old new ≡ carried old new
unfolding sync_index
sync_index-carried old new = elim (Bool-cases (eqb old.index new.index)) [
  | inl same ↦ rw same (
      ap (λ i. record new { index = i })
        (let e : new.index ≡ old.index = ground arith in ground arith))
  | inr other ↦ elim (Bool-cases (leb (length new.rotation) old.index)) [
    | inl past ↦ rw (other, past) (ap (λ i. record new { index = i }) (ground arith))
    | inr inside ↦ rw (other, inside) (ap (λ i. record new { index = i }) (ground arith))
  ]
]

sync_option-carried : (o n : Option Table) → sync_option o n ≡ carried_option o n
sync_option-carried none n = refl
sync_option-carried (some old) none = refl
sync_option-carried (some old) (some new) = ap some (sync_index-carried old new)

HasSynced-HasCarried :
    (old : Dict String DistPool) (names : Dict String DistName) (st synced : DistState)
    → HasSynced old names st synced
    → HasCarried old names st synced
HasSynced-HasCarried old names st synced h q m =
    h q m
    ∙ ap (λ x. if referenced q names && (default_name == m) then x else table_at st.pools q m)
        (sync_option-carried (table_at old q default_name) (table_at st.pools q m))

sync_option_idem : (o n : Option Table) → sync_option o (sync_option o n) ≡ sync_option o n
sync_option_idem none n = refl
sync_option_idem (some old) none = refl
sync_option_idem (some old) (some new) = ap some (sync_index_idem old new)

carried_step :
    (old : Dict String DistPool) (name : String) (g : DistName) (names : Dict String DistName)
    (st st₁ st₂ : DistState)
    → Synced old g st st₁
    → HasSynced old names st₁ st₂
    → HasSynced old ((name, g) ∷ names) st st₂
carried_step old name g names st st₁ st₂ one rest q m = ground (
  arith,
  rest q m,
  one.tables q m,
  sync_option_idem (table_at old q default_name) (table_at st.pools q m),
)

sync_names_lem :
    (old : Dict String DistPool) (names : Dict String DistName) (st : DistState)
    → AllValues IsReadyPool old
    → IsReady st
    → AllValues (λ g. contains g.pool_name st.pools ≡ true) names
    → (synced : DistState) × (sync_names old names st ≡ ok synced)
      × IsReady synced
      × HasSynced old names st synced
unfolding sync_names
sync_names_lem old [] st old_ready ready known = (st, refl, ready, λ q m. refl)
sync_names_lem old ((name, g) ∷ names) st old_ready ready known =
    let (st₁, e₁, one) = sync_name_lem old g st old_ready ready known.0 in
    let (st₂, e₂, ready₂, rest) = sync_names_lem old names st₁ old_ready one.ready (
      AllValues-mono (λ g. contains g.pool_name st.pools ≡ true)
        (λ g. contains g.pool_name st₁.pools ≡ true) names (λ g h. one.known g.pool_name ∙ h)
        known.1) in
    (st₂, rw e₁ e₂, ready₂, carried_step old name g names st st₁ st₂ one rest)

-- STATE is ready, or has never been set.
abbrev pub IsReadyOrUnset : Option DistState → Type 0
IsReadyOrUnset none = Unit
IsReadyOrUnset (some st) = IsReady st

pools_ready : (o : Option DistState) → IsReadyOrUnset o → AllValues IsReadyPool (pools_of o)
pools_ready none h = tt
pools_ready (some st) h = h.pools_ready

-- From ready states the indexes are copied without an exception, the new state is ready, and every
-- table is the fetched one, but that the `_default` table of each pool that a global name refers
-- to and that the old state had takes over the old index, or 0 if that lies past its rotation.
pub sync_dist_table_indexes-IsReady :
    (old : Option DistState) (new : DistState)
    → IsReadyOrUnset old
    → IsReady new
    → (synced : DistState) × (sync_dist_table_indexes old new ≡ ok synced)
      × IsReady synced
      × HasCarried (pools_of old) new.globalnames new synced
unfolding sync_dist_table_indexes
sync_dist_table_indexes-IsReady old new old_ready ready =
    let (synced, e, synced_ready, h) =
      sync_names_lem (pools_of old) new.globalnames new (pools_ready old old_ready) ready
        ready.names_known in
    (synced, e, synced_ready, HasSynced-HasCarried (pools_of old) new.globalnames new synced h)

-- A fetched ready state with a new timestamp replaces STATE, and STATE_TS, if STATE was ready or never
-- set. The `_default` table of each pool that a global name refers to goes on at the index that it had
-- in the old state, or at 0 if that lies past its new rotation; nothing else of the fetched state
-- changes.
pub update_state-installs :
    (ts : ℕ) (new : DistState) (s : Server)
    → IsReadyOrUnset s.state
    → IsReady new
    → eqb ts s.state_ts ≡ false
    → (synced : DistState) × (update_state (some ts) (some new) s
        ≡ (ok tt, record s { state = some synced; state_ts = ts }))
      × IsReady synced
      × HasCarried (pools_of s.state) new.globalnames new synced
      × IsTurned new synced
unfolding update_state sync_dist_table_indexes
update_state-installs ts new s h f fresh =
    let (synced, e, ready, carried) = sync_dist_table_indexes-IsReady s.state new h f in
    (
      synced,
      rw fresh (ap (install s ts) e),
      ready,
      carried,
      sync_names-IsTurned (pools_of s.state) new.globalnames new e,
    )

abbrev KeepsReadyOrUnset : Result (Unit {0}) × Server → Type 0
KeepsReadyOrUnset r = (r.0 ≡ ok tt) × IsReadyOrUnset r.1.state

fresh_lem :
    (ts : ℕ) (fetched : Option DistState) (s : Server)
    → IsReadyOrUnset s.state
    → IsReadyOrUnset fetched
    → eqb ts s.state_ts ≡ false
    → KeepsReadyOrUnset (update_state (some ts) fetched s)
unfolding update_state
fresh_lem ts none s h f fresh = rw fresh (refl, h)
fresh_lem ts (some new) s h f fresh =
    let (synced, e, ready, _, _) = update_state-installs ts new s h f fresh in
    subst KeepsReadyOrUnset (sym e) (refl, ready)

-- An update raises no exception and leaves STATE ready or never set, if STATE was so, and if what is
-- fetched is a ready state, or nothing; with any timestamp, or none.
pub update_state-IsReady :
    (fetched_ts : Option ℕ) (fetched : Option DistState) (s : Server)
    → IsReadyOrUnset s.state
    → IsReadyOrUnset fetched
    → ((update_state fetched_ts fetched s).0 ≡ ok tt)
      × IsReadyOrUnset (update_state fetched_ts fetched s).1.state
unfolding update_state
update_state-IsReady none fetched s h f = (refl, h)
update_state-IsReady (some ts) fetched s h f = elim (Bool-cases (eqb ts s.state_ts)) [
  | inl same ↦ rw same (refl, h)
  | inr fresh ↦ fresh_lem ts fetched s h f fresh
]
