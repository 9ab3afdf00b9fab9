-- ===== src/Pdns/Updates.antt =====
-- polaris_pdns/core/polaris.py, class StateUpdater: an update of STATE from shared memory. What
-- the shared memory answers is an argument, `none` being a failed get.
use polaris_gslb.Prelude.{ℕ, String, Option, none, some, [], ◌∷◌, length, leb, eqb, if◌then◌else◌}
use polaris_gslb.Prelude.Eq.{string_eq, option_eq}
use polaris_gslb.Prelude.Dict.{Dict, lookup, contains}
use polaris_gslb.Prelude.Result.{Result, ok, or_raise, key_error, ◌>>=◌}
use polaris_gslb.Pool.Dist.{default_name, Table, DistPool}
use polaris_gslb.Published.{DistName, DistState}
use polaris_gslb.Pdns.{Server}
use polaris_gslb.Pdns.Answers.{set_table}

-- the new table, with its index set
unfoldable pub sync_index : Table → Table → Table
sync_index old new =
    if eqb old.index new.index
    then new
    else if leb (length new.rotation) old.index
    then record new { index = 0 }
    else record new { index = old.index }

-- the body of the loop, for the pool of one global name
unfoldable pub sync_name : Dict String DistPool → DistName → DistState → Result DistState
unfolding sync_index set_table
sync_name old_pools g new_state =
    if contains g.pool_name old_pools
    then (do
      old_pool ← or_raise (lookup g.pool_name old_pools) key_error
      old_table ← or_raise (lookup default_name old_pool.dist_tables) key_error
      new_pool ← or_raise (lookup g.pool_name new_state.pools) key_error
      new_table ← or_raise (lookup default_name new_pool.dist_tables) key_error
      ok (set_table g.pool_name default_name (sync_index old_table new_table) new_state))
    else ok new_state

unfoldable pub sync_names :
    Dict String DistPool → Dict String DistName → DistState → Result DistState
unfolding sync_name
sync_names old_pools [] new_state = ok new_state
sync_names old_pools ((name, g) ∷ names) new_state = do
  synced ← sync_name old_pools g new_state
  sync_names old_pools names synced

-- The old state has no pools before the first update.
abbrev pub pools_of : Option DistState → Dict String DistPool
pools_of none = []
pools_of (some st) = st.pools

unfoldable pub sync_dist_table_indexes : Option DistState → DistState → Result DistState
unfolding sync_names
sync_dist_table_indexes old_state new_state =
    sync_names (pools_of old_state) new_state.globalnames new_state

-- STATE and STATE_TS become what was fetched, unless the indexes could not be copied.
abbrev pub install : Server → ℕ → Result DistState → Result (Unit {0}) × Server
install s state_ts (Result.ok synced) =
    (ok tt, record s { state = some synced; state_ts = state_ts })
install s state_ts (Result.raise e) = (Result.raise e, s)

abbrev pub install_fetched : Server → ℕ → Option DistState → Result (Unit {0}) × Server
install_fetched s state_ts none = (ok tt, s)
install_fetched s state_ts (some fetched) =
    install s state_ts (sync_dist_table_indexes s.state fetched)

unfoldable pub update_state : Option ℕ → Option DistState → Server → Result (Unit {0}) × Server
unfolding sync_dist_table_indexes
update_state none fetched s = (ok tt, s)
update_state (some state_ts) fetched s =
    if eqb state_ts s.state_ts then (ok tt, s) else install_fetched s state_ts fetched
