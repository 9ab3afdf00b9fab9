-- ===== src/State/Init.antt =====
-- The second half of State.__init__: the retries of the members, the list of members whose status
-- is undetermined, and the queue, on pools and names that have been read.
use polaris_gslb.Prelude.{ℕ, ◌+◌, String, some, List, [], ◌∷◌, map, length}
use polaris_gslb.Prelude.Dict.{Dict, map_values}
use polaris_gslb.Pool.{Member, Pool}
use polaris_gslb.GlobalName.{GlobalName}
use polaris_gslb.State.{State, all_members}
use polaris_gslb.State.Queue.{Item, push}

abbrev pub with_retries : ℕ → Member → Member
with_retries retries m = record m { retries_left = some retries }

-- member.retries_left = pool.monitor.retries
unfoldable pub set_retries : Pool → Pool
set_retries p = record p { members = map (with_retries p.monitor.retries) p.members }

-- the positions from `first` on of some members
unfoldable pub positions : ℕ → List Member → List ℕ
positions first [] = []
positions first (m ∷ ms) = first ∷ positions (first + 1) ms

-- The items of one pool's members, pushed in turn, member `i` at the time `at i`.
unfoldable pub push_members : (ℕ → ℕ) → ℕ → ℕ → List Member → List Item → List Item
push_members at pool_id first [] q = q
push_members at pool_id first (m ∷ ms) q =
    push_members at pool_id (first + 1) ms
      (push (record { time = at first; pool_id = pool_id; member_id = first }) q)

unfoldable pub push_pools : (ℕ → ℕ) → ℕ → ℕ → Dict String Pool → List Item → List Item
unfolding push_members push
push_pools at pool_id first [] q = q
push_pools at pool_id first ((name, p) ∷ pools) q =
    push_pools at (pool_id + 1) (first + length p.members) pools
      (push_members at pool_id first p.members q)

-- `at i` is time.monotonic() + random.uniform(0, DISPERSION_WINDOW) for member `i`.
unfoldable pub init : (ℕ → ℕ) → Dict String Pool → Dict String GlobalName → State
unfolding set_retries positions push_pools all_members
init at pools globalnames =
    let ready = map_values (λ name p. set_retries p) pools in
    record {
      pools = ready;
      globalnames = globalnames;
      status_undetermined = positions 0 (all_members ready);
      pq = push_pools at 0 0 ready [];
    }
