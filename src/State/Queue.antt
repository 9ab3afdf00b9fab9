-- ===== src/State/Queue.antt =====
-- The priority queue of state/__init__.py. `heapq` is seen as what it promises: the first item of
-- the queue is the least, by the order of the tuples (priority, PQItem), and `heapreplace` takes
-- that item out and puts another in. The list is kept in order.
use polaris_gslb.Prelude.{ℕ, Bool, List, [], ◌∷◌, ltb, eqb, if◌then◌else◌, ◌&&◌, ◌||◌}

-- a tuple (priority, PQItem)
pub record Item : Type 0 where
  pub time : ℕ
  pub pool_id : ℕ
  pub member_id : ℕ

-- The order of the tuples; PQItem.__lt__ orders items of one time by their members.
unfoldable pub precedes : Item → Item → Bool
precedes a b = ltb a.time b.time || (eqb a.time b.time && ltb a.member_id b.member_id)

-- heapq.heappush
unfoldable pub push : Item → List Item → List Item
unfolding precedes
push x [] = x ∷ []
push x (y ∷ ys) = if precedes x y then x ∷ y ∷ ys else y ∷ push x ys

-- heapq.heapreplace, on a queue that is not empty
unfoldable pub replace : Item → List Item → List Item
unfolding push
replace x [] = []
replace x (y ∷ ys) = push x ys
