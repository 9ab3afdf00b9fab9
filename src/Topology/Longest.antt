-- ===== src/Topology/Longest.antt =====
-- `get_region` finds a longest match.
use mathlib.Core.List.{Memᴰ}
use polaris_gslb.Prelude.Dict.{keys, lookup, lookup-some_of_Memᴰ}
use polaris_gslb.Prelude.Result.{ok}
use polaris_gslb.Prelude.{
  Bool-cases, inl, inr, leb→le, select-nil, Memᴰ-select, All-of_select, All-map, subst, sym, ◌≤◌,
  ◌≡◌, refl, String, Bool, true, false, Option, none, some, List, [], ◌∷◌, arith, All, leb, select,
  if◌then◌else◌,
}
use polaris_gslb.Topology.{
  network_eq, IpAddress, TopologyMap, IpParser, in_network, region_of, get_region, Network,
  insert_sorted, sort_networks, get_last?, best_match,
}

-- Ordered by the length of the prefix.
abbrev IsSorted : List Network → Type 0
IsSorted [] = Unit
IsSorted (x ∷ l) = All (λ y. x.prefixlen ≤ y.prefixlen) l × IsSorted l

-- The last of the longest, by a plain recursion.
abbrev longest : Network → List Network → Network
longest x [] = x
longest x (y ∷ l) = let z = longest y l in if leb x.prefixlen z.prefixlen then z else x

All-insert_sorted :
    (k : Network) (x : Network) (l : List Network)
    → k.prefixlen ≤ x.prefixlen
    → All (λ y. k.prefixlen ≤ y.prefixlen) l
    → All (λ y. k.prefixlen ≤ y.prefixlen) (insert_sorted x l)
unfolding insert_sorted
All-insert_sorted k x [] h all = (h, tt)
All-insert_sorted k x (y ∷ l) h all = ground (arith, All-insert_sorted k x l h all.1)

All-le_trans :
    (x y : Network) (l : List Network)
    → x.prefixlen ≤ y.prefixlen
    → All (λ z. y.prefixlen ≤ z.prefixlen) l
    → All (λ z. x.prefixlen ≤ z.prefixlen) l
All-le_trans x y [] h all = tt
All-le_trans x y (z ∷ l) h all = (omega arith, All-le_trans x y l h all.1)

insert_sorted-IsSorted :
    (x : Network) (l : List Network) → IsSorted l → IsSorted (insert_sorted x l)
unfolding insert_sorted
insert_sorted-IsSorted x [] s = (tt, tt)
insert_sorted-IsSorted x (y ∷ l) s =
    ground (arith, insert_sorted-IsSorted x l s.1, All-le_trans x y l, All-insert_sorted y x l)

sort_networks-IsSorted : (l : List Network) → IsSorted (sort_networks l)
unfolding sort_networks
sort_networks-IsSorted [] = tt
sort_networks-IsSorted (x ∷ l) = insert_sorted-IsSorted x _ (sort_networks-IsSorted l)

last-ge :
    (k z : Network) (l : List Network)
    → All (λ y. k.prefixlen ≤ y.prefixlen) l
    → get_last? l ≡ some z
    → k.prefixlen ≤ z.prefixlen
last-ge k z [] all e = cc
last-ge k z (x ∷ []) all e = ground arith
last-ge k z (x ∷ y ∷ l) all e = last-ge k z (y ∷ l) all.1 e

get_last?-cons_insert :
    (y x : Network) (l : List Network)
    → get_last? (y ∷ insert_sorted x l) ≡ get_last? (insert_sorted x l)
unfolding insert_sorted
get_last?-cons_insert y x [] = refl
get_last?-cons_insert y x (z ∷ l) = ground arith

get_last?-insert_sorted :
    (x z : Network) (l : List Network)
    → IsSorted l
    → get_last? l ≡ some z
    → get_last? (insert_sorted x l) ≡ some (if leb x.prefixlen z.prefixlen then z else x)
unfolding insert_sorted
get_last?-insert_sorted x z [] s e = cc
get_last?-insert_sorted x z (y ∷ []) s e = ground arith
get_last?-insert_sorted x z (y ∷ w ∷ l) s e = ground (
  arith,
  get_last?-insert_sorted x z (w ∷ l) s.1 e,
  get_last?-cons_insert y x (w ∷ l),
  last-ge y z (w ∷ l) s.0 e,
)

get_last?-sort :
    (x : Network) (l : List Network) → get_last? (sort_networks (x ∷ l)) ≡ some (longest x l)
unfolding sort_networks insert_sorted
get_last?-sort x [] = refl
get_last?-sort x (y ∷ l) =
    get_last?-insert_sorted x (longest y l) (sort_networks (y ∷ l)) (sort_networks-IsSorted (y ∷ l))
      (get_last?-sort y l)

-- The best match of some networks is the last of the longest.
pub best_match-cons : (x : Network) (l : List Network) → best_match (x ∷ l) ≡ some (longest x l)
unfolding best_match
best_match-cons x [] = refl
best_match-cons x (y ∷ l) = get_last?-sort x (y ∷ l)

longest-Memᴰ : (x : Network) (l : List Network) → Memᴰ (longest x l) (x ∷ l)
longest-Memᴰ x [] = Memᴰ.head refl
longest-Memᴰ x (y ∷ l) = elim (Bool-cases (leb x.prefixlen (longest y l).prefixlen)) [
  | inl le ↦ rw le (Memᴰ.tail (longest-Memᴰ y l))
  | inr gt ↦ rw gt (Memᴰ.head refl)
]

All-pick :
    (x z : Network) (l : List Network) (b : Bool)
    → leb x.prefixlen z.prefixlen ≡ b
    → All (λ y. y.prefixlen ≤ z.prefixlen) l
    → All (λ y. y.prefixlen ≤ (if b then z else x).prefixlen) (x ∷ l)
All-pick x z l true e h = (leb→le _ _ e, h)
All-pick x z l false e h = (
  omega arith,
  All-map (λ y. y.prefixlen ≤ z.prefixlen) (λ y. y.prefixlen ≤ x.prefixlen) l (λ y le. ground arith)
      h,
)

longest-ge :
    (x : Network) (l : List Network) → All (λ y. y.prefixlen ≤ (longest x l).prefixlen) (x ∷ l)
longest-ge x [] = omega arith
longest-ge x (y ∷ l) = All-pick x (longest y l) (y ∷ l) _ refl (longest-ge y l)

-- The region of an address: that of a network that contains the address and has a prefix at least
-- as long as that of any network that contains it; `none` if no network contains it.
abbrev pub IsRegionOf : IpAddress → TopologyMap → Option String → Type 0
IsRegionOf ip m none = All (λ net. in_network ip net ≡ false) (keys m)
IsRegionOf ip m (some region) =
    (net : Network) × (lookup net m ≡ some region)
    × (in_network ip net ≡ true)
    × All (λ other. in_network ip other ≡ true → other.prefixlen ≤ net.prefixlen) (keys m)

-- On the matches.
matched :
    (ip : IpAddress) (m : TopologyMap) (matches : List Network)
    → select (in_network ip) (keys m) ≡ matches
    → (r : Option String) × (region_of m (best_match matches) ≡ ok r) × IsRegionOf ip m r
matched ip m [] e = (none, unfold best_match in refl, select-nil (in_network ip) (keys m) e)
matched ip m (x ∷ l) e =
    let net = longest x l in
    let (hit, listed) : (in_network ip net ≡ true) × Memᴰ net (keys m) =
      Memᴰ-select (in_network ip) net (keys m) (subst (Memᴰ net) (sym e) (longest-Memᴰ x l)) in
    let (region, found) = lookup-some_of_Memᴰ net m listed in
    (
      some region,
      rw (best_match-cons x l) (rw found refl),
      (
        net,
        found,
        hit,
        All-of_select (λ other. other.prefixlen ≤ net.prefixlen) (in_network ip) (keys m)
            (subst (All (λ other. other.prefixlen ≤ net.prefixlen)) (sym e) (longest-ge x l)),
      ),
    )

-- `get_region` on an address that parses always returns, and what it returns is the region of a
-- longest match, or None exactly if nothing matches.
pub get_region-IsRegionOf :
    (parser : IpParser) (ip_str : String) (m : TopologyMap) (ip : IpAddress)
    → parser.ip_address ip_str ≡ some ip
    → (r : Option String) × (get_region parser ip_str m ≡ ok r) × IsRegionOf ip m r
unfolding get_region
get_region-IsRegionOf parser ip_str m ip parsed =
    let (r, e, is) = matched ip m _ refl in (r, rw parsed e, is)
