-- ===== src/Pdns/Rotation.antt =====
-- The loop of `_any_response` walks round the rotation.
use Prim.Native.Nat.add
use mathlib.Core.List.Perm
use mathlib.Core.Path.{ap₂}
use mathlib.Core.List.{Perm, perm_append_comm}
use polaris_gslb.Prelude.{
  ℕ, zero, suc, ◌+◌, ◌-◌, ◌<◌, ◌≤◌, ◌≡◌, refl, sym, ap, ◌∙◌, String, none, some, List, [], ◌∷◌,
  ◌++◌, map, arith, length, get_elem?, take-all, take, drop, get_elem?-some_of_lt, drop-get_elem?,
  take-append-drop, length-drop,
}
use polaris_gslb.Prelude.Result.{ok}
use polaris_gslb.Pool.Dist.{Table}
use polaris_gslb.Pdns.{Record, Answer, address, add_record}
use polaris_gslb.Pdns.Answers.{advance, answer_loop}

-- The index points into the rotation.
abbrev pub IsInside : Table → Type 0
IsInside t = t.index < length t.rotation

-- The addresses of the next `n` records, and the table after them.
unfoldable pub addresses : ℕ → Table → List String
addresses zero t = []
addresses (suc n) t = elim (get_elem? t.rotation t.index) [
  | none ↦ []
  | some ip ↦ ip ∷ addresses n (advance t)
]

unfoldable pub advance_by : ℕ → Table → Table
advance_by zero t = t
advance_by (suc n) t = advance_by n (advance t)

abbrev pub a_record : String → ℕ → String → Record
a_record qname ttl ip = record { qtype = "A"; qname = qname; content = address ip; ttl = ttl }

unfoldable pub add_records : List Record → Answer → Answer
unfolding add_record
add_records [] a = a
add_records (r ∷ rs) a = add_records rs (add_record r a)

pub rotation-advance : (t : Table) → (advance t).rotation ≡ t.rotation
unfolding advance
rotation-advance t = refl

pub advance-IsInside : (t : Table) → IsInside t → IsInside (advance t)
unfolding advance
advance-IsInside t h = ground arith

pub advance_by-IsInside : (n : ℕ) (t : Table) → IsInside t → IsInside (advance_by n t)
unfolding advance_by
advance_by-IsInside zero t h = h
advance_by-IsInside (suc n) t h = advance_by-IsInside n (advance t) (advance-IsInside t h)

-- From an index inside the rotation the loop never fails, and writes the next addresses.
pub answer_loop_lem :
    (qname : String) (ttl n : ℕ) (a : Answer) (t : Table)
    → IsInside t
    → answer_loop qname ttl n a t ≡ record {
      outcome = ok tt;
      result = add_records (map (a_record qname ttl) (addresses n t)) a;
      table = advance_by n t;
    }
unfolding answer_loop addresses advance_by add_records
answer_loop_lem qname ttl zero a t h = refl
answer_loop_lem qname ttl (suc n) a t h =
    let (ip, at) = get_elem?-some_of_lt t.rotation t.index h in
    rw (at, answer_loop, addresses)
      (answer_loop_lem qname ttl n _ (advance t) (advance-IsInside t h))

pub addresses-suc :
    (n : ℕ) (t : Table) (ip : String)
    → get_elem? t.rotation t.index ≡ some ip
    → addresses (suc n) t ≡ ip ∷ addresses n (advance t)
unfolding addresses
addresses-suc n t ip at = rw (at, addresses)

-- The records of two queries are those of one query for both.
pub addresses-add :
    (n m : ℕ) (t : Table)
    → IsInside t
    → addresses (n + m) t ≡ addresses n t ++ addresses m (advance_by n t)
unfolding addresses advance_by
addresses-add zero m t h = ap (λ k. addresses k t) (add.zero m)
addresses-add (suc n) m t h =
    let (ip, at) = get_elem?-some_of_lt t.rotation t.index h in
    ap (λ k. addresses k t) (add.suc n m)
    ∙ (addresses-suc (n + m) t ip at
        ∙ (ap (λ l. ip ∷ l) (addresses-add n m (advance t) (advance-IsInside t h))
            ∙ ap (λ l. l ++ addresses m (advance_by n (advance t)))
                (sym (addresses-suc n t ip at))))

advance-lt :
    (t : Table) → t.index + 1 < length t.rotation → advance t ≡ record t { index = t.index + 1 }
unfolding advance
advance-lt t h = ground arith

advance-last : (t : Table) → t.index + 1 ≡ length t.rotation → advance t ≡ record t { index = 0 }
unfolding advance
advance-last t h = ground arith

addresses-next :
    (n : ℕ) (t : Table)
    → t.index + suc n ≤ length t.rotation
    → ((u : Table)
        → u.index + n ≤ length u.rotation
        → addresses n u ≡ take n (drop u.index u.rotation))
    → addresses n (advance t) ≡ take n (drop (suc t.index) t.rotation)
unfolding addresses
addresses-next zero t h ih = refl
addresses-next (suc n) t h ih =
    ap (addresses (suc n)) (advance-lt t (omega arith))
    ∙ (ih (record t { index = t.index + 1 }) (omega arith)
        ∙ ap (λ k. take (suc n) (drop k t.rotation)) {y = suc t.index} (omega arith))

-- Up to the end of the rotation the addresses are those from the index on.
addresses-front :
    (n : ℕ) (t : Table)
    → t.index + n ≤ length t.rotation
    → addresses n t ≡ take n (drop t.index t.rotation)
unfolding addresses
addresses-front zero t h = refl
addresses-front (suc n) t h =
    let (ip, at) = get_elem?-some_of_lt t.rotation t.index (omega arith) in
    addresses-suc n t ip at
    ∙ (ap (λ l. ip ∷ l) (addresses-next n t (omega arith) (addresses-front n))
        ∙ sym (ap (take (suc n)) (drop-get_elem? t.rotation t.index at)))

advance_by-front :
    (n : ℕ) (t : Table)
    → t.index + n < length t.rotation
    → advance_by n t ≡ record t { index = t.index + n }
unfolding advance_by
advance_by-front zero t h = ground arith
advance_by-front (suc n) t h =
    ap (advance_by n) (advance-lt t (omega arith))
    ∙ (advance_by-front n (record t { index = t.index + 1 }) (omega arith)
        ∙ ap (λ k. record t { index = k }) (omega arith))

advance_by-end :
    (n : ℕ) (t : Table)
    → t.index + suc n ≡ length t.rotation
    → advance_by (suc n) t ≡ record t { index = 0 }
unfolding advance_by
advance_by-end zero t h = advance-last t (omega arith)
advance_by-end (suc n) t h =
    ap (advance_by (suc n)) (advance-lt t (omega arith))
    ∙ advance_by-end n (record t { index = t.index + 1 }) (omega arith)

-- One round: from the index to the end, and from the start to the index.
addresses-round :
    (t : Table) (n : ℕ)
    → t.index + suc n ≡ length t.rotation
    → addresses (length t.rotation) t ≡ drop t.index t.rotation ++ take t.index t.rotation
addresses-round t n h =
    ap (λ k. addresses k t) (omega arith)
    ∙ (addresses-add (suc n) t.index t (omega arith)
        ∙ ap₂ ◌++◌
            (addresses-front (suc n) t (omega arith)
              ∙ take-all (suc n) (drop t.index t.rotation)
                  (omega (arith, length-drop t.index t.rotation)))
            (ap (addresses t.index) (advance_by-end n t h)
              ∙ addresses-front t.index (record t { index = 0 }) (omega arith)))

-- As many records as the rotation is long hold the addresses of the rotation, each as often.
pub addresses-perm : (t : Table) → IsInside t → Perm (addresses (length t.rotation) t) t.rotation
addresses-perm t h = rw (addresses-round t (length t.rotation - t.index - 1) (omega arith)) (
    Perm.trans (perm_append_comm (drop t.index t.rotation) (take t.index t.rotation))
      (rw (take-append-drop t.index t.rotation) (Perm.refl t.rotation)))
