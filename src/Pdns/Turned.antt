-- ===== src/Pdns/Turned.antt =====
-- States that differ in the indexes of their tables only.
use polaris_gslb.Prelude.{
  ℕ, zero, suc, ◌≡◌, refl, ap, ◌∙◌, subst, String, some, [], ◌∷◌, arith, Bool-cases, inl, inr,
}
use polaris_gslb.Prelude.Eq.{Eq, ◌==◌, string_eq, option_eq}
use polaris_gslb.Prelude.Dict.{Dict, lookup, contains, modify, map_values}
use polaris_gslb.Prelude.Result.{ok, or_raise, or_raise-some, key_error, >>=-eq-ok, ok_injective}
use polaris_gslb.Pool.Dist.{TableName, default_name, Table, DistPool}
use polaris_gslb.Published.{DistName, DistState}
use polaris_gslb.Pdns.Answers.{advance, set_table}
use polaris_gslb.Pdns.Rotation.{advance_by}
use polaris_gslb.Pdns.Updates.{sync_index, sync_name, sync_names}

abbrev pub at_start : Table → Table
at_start t = record t { index = 0 }

abbrev pub pool_at_start : DistPool → DistPool
pool_at_start p = record p { dist_tables = map_values (λ name t. at_start t) p.dist_tables }

-- The state with all indexes at 0.
abbrev pub all_at_start : DistState → DistState
all_at_start st = record st { pools = map_values (λ name p. pool_at_start p) st.pools }

-- Both states are the same, but for the indexes of their tables.
abbrev pub IsTurned : DistState → DistState → Type 0
IsTurned st st' = all_at_start st' ≡ all_at_start st

map_values-modify {ℓ κ μ} :
    {K : Type ℓ} {V : Type κ} {W : Type μ} ⦃e : Eq K⦄ (f : V → W) (g : V → V) (k : K) (d : Dict K V)
    {v : V}
    → lookup k d ≡ some v
    → f (g v) ≡ f v
    → map_values (λ name. f) (modify k g d) ≡ map_values (λ name. f) d
unfolding map_values modify lookup
map_values-modify f g k [] found h = refl
map_values-modify f g k ((j, w) ∷ d) {v} found h = elim (Bool-cases (j == k)) [
  | inl same ↦
      let w_is_v : w ≡ v = cc (rw same at found) in
      rw same (ap (λ x. (j, x) ∷ map_values (λ name. f) d) (rw w_is_v h))
  | inr other ↦ rw other (ap (λ x. (j, f w) ∷ x) (map_values-modify f g k d (rw other at found) h))
]

-- A table whose place is taken by a turned one.
pub set_table-IsTurned :
    (pool_name : String) (name : TableName) (t t' : Table) (st : DistState) {pool : DistPool}
    → lookup pool_name st.pools ≡ some pool
    → lookup name pool.dist_tables ≡ some t
    → at_start t' ≡ at_start t
    → IsTurned st (set_table pool_name name t' st)
unfolding set_table
set_table-IsTurned pool_name name t t' st {pool} has_pool has_table same =
    ap (λ pools. record st { pools = pools })
      (map_values-modify pool_at_start _ pool_name st.pools has_pool (
        ap (λ tables. record pool { dist_tables = tables })
          (map_values-modify at_start (λ _. t') name pool.dist_tables has_table same)))

pub advance_by-at_start : (n : ℕ) (t : Table) → at_start (advance_by n t) ≡ at_start t
unfolding advance_by advance
advance_by-at_start zero t = refl
advance_by-at_start (suc n) t = advance_by-at_start n (advance t)

sync_index-at_start : (old new : Table) → at_start (sync_index old new) ≡ at_start new
unfolding sync_index
sync_index-at_start old new = ground arith

pub IsTurned-trans : (st st₁ st₂ : DistState) → IsTurned st st₁ → IsTurned st₁ st₂ → IsTurned st st₂
IsTurned-trans st st₁ st₂ one two = two ∙ one

sync_name-IsTurned :
    (old : Dict String DistPool) (g : DistName) (st : DistState) {st' : DistState}
    → sync_name old g st ≡ ok st'
    → IsTurned st st'
unfolding sync_name
sync_name-IsTurned old g st {st'} e = elim (Bool-cases (contains g.pool_name old)) [
  | inr new ↦ subst (IsTurned st) (ok_injective st st' (rw new at e)) refl
  | inl known ↦
      let (old_pool, _, e₁) =
        >>=-eq-ok (or_raise (lookup g.pool_name old) key_error) _ (rw known at e) in
      let (old_table, _, e₂) =
        >>=-eq-ok (or_raise (lookup default_name old_pool.dist_tables) key_error) _ e₁ in
      let (pool, has_pool, e₃) =
        >>=-eq-ok (or_raise (lookup g.pool_name st.pools) key_error) _ e₂ in
      let (t, has_table, e₄) =
        >>=-eq-ok (or_raise (lookup default_name pool.dist_tables) key_error) _ e₃ in
      subst (IsTurned st) (ok_injective _ st' e₄) (
        set_table-IsTurned g.pool_name default_name t (sync_index old_table t) st
          (or_raise-some (lookup g.pool_name st.pools) key_error has_pool)
          (or_raise-some (lookup default_name pool.dist_tables) key_error has_table)
          (sync_index-at_start old_table t))
]

-- The loop over the global names changes indexes only.
pub sync_names-IsTurned :
    (old : Dict String DistPool) (names : Dict String DistName) (st : DistState) {st' : DistState}
    → sync_names old names st ≡ ok st'
    → IsTurned st st'
unfolding sync_names
sync_names-IsTurned old [] st {st'} e = subst (IsTurned st) (ok_injective st st' e) refl
sync_names-IsTurned old ((name, g) ∷ names) st e =
    let (st₁, e₁, e₂) = >>=-eq-ok (sync_name old g st) _ e in
    IsTurned-trans st st₁ _ (sync_name-IsTurned old g st e₁) (sync_names-IsTurned old names st₁ e₂)
