-- ===== src/Tracker/Configured.antt =====
-- What the configuration ensures stays as it is over the rounds of the tracker.
use polaris_gslb.Prelude.{
  ℕ, ◌≡◌, subst, ap, ◌∙◌, String, Bool, true, false, Option, none, some, List, [], ◌∷◌, leb,
  Bool-cases, inl, inr,
}
use polaris_gslb.Prelude.Eq.{◌==◌, string_eq, option_eq}
use polaris_gslb.Prelude.Dict.{Dict, AllValues}
use polaris_gslb.State.Publish.{HasKnownPools}
use polaris_gslb.Prelude.Result.{ok, or_raise, or_raise-some, index_error, >>=-eq-ok, ok_injective}
use polaris_gslb.Pool.{Member}
use polaris_gslb.Pool.Dist.{default_name}
use polaris_gslb.GlobalName.{GlobalName}
use polaris_gslb.State.{all_members, member_at, pool_at, change_member}
use polaris_gslb.State.Queue.{Item}
use polaris_gslb.Prober.{Probe}
use polaris_gslb.Tracker.{
  Tracker, note_status, respond, store_response, process_probe_response, schedule, round, receive,
}
use polaris_gslb.Tracker.Retries.{respond-changed}
use polaris_gslb.Tracker.Schedule.{Round, run_rounds}
use polaris_gslb.Tracker.Fit.{
  IsFit, IsApart, all_members-IsApart, All-get_elem?, change_member-IsFit, change_pool-IsFit,
  contains-change_member, contains-change_pool, known_kept,
}

-- The pools are fit, and the global names are those that were configured, each with a pool.
pub record IsConfigured (names : Dict String GlobalName) (t : Tracker) : Type 0 where
  pub fit : AllValues IsFit t.state.pools
  pub same_names : t.state.globalnames ≡ names
  pub known : HasKnownPools t.state

module _ (names : Dict String GlobalName) where
  store_response-IsConfigured :
      (now : ℕ) (probe : Probe) (m : Member) (changed : Bool) (t : Tracker)
      → IsApart m
      → IsConfigured names t
      → IsConfigured names (store_response now probe (m, changed) t)
  unfolding store_response
  store_response-IsConfigured now probe m true t one h = record {
    fit =
        change_pool-IsFit probe.pool_id (change_member probe.member_id (λ _. m) t.state.pools)
          (change_member-IsFit probe.member_id m t.state.pools one h.fit);
    same_names = h.same_names;
    known =
        known_kept t.state.globalnames t.state.pools _
          (λ k.
            contains-change_pool probe.pool_id note_status k
              (change_member probe.member_id (λ _. m) t.state.pools)
            ∙ contains-change_member probe.member_id (λ _. m) k t.state.pools)
          h.known;
  }
  store_response-IsConfigured now probe m false t one h = record {
    fit = change_member-IsFit probe.member_id m t.state.pools one h.fit;
    same_names = h.same_names;
    known =
        known_kept t.state.globalnames t.state.pools _
          (λ k. contains-change_member probe.member_id (λ _. m) k t.state.pools) h.known;
  }

  receive-IsConfigured :
      (now : ℕ) (response : Option Probe) (t : Tracker) {t' : Tracker}
      → IsConfigured names t
      → receive now response t ≡ ok t'
      → IsConfigured names t'
  unfolding process_probe_response member_at
  receive-IsConfigured now none t h e = subst (IsConfigured names) (ok_injective t _ e) h
  receive-IsConfigured now (some probe) t h e =
      let (pool, _, e₁) =
        >>=-eq-ok (or_raise (pool_at t.state.pools probe.pool_id) index_error) _ e in
      let (old, found, e₂) =
        >>=-eq-ok (or_raise (member_at t.state.pools probe.member_id) index_error) _ e₁ in
      let ((m, changed), responded, e₃) = >>=-eq-ok (respond pool.monitor.retries probe old) _ e₂ in
      let (_, _, _, _, region, _) =
        respond-changed pool.monitor.retries probe old m changed responded in
      let old_apart : IsApart old =
        All-get_elem? (all_members t.state.pools) probe.member_id
          (all_members-IsApart t.state.pools h.fit) (or_raise-some _ index_error found) in
      subst (IsConfigured names) (ok_injective _ _ e₃) (
        store_response-IsConfigured now probe m changed t
          (ap (λ r. r == default_name) region ∙ old_apart) h)

  schedule-IsConfigured :
      (checked now : ℕ) (q : List Item) (t : Tracker) {t' : Tracker}
      → IsConfigured names t
      → schedule checked now q t ≡ ok t'
      → IsConfigured names t'
  unfolding schedule
  schedule-IsConfigured checked now [] t h e = absurd (cc e)
  schedule-IsConfigured checked now (top ∷ rest) t h e = elim (Bool-cases (leb top.time checked)) [
    | inl due ↦
        let (pool, _, e₁) =
          >>=-eq-ok (or_raise (pool_at t.state.pools top.pool_id) index_error) _ (rw due at e) in
        let (member, _, e₂) =
          >>=-eq-ok (or_raise (member_at t.state.pools top.member_id) index_error) _ e₁ in
        subst (IsConfigured names) (ok_injective _ _ e₂)
          (record { fit = h.fit; same_names = h.same_names; known = h.known })
    | inr early ↦ subst (IsConfigured names) (ok_injective t _ (rw early at e)) h
  ]

  -- Rounds of the tracker keep it.
  pub run_rounds-IsConfigured :
      (rs : List Round) (t : Tracker) {t' : Tracker}
      → IsConfigured names t
      → run_rounds rs t ≡ ok t'
      → IsConfigured names t'
  unfolding round
  run_rounds-IsConfigured [] t h e = subst (IsConfigured names) (ok_injective t _ e) h
  run_rounds-IsConfigured (r ∷ rs) t h e =
      let (t₁, went, e₁) = >>=-eq-ok (round r.time r.checked r.now r.response t) _ e in
      let (t₂, received, scheduled) = >>=-eq-ok (receive r.time r.response t) _ went in
      run_rounds-IsConfigured rs t₁
        (schedule-IsConfigured r.checked r.now t₂.state.pq t₂
          (receive-IsConfigured r.time r.response t h received) scheduled)
        e₁
