-- ===== src/Operator/Settled.antt =====
-- The status of the operator's own object after a reconciliation.
use vm_file_restore_operator.Base.{
  ◌≡◌, ◌⊎◌, refl, sym, subst, ◌∙◌, inl, inr, String, true, false, List, ◌=?◌, Bool-cases, eq_refl,
}
use vm_file_restore_operator.Errors.{Error, Result, ok, err}
use vm_file_restore_operator.Types.{Key, Condition}
use vm_file_restore_operator.Monad.{pure, ◌>>=◌, on_result}
use vm_file_restore_operator.Controller.State.{Reply, stop, fail}
use vm_file_restore_operator.Operator.{
  OperatorApi, FileRestoreOperator, available, progressing, degraded, upgradeable, is_found_set,
  is_condition_set, needs_update, reported, report, update_reported, reconcile_operator,
  operator_version_of, reason_deployed,
}
use vm_file_restore_operator.Operator.Status.{
  IsConditionApi, IsSettled, same_status_refl, equal_refl, not_due-IsSettled, IsSettled-not_due,
}

fail≢stop : (x : Error) → ¬ (fail x ≡ stop)
fail≢stop x e = cc

err≢ok : (x : Error) → ¬ (err x ≡ ok (tt {0}))
err≢ok x e = cc

true≢false : ¬ (true ≡ false)
true≢false e = cc

module _ (api : OperatorApi) (lawful : IsConditionApi api) where
  open api use {World}

  -- A condition that was just set is set.
  just_set :
      (cs : List Condition) (n : Condition) (w : World)
      → n.reason ≡ reason_deployed
      → is_condition_set api (api.set_status_condition cs n w).0 n ≡ true
  unfolding is_condition_set is_found_set
  just_set cs n w r =
      let (c, e, s, reason, m, g) = lawful.set_found cs n w in
      rw (e, s, reason, m, g, r)
        (rw (same_status_refl n.status, eq_refl n.message, equal_refl n.observed_generation) refl)

  -- Setting another condition keeps it.
  still_set :
      (cs : List Condition) (n wanted : Condition) (w : World)
      → n.type =? wanted.type ≡ false
      → is_condition_set api cs wanted ≡ true
      → is_condition_set api (api.set_status_condition cs n w).0 wanted ≡ true
  unfolding is_condition_set
  still_set cs n wanted w d h = rw (lawful.set_others cs n w wanted.type d) h

  -- The status that is reported needs no update.
  reported-settled :
      (o : FileRestoreOperator) (version : String) (w : World)
      → needs_update api (reported api o version w).0.status o.generation version ≡ false
  unfolding needs_update reported ◌>>=◌ pure
  reported-settled o version w =
      let g = o.generation in
      let (c1, w1) = api.set_status_condition o.status.conditions (available g) w in
      let (c2, w2) = api.set_status_condition c1 (progressing g) w1 in
      let (c3, w3) = api.set_status_condition c2 (degraded g) w2 in
      let a1 = just_set o.status.conditions (available g) w refl in
      let a2 = still_set c1 (progressing g) (available g) w1 refl a1 in
      let a3 = still_set c2 (degraded g) (available g) w2 refl a2 in
      let a4 = still_set c3 (upgradeable g) (available g) w3 refl a3 in
      let p2 = just_set c1 (progressing g) w1 refl in
      let p3 = still_set c2 (degraded g) (progressing g) w2 refl p2 in
      let p4 = still_set c3 (upgradeable g) (progressing g) w3 refl p3 in
      let d3 = just_set c2 (degraded g) w2 refl in
      let d4 = still_set c3 (upgradeable g) (degraded g) w3 refl d3 in
      let u4 = just_set c3 (upgradeable g) w3 refl in
      rw (equal_refl g, eq_refl version, a4, p4, d4, u4) refl

  -- An object whose status is as wanted is only read.
  idle :
      (configured : String) (key : Key) (w : World) (o : FileRestoreOperator)
      → (api.get_operator key w).0 ≡ ok o
      → needs_update api o.status o.generation (operator_version_of configured) ≡ false
      → reconcile_operator api configured key w ≡ (stop, (api.get_operator key w).1)
  unfolding reconcile_operator report ◌>>=◌ on_result pure
  idle configured key w o e settled = rw (e, reconcile_operator) (rw settled refl)

  -- An object whose status is not as wanted is written.
  due-update :
      (configured : String) (key : Key) (w : World) (o : FileRestoreOperator)
      → (api.get_operator key w).0 ≡ ok o
      → needs_update api o.status o.generation (operator_version_of configured) ≡ true
      → reconcile_operator api configured key w
        ≡ update_reported api key (operator_version_of configured) o (api.get_operator key w).1
  unfolding reconcile_operator report ◌>>=◌ on_result pure
  due-update configured key w o e due = rw (e, reconcile_operator) (rw due refl)

  -- One update of the object with a settled status, whose answer is the reconciliation's.
  abbrev pub Sends : FileRestoreOperator → String → Reply × World → Type 0
  Sends o version answer =
      (changed : FileRestoreOperator) × (u : World) × (changed
        ≡ record o { status = changed.status })
      × IsSettled api changed version
      × (answer.1 ≡ (api.update_status changed u).1)
      × ((answer.0 ≡ stop → (api.update_status changed u).0 ≡ ok tt)
          × ((api.update_status changed u).0 ≡ ok tt → answer.0 ≡ stop))

  reported-status :
      (o : FileRestoreOperator) (version : String) (w : World)
      → (reported api o version w).0 ≡ record o { status = (reported api o version w).0.status }
  unfolding reported ◌>>=◌ pure
  reported-status o version w = refl

  reported-generation :
      (o : FileRestoreOperator) (version : String) (w : World)
      → (reported api o version w).0.generation ≡ o.generation
  unfolding reported ◌>>=◌ pure
  reported-generation o version w = refl

  update-answer :
      (key : Key) (version : String) (o : FileRestoreOperator) (w : World)
      (answer : Result (Unit {0}))
      → let (changed, u) = reported api o version w in
        (api.update_status changed u).0 ≡ answer
        → ((update_reported api key version o w).1 ≡ (api.update_status changed u).1)
          × (((update_reported api key version o w).0 ≡ stop → answer ≡ ok tt)
              × (answer ≡ ok tt → (update_reported api key version o w).0 ≡ stop))
  unfolding update_reported ◌>>=◌ on_result pure
  update-answer key version o w (ok x) e =
      (rw (e, update_reported) refl, ((λ h. refl), λ h. rw (e, update_reported) refl))
  update-answer key version o w (err x) e = (
    rw (e, update_reported) refl,
    ((λ h. absurd (fail≢stop _ (rw (e, update_reported) at h))), λ h. absurd (err≢ok x h)),
  )

  update_reported-Sends :
      (key : Key) (version : String) (o : FileRestoreOperator) (w : World)
      → Sends o version (update_reported api key version o w)
  update_reported-Sends key version o w =
      let (changed, u) = reported api o version w in
      let (world, answer) = update-answer key version o w (api.update_status changed u).0 refl in
      (
        changed,
        u,
        reported-status o version w,
        not_due-IsSettled api changed version (
            subst (λ g. needs_update api changed.status g version ≡ false)
              (sym (reported-generation o version w)) (reported-settled o version w)),
        world,
        answer,
      )

  -- With condition functions that keep `IsConditionApi`, a reconciliation that has read the object
  -- `o` is in one of two cases. Either its status tells of its generation and of the operator's
  -- version, in all three fields, with the four conditions, and the reconciliation ends there without
  -- a write. Or its status does not, and the reconciliation's last call is an update of the object
  -- with a status that does, and it ends without an error just if the update is accepted.
  pub reconcile_operator-settles :
      (configured : String) (key : Key) (w : World) (o : FileRestoreOperator)
      → (api.get_operator key w).0 ≡ ok o
      → (IsSettled api o (operator_version_of configured)
          × (reconcile_operator api configured key w ≡ (stop, (api.get_operator key w).1)))
        ⊎ ((¬ IsSettled api o (operator_version_of configured))
            × Sends o (operator_version_of configured) (reconcile_operator api configured key w))
  reconcile_operator-settles configured key w o e =
      let version = operator_version_of configured in
      elim (Bool-cases (needs_update api o.status o.generation version)) [
        | inl due ↦ inr (
          (λ h. true≢false (sym due ∙ IsSettled-not_due api o version h)),
          subst (Sends o version) (sym (due-update configured key w o e due))
              (update_reported-Sends key version o _),
        )
        | inr settled ↦
            inl (not_due-IsSettled api o version settled, idle configured key w o e settled)
      ]
