-- ===== src/Operator.antt =====
-- internal/controller/filerestoreoperator_controller.go and
-- api/v1alpha1/filerestoreoperator_types.go: the status that the operator reports of itself.
pub mod Status
pub mod Settled
use vm_file_restore_operator.Base.{
  ℕ, ◌==◌, String, ◌<>◌, Bool, true, false, not, ◌&&◌, ◌||◌, Option, none, some, List, ◌=?◌,
  if◌then◌else◌,
}
use vm_file_restore_operator.Base.Texts.{is_empty}
use vm_file_restore_operator.Errors.{Error, Result, ok, err, wrap, is_not_found}
use vm_file_restore_operator.Types.{
  Key, Condition, ConditionStatus, condition_true, condition_false, condition_unknown,
}
use vm_file_restore_operator.Monad.{Action, pure, ◌>>=◌, on_result}
use vm_file_restore_operator.Controller.State.{Reply, stop, fail}

-- `FileRestoreOperatorStatus`
pub record OperatorStatus : Type 0 where
  pub conditions : List Condition
  pub operator_version : String
  pub target_version : String
  pub observed_version : String
  pub observed_generation : ℕ

-- `FileRestoreOperator`; the reconciler does not read its spec.
pub record FileRestoreOperator : Type 0 where
  pub name : String
  pub namespace : String
  pub generation : ℕ
  pub status : OperatorStatus

-- The client, and `SetStatusCondition` and `FindStatusCondition` of apimachinery's package `meta`.
-- The first may read the clock.
pub record OperatorApi : Type 1 where
  pub World : Type 0
  pub get_operator : Key → Action World (Result FileRestoreOperator)
  pub update_status : FileRestoreOperator → Action World (Result (Unit {0}))
  pub set_status_condition : List Condition → Condition → Action World (List Condition)
  pub find_status_condition : List Condition → String → Option Condition

abbrev pub reason_deployed : String
reason_deployed = "Deployed"

abbrev pub condition_available : String
condition_available = "Available"

abbrev pub condition_progressing : String
condition_progressing = "Progressing"

abbrev pub condition_degraded : String
condition_degraded = "Degraded"

abbrev pub condition_upgradeable : String
condition_upgradeable = "Upgradeable"

abbrev pub same_status : ConditionStatus → ConditionStatus → Bool
same_status condition_true condition_true = true
same_status condition_false condition_false = true
same_status condition_unknown condition_unknown = true
same_status _ _ = false

-- The conditions that `Reconcile` sets; the time of the transition is left to the library.
abbrev pub deployed : String → ConditionStatus → String → ℕ → Condition
deployed type status message generation = record {
  type = type;
  status = status;
  observed_generation = generation;
  last_transition_time = 0;
  reason = reason_deployed;
  message = message;
}

abbrev pub available : ℕ → Condition
available = deployed condition_available condition_true "FileRestoreOperator is available"

abbrev pub progressing : ℕ → Condition
progressing =
    deployed condition_progressing condition_false "FileRestoreOperator is not progressing"

abbrev pub degraded : ℕ → Condition
degraded = deployed condition_degraded condition_false "FileRestoreOperator is not degraded"

abbrev pub upgradeable : ℕ → Condition
upgradeable = deployed condition_upgradeable condition_true "FileRestoreOperator is upgradeable"

-- `operatorVersion`, on the reconciler's field.
unfoldable pub operator_version_of : String → String
operator_version_of configured = if is_empty configured then "devel" else configured

-- `types.NamespacedName`, printed.
abbrev pub key_text : Key → String
key_text key = key.namespace <> ("/" <> key.name)

module _ (api : OperatorApi) where
  open api use {World}

  -- What `isConditionSet` asks of the condition that was found.
  unfoldable pub is_found_set : Option Condition → Condition → Bool
  is_found_set none wanted = false
  is_found_set (some c) wanted =
      same_status c.status wanted.status
      && c.reason =? reason_deployed
      && c.message =? wanted.message
      && c.observed_generation == wanted.observed_generation

  -- `isConditionSet`
  unfoldable pub is_condition_set : List Condition → Condition → Bool
  is_condition_set cs wanted = is_found_set (api.find_status_condition cs wanted.type) wanted

  -- `fileRestoreOperatorStatusNeedsUpdate`
  unfoldable pub needs_update : OperatorStatus → ℕ → String → Bool
  needs_update st generation version =
      not (st.observed_generation == generation)
      || not (st.operator_version =? version)
      || not (st.target_version =? version)
      || not (st.observed_version =? version)
      || not (is_condition_set st.conditions (available generation))
      || not (is_condition_set st.conditions (progressing generation))
      || not (is_condition_set st.conditions (degraded generation))
      || not (is_condition_set st.conditions (upgradeable generation))

  -- The assignments to the status and the four conditions.
  unfoldable pub reported : FileRestoreOperator → String → Action World FileRestoreOperator
  reported o version = do
    c1 ← api.set_status_condition o.status.conditions (available o.generation)
    c2 ← api.set_status_condition c1 (progressing o.generation)
    c3 ← api.set_status_condition c2 (degraded o.generation)
    c4 ← api.set_status_condition c3 (upgradeable o.generation)
    pure (record o {
      status = record {
        conditions = c4;
        operator_version = version;
        target_version = version;
        observed_version = version;
        observed_generation = o.generation;
      };
    })

  -- The status is set and sent.
  unfoldable pub update_reported : Key → String → FileRestoreOperator → Action World Reply
  update_reported key version o = do
    changed ← reported o version
    updated ← api.update_status changed
    on_result updated
        (λ e.
          pure (
            fail (wrap ("failed to update FileRestoreOperator " <> (key_text key <> " status")) e)))
        (λ _. pure stop)

  -- What follows the read.
  unfoldable pub report : Key → String → FileRestoreOperator → Action World Reply
  report key version o =
      if not (needs_update o.status o.generation version)
      then pure stop
      else update_reported key version o

  -- `Reconcile`
  unfoldable pub reconcile_operator : String → Key → Action World Reply
  reconcile_operator configured key = do
    found ← api.get_operator key
    on_result found
        (λ e. pure (
          if is_not_found e
          then stop
          else fail (wrap ("failed to get FileRestoreOperator " <> key_text key) e)))
        (report key (operator_version_of configured))
