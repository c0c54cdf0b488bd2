-- ===== src/Controller/Steps.antt =====
-- `transitionPhase`, `incrementRetryAndRequeue` and `failRestore` of internal/controller/phases.go.
use vm_file_restore_operator.Base.{
  ℕ, ◌+◌, ◌*◌, String, ◌<>◌, Bool, true, false, ◌&&◌, some, ltb, leb, if◌then◌else◌,
}
use vm_file_restore_operator.Errors.{Error, wrap}
use vm_file_restore_operator.Types.{
  Time, FileRestore, RestorePhase, unset, new, failed, succeeded, phase_text, Status,
  condition_false, Condition,
}
use vm_file_restore_operator.Monad.{Action, pure, ◌>>=◌, ◌>>◌, on_result}
use vm_file_restore_operator.Api.{Api, EventType, normal, warning}
use vm_file_restore_operator.Ssh.{truncate_output}
use vm_file_restore_operator.Conditions.{set_condition}
use vm_file_restore_operator.Controller.State.{
  stop_after, St, Reply, requeue, requeue_after, fail, second, lift, set_status, the_restore,
  patch_status, record_event, now,
}
use vm_file_restore_operator.Controller.Access.{cleanup}

abbrev pub is_initial : RestorePhase → Bool
is_initial unset = true
is_initial new = true
is_initial _ = false

abbrev pub is_terminal : RestorePhase → Bool
is_terminal succeeded = true
is_terminal failed = true
is_terminal _ = false

abbrev event_type_of : RestorePhase → EventType
event_type_of failed = warning
event_type_of _ = normal

-- The retry counters. (The code passes "attachment" or "ssh".)
pub data RetryType : Type 0 where
  attachment ssh : RetryType

abbrev retry_text : RetryType → String
retry_text attachment = "attachment"
retry_text ssh = "ssh"

abbrev pub retries_of : RetryType → Status → ℕ
retries_of attachment st = st.attachment_retries
retries_of ssh st = st.ssh_retries

-- `++` on the counter. It is called below 60 and 24, where an int32 does not wrap.
abbrev pub count_retry : RetryType → Status → Status
count_retry attachment st = record st { attachment_retries = st.attachment_retries + 1 }
count_retry ssh st = record st { ssh_retries = st.ssh_retries + 1 }

-- The delay of `incrementRetryAndRequeue`.
unfoldable pub backoff : Time → ℕ → Time
backoff base_delay retries =
    let delay =
      if leb 5 retries && ltb retries 10
      then base_delay * 2
      else if leb 10 retries
      then base_delay * 4
      else base_delay in
    if ltb (30 * second) delay then 30 * second else delay

module _ (api : Api) where
  open api use {World}

  -- `if due { now := metav1.Now(); … }`
  unfoldable pub stamp : Bool → (Time → Status → Status) → Action (St World) (Unit {0})
  stamp due f = if due then (do t ← now api; set_status (f t)) else pure tt

  -- `transitionPhase`
  unfoldable pub transition_phase : RestorePhase → String → Action (St World) Reply
  transition_phase new_phase message = do
    base ← the_restore
    set_status (λ st. record st { phase = new_phase })
    stamp (is_initial base.status.phase) (λ t st. record st { start_time = some t })
    stamp (is_terminal new_phase) (λ t st. record st { completion_time = some t })
    patched ← patch_status api base
    on_result patched (λ e. pure (fail e))
        (λ _. do
          record_event api (event_type_of new_phase) (phase_text new_phase) message
          pure requeue)

  -- `incrementRetryAndRequeue`
  unfoldable pub increment_retry_and_requeue : RetryType → Time → Action (St World) Reply
  increment_retry_and_requeue kind base_delay = do
    base ← the_restore
    set_status (count_retry kind)
    patched ← patch_status api base
    on_result patched
        (λ e.
          pure (fail (wrap ("failed to increment " <> (retry_text kind <> " retry counter")) e)))
        (λ _. do
          vmfr ← the_restore
          pure (requeue_after (backoff base_delay (retries_of kind vmfr.status))))

  abbrev failure_condition : FileRestore → Time → String → Condition
  failure_condition vmfr t detail = record {
    type = "RestoreCompleted";
    status = condition_false;
    observed_generation = vmfr.generation;
    last_transition_time = t;
    reason = "RestoreFailed";
    message = truncate_output detail 100;
  }

  abbrev pub failed_status : Error → Time → Status → Status
  failed_status e t st = record st {
    phase = failed;
    error_message = e.message;
    completion_time = some t;
  }

  -- `failRestore`
  unfoldable pub fail_restore : String → Error → String → Action (St World) Reply
  fail_restore operator_namespace e detail = do
    base ← the_restore
    t ← now api
    set_status (failed_status e t)
    t' ← now api
    set_status (λ st. record st {
      conditions = set_condition st.conditions (failure_condition base t' detail);
    })
    patched ← patch_status api base
    on_result patched (λ update_error. pure (fail update_error))
        (λ _. do
          record_event api warning "RestoreFailed"
              (e.message <> (": " <> truncate_output detail 100))
          vmfr ← the_restore
          panic ← lift (cleanup api operator_namespace vmfr)
          pure (stop_after panic))
