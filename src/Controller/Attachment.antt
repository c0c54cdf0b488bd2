-- ===== src/Controller/Attachment.antt =====
-- `handleHotpluggingPhase` and `handleWaitingForAttachmentPhase` of internal/controller/phases.go.
use vm_file_restore_operator.Base.{
  ℕ, ◌+◌, ◌-◌, ◌*◌, String, ◌<>◌, Bool, not, Option, none, some, ◌=?◌, ltb, leb, find?,
  if◌then◌else◌,
}
use vm_file_restore_operator.Base.Texts.{is_empty}
use vm_file_restore_operator.Errors.{Result, errorf, is_transient}
use vm_file_restore_operator.Types.{
  Time, FileRestore, VolumeStatus, volume_phase_ready, volume_phase_other, waiting_for_attachment,
  ssh_connecting,
}
use vm_file_restore_operator.Monad.{Action, pure, ◌>>=◌, ◌>>◌, on_result, on_option}
use vm_file_restore_operator.Api.{Api, normal}
use vm_file_restore_operator.Hotplug.Names.{volume_name_of}
use vm_file_restore_operator.Hotplug.Steps.{hotplug_volume}
use vm_file_restore_operator.Controller.State.{
  St, Reply, fail, requeue_after, second, lift, set_status, the_restore, patch_status, record_event,
  now,
}
use vm_file_restore_operator.Controller.Access.{target_key}
use vm_file_restore_operator.Controller.Steps.{
  transition_phase, fail_restore, increment_retry_and_requeue, attachment,
}

abbrev pub max_attachment_wait : ℕ
max_attachment_wait = 60

-- The least time between two checks.
abbrev pub check_interval : Time
check_interval = 5 * second

-- What is left of the interval since the last check; `none` if nothing is. A clock that was set
-- back makes it longer than the interval, as `time.Since` is negative then.
unfoldable pub remaining_wait : Option Time → Time → Option Time
remaining_wait none t = none
remaining_wait (some last) t =
    if ltb t (last + check_interval) then some (last + check_interval - t) else none

-- The status of the restore volume, if it is attached, bound and has a target.
abbrev is_bound : VolumeStatus → Bool
is_bound v = elim v.phase [
  | volume_phase_ready ↦ not (is_empty v.target)
  | volume_phase_other _ ↦ Bool.false
]

abbrev pub status_named : String → VolumeStatus → Bool
status_named n v = v.name =? n

module _ (api : Api) (operator_namespace : String) where
  open api use {World}

  after_hotplug : Result (Unit {0}) → Action (St World) Reply
  after_hotplug plugged =
      on_result plugged
        (λ e.
          if is_transient e
          then pure (requeue_after (5 * second))
          else fail_restore api operator_namespace e "failed to hotplug volume to VM")
        (λ _. do
          record_event api normal "VolumeHotplug" "Volume hotplugged to VM"
          transition_phase api waiting_for_attachment
              "Volume hotplug initiated, waiting for attachment")

  -- `handleHotpluggingPhase`
  unfoldable pub handle_hotplugging_phase : Action (St World) Reply
  unfolding after_hotplug
  handle_hotplugging_phase = do
    vmfr ← the_restore
    vm ← lift (api.get_machine (target_key vmfr))
    on_result vm (λ e. fail_restore api operator_namespace e "failed to get target VM for hotplug")
        (λ m. do plugged ← lift (hotplug_volume api vmfr m); after_hotplug plugged)

  -- "Reset retry counter"; a failure is only logged.
  unfoldable pub reset_attachment_retries : FileRestore → Action (St World) (Unit {0})
  reset_attachment_retries base =
      if ltb 0 base.status.attachment_retries
      then (do
        set_status (λ st. record st { attachment_retries = 0 })
        patch_status api base
        pure tt)
      else pure tt

  -- What follows the search for the volume's status.
  unfoldable pub check_volume : String → Option VolumeStatus → Action (St World) Reply
  check_volume n found =
      on_option found (increment_retry_and_requeue api attachment (5 * second)) (λ v.
        if not (is_bound v)
        then increment_retry_and_requeue api attachment (5 * second)
        else if not v.hotplug_volume
        then fail_restore api operator_namespace (errorf "volume is not a hotplug volume")
            ("Volume " <> (n <> " exists but is not marked as hotplugged"))
        else (do
          base ← the_restore
          reset_attachment_retries base
          transition_phase api ssh_connecting "Volume attached, establishing SSH connection"))

  unfoldable pub check_attachment : Action (St World) Reply
  unfolding check_volume
  check_attachment = do
    vmfr ← the_restore
    vmi ← lift (api.get_instance (target_key vmfr))
    on_result vmi (λ e. fail_restore api operator_namespace e "failed to get VMI")
        (λ i. do
          t ← now api
          set_status (λ st. record st { last_attachment_check_time = some t })
          patched ← patch_status api vmfr
          on_result patched (λ e. pure (fail e))
              (λ _.
                check_volume (volume_name_of vmfr.name)
                  (find? (status_named (volume_name_of vmfr.name)) i.volume_status)))

  -- The rate limit; the clock is read only after a first check.
  unfoldable pub rate_limit : Option Time → Action (St World) (Option Time)
  rate_limit last =
      on_option last (pure none) (λ l. do t ← now api; pure (remaining_wait (some l) t))

  -- The rate limit, then the check.
  unfoldable pub attachment_check : FileRestore → Action (St World) Reply
  unfolding check_attachment
  attachment_check vmfr = do
    wait ← rate_limit vmfr.status.last_attachment_check_time
    on_option wait check_attachment (λ d. pure (requeue_after d))

  -- The timeout, then the check.
  unfoldable pub attachment_or_timeout : FileRestore → Action (St World) Reply
  attachment_or_timeout vmfr =
      if leb max_attachment_wait vmfr.status.attachment_retries
      then fail_restore api operator_namespace (errorf "volume attachment timeout")
          "volume did not attach after 60 attempts (5 minutes)"
      else attachment_check vmfr

  -- `handleWaitingForAttachmentPhase`
  unfoldable pub handle_waiting_for_attachment_phase : Action (St World) Reply
  unfolding attachment_or_timeout
  handle_waiting_for_attachment_phase = the_restore >>= attachment_or_timeout
