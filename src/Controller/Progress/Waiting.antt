-- ===== src/Controller/Progress/Waiting.antt =====
-- The attempts of `handleWaitingForAttachmentPhase`.
use vm_file_restore_operator.Base.{
  ℕ, ◌+◌, ◌≡◌, ◌≢◌, ◌≤◌, refl, String, true, Option, none, inl, inr, leb, arith, Bool-cases,
}
use vm_file_restore_operator.Errors.{Error}
use vm_file_restore_operator.Types.{
  Status, Time, VolumeStatus, waiting_for_attachment, ssh_connecting, failed, FileRestore,
}
use vm_file_restore_operator.Monad.{◌>>=◌, ◌>>◌, on_option}
use vm_file_restore_operator.Monad.Rules.{Ends, Keeps, ends_rules, Ends-from, Ends-bind, Ends-seq}
use vm_file_restore_operator.Api.{Api}
use vm_file_restore_operator.Server.{IsServer}
use vm_file_restore_operator.Controller.State.{St, Reply, fail, the_restore}
use vm_file_restore_operator.Controller.Both.{
  Holds, the_restore-Keeps, set_status-Keeps, now-Keeps-Holds,
}
use vm_file_restore_operator.Controller.Lifted.{get_instance-Kept}
use vm_file_restore_operator.Controller.Steps.{attachment, transition_phase}
use vm_file_restore_operator.Controller.Attachment.{
  handle_waiting_for_attachment_phase, attachment_check, check_attachment, check_volume, rate_limit,
  reset_attachment_retries, attachment_or_timeout,
}
use vm_file_restore_operator.Controller.Progress.{
  Progress, At, Ended, InPhase, patch-At, patch-InPhase, At-InPhase, At-read, assign-At,
  fail_restore-leaves, pure-error-Ended, transition_phase-Progress, fail_restore-Progress,
  increment-Progress,
}
use vm_file_restore_operator.Controller.Progress.Attempts.{Attempts, Attempts-count}

failed≢waiting : failed ≢ waiting_for_attachment
failed≢waiting e = cc

connecting≢waiting : ssh_connecting ≢ waiting_for_attachment
connecting≢waiting e = cc

module _ (api : Api) (stored : api.World → Status) (server : IsServer api stored)
    (namespace : String) where
  open api use {World}

  module _ (n : ℕ) where
    abbrev Here : St World → Type 0
    Here = At api stored server waiting_for_attachment attachment n

    abbrev Done : Reply → St World → Type 0
    Done = Ended api stored server waiting_for_attachment attachment n

    abbrev In : Status → Type 0
    In = InPhase api stored server waiting_for_attachment attachment

    reset-Keeps :
        (base : FileRestore)
        → Keeps (Holds api stored server In In) (reset_attachment_retries api namespace base)
    unfolding reset_attachment_retries
    reset-Keeps base =
        search
          (
            ends_rules,
            set_status-Keeps api stored server In In,
            patch-InPhase api stored server waiting_for_attachment attachment,
          )
          depth 9

    attached-Progress : Ends Here Done (
        the_restore >>= λ base.
        reset_attachment_retries api namespace base
        >> transition_phase api ssh_connecting "Volume attached, establishing SSH connection")
    attached-Progress =
        Ends-from _ (At-InPhase api stored server waiting_for_attachment attachment n) (
          Ends-bind _ _ (the_restore-Keeps api stored server In In) λ base.
            Ends-seq _ _ (reset-Keeps base) (
              transition_phase-Progress api stored server waiting_for_attachment attachment n
                ssh_connecting _ connecting≢waiting))

    check_volume-Progress :
        (name : String) (found : Option VolumeStatus)
        → Ends Here Done (check_volume api namespace name found)
    unfolding check_volume
    check_volume-Progress name found =
        search
          (
            ends_rules,
            attached-Progress,
            increment-Progress api stored server waiting_for_attachment attachment n,
            fail_restore-Progress api stored server waiting_for_attachment attachment n,
            failed≢waiting,
          )
          depth 9

    check_attachment-Progress : Ends Here Done (check_attachment api namespace)
    unfolding check_attachment
    check_attachment-Progress =
        search
          (
            ends_rules,
            check_volume-Progress,
            the_restore-Keeps api stored server,
            get_instance-Kept api stored server,
            now-Keeps-Holds api stored server,
            assign-At api stored server waiting_for_attachment attachment n,
            patch-At api stored server waiting_for_attachment attachment n,
            pure-error-Ended api stored server waiting_for_attachment attachment n,
            fail_restore-Progress api stored server waiting_for_attachment attachment n,
            failed≢waiting,
          )
          depth 14

    rate_limit-Keeps : (last : Option Time) → Keeps Here (rate_limit api namespace last)
    unfolding rate_limit
    rate_limit-Keeps last = search (ends_rules, now-Keeps-Holds api stored server)

  -- The 5 seconds since the last check are over.
  abbrev pub IsDue : St World → Type 0
  IsDue s = (rate_limit api namespace s.restore.status.last_attachment_check_time s).0 ≡ none

  abbrev read :
      (s : St World)
      → s.restore.status ≡ stored s.world
      → s.restore.status.phase ≡ waiting_for_attachment
      → At api stored server waiting_for_attachment attachment s.restore.status.attachment_retries s
  read s same here = At-read api stored server waiting_for_attachment attachment _ s same here refl

  attempt :
      (s : St World)
      → s.restore.status ≡ stored s.world
      → IsDue s
      → s.restore.status.phase ≡ waiting_for_attachment
      → Progress waiting_for_attachment attachment s.restore.status.attachment_retries
          (handle_waiting_for_attachment_phase api namespace s).0
          (stored (handle_waiting_for_attachment_phase api namespace s).1.world)
  unfolding handle_waiting_for_attachment_phase attachment_or_timeout attachment_check the_restore
      ◌>>=◌
  attempt s same due here =
      let n = s.restore.status.attachment_retries in
      elim (Bool-cases (leb 60 n)) [
        | inl over ↦
            rw over
              ((fail_restore-Progress api stored server waiting_for_attachment attachment n
                  namespace _ _ failed≢waiting).at
                s (read s same here)).1
        | inr under ↦
            let kept =
              (rate_limit-Keeps n s.restore.status.last_attachment_check_time).at s
                (read s same here) in
            rw under (rw (due, on_option) ((check_attachment-Progress n).at _ kept).1)
      ]

  timeout :
      (s : St World)
      → s.restore.status ≡ stored s.world
      → s.restore.status.phase ≡ waiting_for_attachment
      → 60 ≤ s.restore.status.attachment_retries
      → ((e : Error) → (handle_waiting_for_attachment_phase api namespace s).0 ≢ fail e)
      → (stored (handle_waiting_for_attachment_phase api namespace s).1.world).phase
        ≢ waiting_for_attachment
  unfolding handle_waiting_for_attachment_phase attachment_or_timeout the_restore ◌>>=◌
  timeout s same here over no_error =
      let n = s.restore.status.attachment_retries in
      let t : leb 60 n ≡ true = ground arith in
      rw t (
        fail_restore-leaves api stored server waiting_for_attachment attachment n namespace _ _ s
          failed≢waiting (read s same here) (rw t at no_error))

  -- With a server that keeps IsServer: attempts to see the volume attached that are due, give no
  -- error and leave the restore in WaitingForAttachment are each counted in the stored status, from
  -- the object as it is stored, and with the retries before the first they are at most 60, whatever
  -- the calls answer.
  pub handle_waiting_for_attachment_phase-ends :
      (first last : Status) (n : ℕ)
      → Attempts api stored waiting_for_attachment attachment IsDue
          (handle_waiting_for_attachment_phase api namespace)
          first
          n
          last
      → first.phase ≡ waiting_for_attachment
      → first.attachment_retries ≤ 60
      → (last.phase ≡ waiting_for_attachment)
        × (last.attachment_retries ≡ n + first.attachment_retries)
        × (n + first.attachment_retries ≤ 60)
  handle_waiting_for_attachment_phase-ends =
      Attempts-count api stored waiting_for_attachment attachment IsDue
        (handle_waiting_for_attachment_phase api namespace) 60
        (record { attempt = attempt; timeout = timeout })
