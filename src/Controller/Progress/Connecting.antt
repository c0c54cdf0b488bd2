-- ===== src/Controller/Progress/Connecting.antt =====
-- The attempts of `handleSSHConnectingPhase`.
use vm_file_restore_operator.Base.{
  ℕ, ◌+◌, ◌≡◌, ◌≢◌, ◌≤◌, refl, String, true, Option, none, inl, inr, leb, arith, Bool-cases,
}
use vm_file_restore_operator.Errors.{Error}
use vm_file_restore_operator.Types.{
  Status, Time, ssh_connecting, restoring, failed, FileRestore, Instance, Bytes,
}
use vm_file_restore_operator.Monad.{Action, pure, ◌>>=◌, on_option}
use vm_file_restore_operator.Monad.Rules.{
  Ends, Keeps, ends_rules, Ends-from, Ends-bind, Ends-seq, Ends-given,
}
use vm_file_restore_operator.Api.{Api}
use vm_file_restore_operator.Server.{IsServer}
use vm_file_restore_operator.Controller.State.{St, Reply, fail, the_restore}
use vm_file_restore_operator.Controller.Both.{
  Holds, the_restore-Keeps, set_status-Keeps, now-Keeps-Holds,
}
use vm_file_restore_operator.Controller.Lifted.{
  get_instance-Kept, get_vmi_ip_address-Kept, get_ssh_private_key-Kept, connect_ssh-Kept,
  close-Kept,
}
use vm_file_restore_operator.Controller.Steps.{ssh}
use vm_file_restore_operator.Controller.Attachment.{rate_limit}
use vm_file_restore_operator.Controller.Restoring.{
  handle_ssh_connecting_phase, ssh_check, check_ssh, with_access, connect, connected, closing,
  reset_ssh_retries, ssh_or_timeout,
}
use vm_file_restore_operator.Controller.Progress.{
  Progress, At, Ended, InPhase, patch-At, patch-InPhase, At-InPhase, At-read, assign-At,
  fail_restore-leaves, pure-error-Ended, transition_phase-Progress, fail_restore-Progress,
  increment-Progress,
}
use vm_file_restore_operator.Controller.Progress.Attempts.{Attempts, Attempts-count}

failed≢connecting : failed ≢ ssh_connecting
failed≢connecting e = cc

restoring≢connecting : restoring ≢ ssh_connecting
restoring≢connecting e = cc

module _ (api : Api) (stored : api.World → Status) (server : IsServer api stored)
    (namespace : String) where
  open api use {World}

  module _ (n : ℕ) where
    abbrev Here : St World → Type 0
    Here = At api stored server ssh_connecting ssh n

    abbrev Done : Reply → St World → Type 0
    Done = Ended api stored server ssh_connecting ssh n

    abbrev In : Status → Type 0
    In = InPhase api stored server ssh_connecting ssh

    reset-Keeps :
        (base : FileRestore)
        → Keeps (Holds api stored server In In) (reset_ssh_retries api namespace base)
    unfolding reset_ssh_retries
    reset-Keeps base =
        search
          (
            ends_rules,
            set_status-Keeps api stored server In In,
            patch-InPhase api stored server ssh_connecting ssh,
          )
          depth 9

    closing-Progress :
        (c : api.Connection) (body : Action (St World) Reply)
        → Ends Here Done body
        → Ends Here Done (closing api namespace c body)
    unfolding closing pure
    closing-Progress c body e = Ends-given body _ e λ reply.
        Ends-seq _ _
          (close-Kept api stored server (λ _. Unit {0}) (Progress ssh_connecting ssh n reply) c)
          (record { at = λ s h. h })

    connected-Progress : (c : api.Connection) → Ends Here Done (connected api namespace c)
    unfolding connected
    connected-Progress c = closing-Progress c _ (
        Ends-from _ (At-InPhase api stored server ssh_connecting ssh n) (
          Ends-bind _ _ (the_restore-Keeps api stored server In In) λ base.
            Ends-seq _ _ (reset-Keeps base) (
              transition_phase-Progress api stored server ssh_connecting ssh n restoring _
                restoring≢connecting)))

    connect-Progress :
        (i : Instance) (ip : String) (key : Bytes) → Ends Here Done (connect api namespace i ip key)
    unfolding connect
    connect-Progress i ip key =
        search
          (
            ends_rules,
            connected-Progress,
            connect_ssh-Kept api stored server,
            increment-Progress api stored server ssh_connecting ssh n,
          )
          depth 9

    with_access-Progress :
        (v : FileRestore) → Ends Here Done (with_access api namespace v (connect api namespace))
    unfolding with_access
    with_access-Progress v =
        search
          (
            ends_rules,
            connect-Progress,
            get_instance-Kept api stored server,
            get_vmi_ip_address-Kept api stored server,
            get_ssh_private_key-Kept api stored server,
            fail_restore-Progress api stored server ssh_connecting ssh n,
            failed≢connecting,
          )
          depth 12

    check_ssh-Progress : Ends Here Done (check_ssh api namespace)
    unfolding check_ssh
    check_ssh-Progress =
        search
          (
            ends_rules,
            with_access-Progress,
            the_restore-Keeps api stored server,
            now-Keeps-Holds api stored server,
            assign-At api stored server ssh_connecting ssh n,
            patch-At api stored server ssh_connecting ssh n,
            pure-error-Ended api stored server ssh_connecting ssh n,
          )
          depth 14

    rate_limit-Keeps : (last : Option Time) → Keeps Here (rate_limit api namespace last)
    unfolding rate_limit
    rate_limit-Keeps last = search (ends_rules, now-Keeps-Holds api stored server)

  -- The 5 seconds since the last check are over.
  abbrev pub IsDue : St World → Type 0
  IsDue s = (rate_limit api namespace s.restore.status.last_ssh_check_time s).0 ≡ none

  abbrev read :
      (s : St World)
      → s.restore.status ≡ stored s.world
      → s.restore.status.phase ≡ ssh_connecting
      → At api stored server ssh_connecting ssh s.restore.status.ssh_retries s
  read s same here = At-read api stored server ssh_connecting ssh _ s same here refl

  attempt :
      (s : St World)
      → s.restore.status ≡ stored s.world
      → IsDue s
      → s.restore.status.phase ≡ ssh_connecting
      → Progress ssh_connecting ssh s.restore.status.ssh_retries
          (handle_ssh_connecting_phase api namespace s).0
          (stored (handle_ssh_connecting_phase api namespace s).1.world)
  unfolding handle_ssh_connecting_phase ssh_or_timeout ssh_check the_restore ◌>>=◌
  attempt s same due here =
      let n = s.restore.status.ssh_retries in
      elim (Bool-cases (leb 24 n)) [
        | inl over ↦
            rw over
              ((fail_restore-Progress api stored server ssh_connecting ssh n namespace _ _
                  failed≢connecting).at
                s (read s same here)).1
        | inr under ↦
            let kept =
              (rate_limit-Keeps n s.restore.status.last_ssh_check_time).at s (read s same here) in
            rw under (rw (due, on_option) ((check_ssh-Progress n).at _ kept).1)
      ]

  timeout :
      (s : St World)
      → s.restore.status ≡ stored s.world
      → s.restore.status.phase ≡ ssh_connecting
      → 24 ≤ s.restore.status.ssh_retries
      → ((e : Error) → (handle_ssh_connecting_phase api namespace s).0 ≢ fail e)
      → (stored (handle_ssh_connecting_phase api namespace s).1.world).phase ≢ ssh_connecting
  unfolding handle_ssh_connecting_phase ssh_or_timeout the_restore ◌>>=◌
  timeout s same here over no_error =
      let n = s.restore.status.ssh_retries in
      let t : leb 24 n ≡ true = ground arith in
      rw t (
        fail_restore-leaves api stored server ssh_connecting ssh n namespace _ _ s failed≢connecting
          (read s same here) (rw t at no_error))

  -- With a server that keeps IsServer: attempts to connect that are due, give no
  -- error and leave the restore in SSHConnecting are each counted in the stored status, from
  -- the object as it is stored, and with the retries before the first they are at most 24, whatever
  -- the calls answer.
  pub handle_ssh_connecting_phase-ends :
      (first last : Status) (n : ℕ)
      → Attempts api stored ssh_connecting ssh IsDue
          (handle_ssh_connecting_phase api namespace)
          first
          n
          last
      → first.phase ≡ ssh_connecting
      → first.ssh_retries ≤ 24
      → (last.phase ≡ ssh_connecting)
        × (last.ssh_retries ≡ n + first.ssh_retries)
        × (n + first.ssh_retries ≤ 24)
  handle_ssh_connecting_phase-ends =
      Attempts-count api stored ssh_connecting ssh IsDue (handle_ssh_connecting_phase api namespace)
        24 (record { attempt = attempt; timeout = timeout })
